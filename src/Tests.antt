-- ===== src/Tests.antt =====
-- Concrete inputs on which the properties of the other modules are tried.
mod Encoding
mod Stamping
mod Clients
mod Bundling
mod Guarding
mod Serving
mod Keys
mod Sessions
mod Administration
mod Upstreams
