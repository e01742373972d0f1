-- ===== src/Stamp.antt =====
-- internal/service/proxy/service.go: the flow of one timestamp request. The child modules hold its
-- parts: what the outside replies and what is done to it (Effects), the usage record (Usage), the
-- flow itself (Process), and the proofs.
pub mod Effects
pub mod Usage
pub mod Process
pub mod Quiet
pub mod Tables
pub mod Accounting
pub mod Answers
pub mod Bag
