-- ===== src/SecretBox/RoundTrip.antt =====
-- What is encrypted is decrypted again.
use tsa_proxy.Common.{
  ◌≡◌, refl, sym, true, false, some, [], ◌∷◌, ◌++◌, take, drop, length, length-append, ltb,
  Bool-cases, inl, inr, arith,
}
use tsa_proxy.ApiError.{ok, ok-injective}
use tsa_proxy.Auth.{Bytes, has_prefix, trim_prefix}
use tsa_proxy.Password.Compare.{AreBytes}
use tsa_proxy.SecretBox.{
  Aead, secret_prefix, seal_with, encrypt, open_with, decrypt_encoded, decrypt,
}

-- What the libraries promise.
pub record IsLawful (A : Aead) : Type 0 where
  pub opens : (k n p : Bytes) → AreBytes p → A.open_sealed k n (A.seal k n p) ≡ some p
  pub decodes : (s : Bytes) → AreBytes s → A.decode (A.encode s) ≡ some s
  pub seals_bytes : (k n p : Bytes) → AreBytes p → AreBytes (A.seal k n p)

take-append : (xs ys : Bytes) → take (length xs) (xs ++ ys) ≡ xs
take-append [] ys = refl
take-append (x ∷ xs) ys = rw (take-append xs ys) refl

drop-append : (xs ys : Bytes) → drop (length xs) (xs ++ ys) ≡ ys
drop-append [] ys = refl
drop-append (x ∷ xs) ys = drop-append xs ys

AreBytes-append : (xs ys : Bytes) → AreBytes xs → AreBytes ys → AreBytes (xs ++ ys)
AreBytes-append [] ys hx hy = hy
AreBytes-append (x ∷ xs) ys hx hy = (hx.0, AreBytes-append xs ys hx.1 hy)

has_prefix-append : (ps s : Bytes) → has_prefix (ps ++ s) ps ≡ true
unfolding has_prefix
has_prefix-append [] s = refl
has_prefix-append (p ∷ ps) s = ground (arith, has_prefix-append ps s)

module _ (A : Aead) (law : IsLawful A) (nonce : Bytes) (drawn : AreBytes nonce)
    (size : length nonce ≡ A.nonce_size) (key : Bytes) where
  opened : (p : Bytes) → AreBytes p → open_with A key (nonce ++ A.seal key nonce p) ≡ ok p
  unfolding open_with
  opened p text =
      let sealed = A.seal key nonce p in
      let long : ltb (length (nonce ++ sealed)) (length nonce) ≡ false =
        (rw (length-append nonce sealed) (ground arith)) in
      rw (open_with, sym size, long)
        (rw (take-append nonce sealed, drop-append nonce sealed)
          (rw (law.opens key nonce p text) refl))

  sealed_back :
      (p v : Bytes)
      → AreBytes p
      → A.accepts key ≡ true
      → seal_with A (some nonce) p key ≡ ok v
      → decrypt A v (some key) ≡ ok p
  unfolding seal_with decrypt decrypt_encoded trim_prefix has_prefix
  sealed_back p v text accepted h =
      let raw = nonce ++ A.seal key nonce p in
      let bytes =
        AreBytes-append nonce (A.seal key nonce p) drawn (law.seals_bytes key nonce p text) in
      let e : v ≡ secret_prefix ++ A.encode raw = sym (ok-injective h) in
      rw (e, decrypt, decrypt_encoded, law.decodes raw bytes) (rw accepted (opened p text))

-- Under the key that is configured, a password that Encrypt accepts is what Decrypt gives back, also
-- where it is empty or looks like a stored secret.
pub decrypt-encrypt :
    (A : Aead) (law : IsLawful A) (nonce : Bytes) (drawn : AreBytes nonce)
    (size : length nonce ≡ A.nonce_size) (key p v : Bytes)
    → AreBytes p
    → encrypt A (some nonce) p (some key) ≡ ok v
    → decrypt A v (some key) ≡ ok p
unfolding encrypt decrypt has_prefix
decrypt-encrypt A law nonce drawn size key [] v text h = rw (sym (ok-injective h)) refl
decrypt-encrypt A law nonce drawn size key (c ∷ p) v text h = elim (Bool-cases (A.accepts key)) [
  | inl a ↦
      let h' = (rw (encrypt, a) at h) in sealed_back A law nonce drawn size key (c ∷ p) v text a h'
  | inr a ↦ let h' = (rw (encrypt, a) at h) in cc
]
