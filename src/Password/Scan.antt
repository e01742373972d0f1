-- ===== src/Password/Scan.antt =====
-- The text of a hash is scanned back into what it was made of.
use tsa_proxy.Common.{
  ℕ, ◌≡◌, sym, ◌↔◌, refl, Bool, true, false, ◌&&◌, ◌||◌, none, some, [], ◌∷◌, ◌++◌, length, leb,
  ◌==◌, arith, All,
}
use tsa_proxy.ApiError.{ok, ok-injective}
use tsa_proxy.Auth.{Bytes}
use tsa_proxy.Password.Compare.{AreBytes, same_key_refl, same_key-equal}
use tsa_proxy.Password.{
  Argon, argon_memory, argon_iterations, argon_parallelism, argon_key_len, parameters_text,
  hash_password, is_blank, is_space, skip_space, expect, is_digit, scan_digits, within, scan_first,
  scan_uint, scan_token, some_token, scan_text, scan_rest, scan_parallelism, scan_iterations,
  scan_hash, split_last, same_key, verify_parts, verify_argon2id,
}

-- The 64 characters of the encoding without padding.
abbrev pub is_base64 : ℕ → Bool
is_base64 c =
    (leb 48 c && leb c 57)
    || ((leb 65 c && leb c 90) || ((leb 97 c && leb c 122) || ((c == 43) || (c == 47))))

-- What the libraries promise.
pub record IsLawful (A : Argon) : Type 0 where
  pub decodes : (s : Bytes) → AreBytes s → A.decode (A.encode s) ≡ some s
  pub alphabet : (s : Bytes) → AreBytes s → All (λ c. is_base64 c ≡ true) (A.encode s)
  pub key_bytes : (p s : Bytes) (t m c n : ℕ) → AreBytes (A.id_key p s t m c n)
  pub key_length : (p s : Bytes) (t m c n : ℕ) → length (A.id_key p s t m c n) ≡ n

base64-text : (c : ℕ) → is_base64 c ≡ true → is_space c ≡ false
unfolding is_space is_blank
base64-text c h = ground arith

scan_token-All : (s : Bytes) → All (λ c. is_space c ≡ false) s → scan_token s ≡ s
unfolding scan_token
scan_token-All [] h = refl
scan_token-All (c ∷ s) h = rw (h.0, scan_token-All s h.1) refl

is_blank_not : (c : ℕ) → is_space c ≡ false → is_blank c ≡ false
unfolding is_space
is_blank_not c h = ground arith

scan_text-All :
    (c : ℕ) (s : Bytes) → All (λ c. is_space c ≡ false) (c ∷ s) → scan_text (c ∷ s) ≡ some (c ∷ s)
unfolding scan_text skip_space some_token
scan_text-All c s h = rw (is_blank_not c h.0) (rw h.0 (rw (scan_token-All s h.1) refl))

All-text : (t : Bytes) → All (λ c. is_base64 c ≡ true) t → All (λ c. is_space c ≡ false) t
All-text [] h = h
All-text (c ∷ t) h = (base64-text c h.0, All-text t h.1)

All-append :
    (s t : Bytes)
    → All (λ c. is_base64 c ≡ true) s
    → All (λ c. is_base64 c ≡ true) t
    → All (λ c. is_space c ≡ false) (s ++ (36 ∷ t))
unfolding is_space is_blank
All-append [] t hs ht = (refl, All-text t ht)
All-append (c ∷ s) t hs ht = (base64-text c hs.0, All-append s t hs.1 ht)

split_last-none : (t : Bytes) → All (λ c. is_base64 c ≡ true) t → split_last t ≡ none
unfolding split_last
split_last-none [] h = refl
split_last-none (c ∷ t) h =
    let other : (c == 36) ≡ false = (ground (arith, h.0)) in
    rw (split_last-none t h.1) (rw other refl)

split_last_append :
    (s t : Bytes) → All (λ c. is_base64 c ≡ true) t → split_last (s ++ (36 ∷ t)) ≡ some (s, t)
unfolding split_last
split_last_append [] t h = rw (split_last-none t h) refl
split_last_append (c ∷ s) t h = rw (split_last_append s t h) refl

-- The text that is scanned is what is written after the parameters.
scan_hash_written :
    (c : ℕ) (s : Bytes)
    → All (λ c. is_space c ≡ false) (c ∷ s)
    → scan_hash (parameters_text ++ (c ∷ s))
      ≡ some (record {
        memory = argon_memory;
        iterations = argon_iterations;
        parallelism = argon_parallelism;
        rest = c ∷ s;
      })
unfolding scan_hash scan_iterations scan_parallelism scan_rest scan_uint scan_first within
    scan_digits expect is_digit skip_space is_blank
scan_hash_written c s h =
    rw (scan_hash, scan_iterations, scan_parallelism, scan_rest, scan_text-All c s h) refl

pub scan_written :
    (s t : Bytes)
    → All (λ c. is_base64 c ≡ true) s
    → All (λ c. is_base64 c ≡ true) t
    → scan_hash (parameters_text ++ (s ++ (36 ∷ t)))
      ≡ some (record {
        memory = argon_memory;
        iterations = argon_iterations;
        parallelism = argon_parallelism;
        rest = s ++ (36 ∷ t);
      })
scan_written [] t hs ht = scan_hash_written 36 t (All-append [] t hs ht)
scan_written (c ∷ s) t hs ht = scan_hash_written c (s ++ (36 ∷ t)) (All-append (c ∷ s) t hs ht)

module _ (A : Argon) (law : IsLawful A) where
  abbrev key : Bytes → Bytes → Bytes
  key salt p = A.id_key p salt argon_iterations argon_memory argon_parallelism argon_key_len

  key-AreBytes : (salt p : Bytes) → AreBytes (key salt p)
  key-AreBytes salt p =
      law.key_bytes p salt argon_iterations argon_memory argon_parallelism argon_key_len

  pub verify_written :
      (salt p q : Bytes)
      → AreBytes salt
      → verify_argon2id A (parameters_text ++ (A.encode salt ++ (36 ∷ A.encode (key salt p)))) q
        ≡ same_key (key salt q) (key salt p)
  unfolding verify_argon2id verify_parts
  verify_written salt p q drawn =
      let hash = key salt p in
      let bytes = key-AreBytes salt p in
      let length_of =
        law.key_length p salt argon_iterations argon_memory argon_parallelism argon_key_len in
      rw
        (
          verify_argon2id,
          scan_written (A.encode salt) (A.encode hash) (law.alphabet salt drawn)
              (law.alphabet hash bytes),
        )
        (rw (split_last_append (A.encode salt) (A.encode hash) (law.alphabet hash bytes)) (
          rw (verify_parts, law.decodes salt drawn)
            (rw (law.decodes hash bytes) (rw length_of refl))))

-- A hash that HashPassword returns is accepted for its password, and for another password exactly
-- where the key derivation gives the two passwords the same key under the salt that was drawn.
pub verify_argon2id-hash_password :
    (A : Argon) (law : IsLawful A) (salt : Bytes) (drawn : AreBytes salt) (p q h : Bytes)
    → hash_password A (some salt) p ≡ ok h
    → (verify_argon2id A h p ≡ true)
      × ((verify_argon2id A h q ≡ true) ↔ (
          A.id_key q salt argon_iterations argon_memory argon_parallelism argon_key_len
          ≡ A.id_key p salt argon_iterations argon_memory argon_parallelism argon_key_len))
unfolding hash_password
verify_argon2id-hash_password A law salt drawn p q h made =
    let e : h ≡ (parameters_text ++ (A.encode salt ++ (36 ∷ A.encode (key A law salt p)))) =
      sym (ok-injective made) in
    let own = verify_written A law salt p p drawn in
    let other = verify_written A law salt p q drawn in
    (
      rw (e, own) (same_key_refl (key A law salt p)),
      (
        λ v.
            same_key-equal (key A law salt q) (key A law salt p) (key-AreBytes A law salt q)
              (key-AreBytes A law salt p) (rw (e, other) at v),
        λ same. rw (e, other) (rw same (same_key_refl (key A law salt p))),
      ),
    )
