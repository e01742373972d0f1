-- ===== src/Handler/Bodies.antt =====
-- Which bodies reach the flow.
use tsa_proxy.Common.{
  ℕ, zero, suc, ◌+◌, ◌^◌, ◌≤◌, ◌<◌, ◌≡◌, ◌↔◌, refl, ap, false, List, [], ◌∷◌, length, length-take,
  take, ltb, if◌then◌else◌, Bool-cases, inl, inr, arith,
}
use tsa_proxy.Common.Int.{pos, ltb_ℤ}
use tsa_proxy.ApiError.{Answer, answer, refuse, err_bad_request, err_request_too_large}
use tsa_proxy.Handler.{Body, whole, broken, add_one, read_limited, is_empty, read_body}

-- What is left of a read of `n + 1` bytes that has at most `n`.
take_short : (n : ℕ) (bytes : List ℕ) → length (take n bytes) < n → take n bytes ≡ bytes
take_short zero bytes lt = ground arith
take_short (suc n) [] lt = refl
take_short (suc n) (b ∷ bs) lt = rw (take_short n bs (ground arith)) refl

take_all : (n : ℕ) (bytes : List ℕ) → length bytes ≤ n → take n bytes ≡ bytes
take_all zero [] le = refl
take_all zero (b ∷ bs) le = ground arith
take_all (suc n) [] le = refl
take_all (suc n) (b ∷ bs) le = rw (take_all n bs (ground arith)) refl

is_empty_iff : (bytes : List ℕ) → (is_empty bytes ≡ false) ↔ (0 < length bytes)
unfolding is_empty
is_empty_iff [] = ground arith
is_empty_iff (b ∷ bs) = ground arith

add_one_pos : (n : ℕ) → n + 1 < 2 ^ 63 → add_one (pos n) ≡ pos (suc n)
unfolding add_one
add_one_pos n lt = ground arith

-- What is decided of the bytes that were read.
abbrev sized : ℕ → List ℕ → Answer (List ℕ)
sized max bytes =
    if ltb_ℤ (pos max) (pos (length bytes))
    then refuse err_request_too_large
    else if is_empty bytes
    then refuse err_bad_request
    else answer bytes

sized_iff :
    (max : ℕ) (read bytes : List ℕ)
    → (sized max read ≡ answer bytes) ↔ ((read ≡ bytes) × (0 < length read) × (length read ≤ max))
sized_iff max read bytes = elim (Bool-cases (ltb_ℤ (pos max) (pos (length read)))) [
  | inl big ↦ ((λ h. let h' = (rw big at h) in cc), (λ (_, _, le). ground arith))
  | inr fits ↦ elim (Bool-cases (is_empty read)) [
    | inl none_read ↦ (
      (λ h. let h' = (rw (fits, none_read) at h) in cc),
      (λ (_, some_read, _). let e = (is_empty_iff read).1 some_read in cc (e, none_read)),
    )
    | inr some_read ↦ (
      (λ h.
          let h' = (rw (fits, some_read) at h) in
          (cc h', (is_empty_iff read).0 some_read, ground arith)),
      (λ (same, _, _). rw (fits, some_read) (cc same)),
    )
  ]
]

read_whole :
    (max : ℕ) (bytes : List ℕ)
    → max + 1 < 2 ^ 63
    → read_body (pos max) (whole bytes) ≡ sized max (take (suc max) bytes)
unfolding read_body read_limited
read_whole max bytes lt = rw (read_body, add_one_pos max lt) refl

read_broken :
    (max : ℕ) (bytes : List ℕ)
    → max + 1 < 2 ^ 63
    → read_body (pos max) (broken bytes) ≡ (
        if ltb (length bytes) (suc max)
        then refuse err_bad_request
        else sized max (take (suc max) bytes))
unfolding read_body read_limited
read_broken max bytes lt = elim (Bool-cases (ltb (length bytes) (suc max))) [
  | inl short ↦ rw (read_body, add_one_pos max lt) (rw short refl)
  | inr long ↦ rw (read_body, add_one_pos max lt) (rw long refl)
]

-- With a limit of at least zero whose successor is an int64, exactly the bodies that can be read whole,
-- are not empty and are not longer than the limit are taken, and they are taken whole.
pub read_body_iff :
    (max : ℕ) (b : Body) (bytes : List ℕ)
    → max + 1 < 2 ^ 63
    → (read_body (pos max) b ≡ answer bytes)
      ↔ ((b ≡ whole bytes) × (0 < length bytes) × (length bytes ≤ max))
read_body_iff max (whole all_bytes) bytes lt = (
  (λ h.
      let h' = (rw (read_whole max all_bytes lt) at h) in
      let (same, some_read, le) = (sized_iff max (take (suc max) all_bytes) bytes).0 h' in
      let full = take_short (suc max) all_bytes (ground arith) in
      let same' : all_bytes ≡ bytes = cc (same, full) in
      (ap whole same', ground arith, ground arith)),
  (λ (same, some_read, le).
      let same' : all_bytes ≡ bytes = cc same in
      let full = take_all (suc max) bytes (ground arith) in
      rw (same', read_whole max bytes lt, full)
        ((sized_iff max bytes bytes).1 (refl, some_read, le))),
)
read_body_iff max (broken some_bytes) bytes lt = (
  (λ h. elim (Bool-cases (ltb (length some_bytes) (suc max))) [
    | inl short ↦
        let h' = (rw (read_broken max some_bytes lt) at h) in let h'' = (rw short at h') in cc
    | inr long ↦
        let h' = (rw (read_broken max some_bytes lt) at h) in
        let h'' = (rw long at h') in
        let (same, some_read, le) = (sized_iff max (take (suc max) some_bytes) bytes).0 h'' in
        let cut = length-take (suc max) some_bytes in ground arith
  ]),
  (λ (same, _, _). cc same),
)
