-- ===== src/Tenants/Slug.antt =====
-- What a slug made of a name looks like.
use tsa_proxy.Common.{
  ℕ, zero, suc, ◌≤◌, ◌<◌, ◌≡◌, refl, Bool, true, false, ◌&&◌, List, [], ◌∷◌, length, ◌==◌, if-holds,
  Bool-cases, inl, inr, All, arith,
}
use tsa_proxy.Tenants.{
  dash, is_kept, is_separator, map_runes, has_double, replace_double, collapse, collapsed,
  trim_left, keep_last, trim_right, slugify,
}

abbrev AreKept : List ℕ → Type 0
AreKept = All (λ r. is_kept r ≡ true)

dash_kept : is_kept dash ≡ true
unfolding is_kept
dash_kept = refl

map_runes-kept : (s : List ℕ) → AreKept (map_runes s)
unfolding map_runes
map_runes-kept [] = tt
map_runes-kept (r ∷ s) = elim (Bool-cases (is_kept r)) [
  | inl k ↦ simp k (refl, map_runes-kept s)
  | inr k ↦ elim (Bool-cases (is_separator r)) [
    | inl p ↦ simp (k, p) (dash_kept, map_runes-kept s)
    | inr p ↦ simp (k, p) (map_runes-kept s)
  ]
]

-- A pass shortens a text that has two dashes in a row, and never lengthens one.
replace_double-le : (s : List ℕ) → length (replace_double s) ≤ length s
unfolding replace_double
replace_double-le [] = omega arith
replace_double-le (a ∷ []) = omega arith
replace_double-le (a ∷ b ∷ s) =
    let both = replace_double-le s in
    let one = replace_double-le (b ∷ s) in ground (arith, both, one)

replace_double-lt : (s : List ℕ) → has_double s ≡ true → length (replace_double s) < length s
unfolding replace_double has_double
replace_double-lt [] h = cc
replace_double-lt (a ∷ []) h = cc
replace_double-lt (a ∷ b ∷ s) h = elim (Bool-cases (a == dash && (b == dash))) [
  | inl e ↦ let both = replace_double-le s in simp e (omega (arith, both))
  | inr e ↦
      let h' : has_double (b ∷ s) ≡ true = (simp e at h) in
      let one = replace_double-lt (b ∷ s) h' in simp e (omega (arith, one))
]

replace_double-kept : (s : List ℕ) → AreKept s → AreKept (replace_double s)
unfolding replace_double
replace_double-kept [] k = k
replace_double-kept (a ∷ []) k = k
replace_double-kept (a ∷ b ∷ s) k =
    if-holds AreKept (a == dash && (b == dash)) _ _ (dash_kept, replace_double-kept s k.1.1)
      (k.0, replace_double-kept (b ∷ s) k.1)

collapse-kept : (n : ℕ) (s : List ℕ) → AreKept s → AreKept (collapse n s)
unfolding collapse
collapse-kept zero s k = k
collapse-kept (suc n) s k =
    if-holds AreKept (has_double s) _ _
      (collapse-kept n (replace_double s) (replace_double-kept s k)) k

-- With its length as fuel the loop ends for its condition, not for want of fuel.
collapse_done : (n : ℕ) (s : List ℕ) → length s ≤ n → has_double (collapse n s) ≡ false
unfolding collapse
collapse_done zero [] l = refl
collapse_done zero (a ∷ s) l = absurd (omega (arith, l))
collapse_done (suc n) s l = elim (Bool-cases (has_double s)) [
  | inl d ↦
      let shorter = replace_double-lt s d in
      simp d (collapse_done n (replace_double s) (omega (arith, shorter, l)))
  | inr d ↦ simp d refl
]

tail_single : (a : ℕ) (s : List ℕ) → has_double (a ∷ s) ≡ false → has_double s ≡ false
unfolding has_double
tail_single a [] h = refl
tail_single a (b ∷ s) h = ground (arith, h)

trim_left-single : (s : List ℕ) → has_double s ≡ false → has_double (trim_left s) ≡ false
unfolding trim_left
trim_left-single [] h = h
trim_left-single (a ∷ s) h =
    if-holds (λ t. has_double t ≡ false) (a == dash) _ _ (trim_left-single s (tail_single a s h)) h

trim_left-kept : (s : List ℕ) → AreKept s → AreKept (trim_left s)
unfolding trim_left
trim_left-kept [] k = k
trim_left-kept (a ∷ s) k = if-holds AreKept (a == dash) _ _ (trim_left-kept s k.1) k

keep_last-kept : (a : ℕ) (t : List ℕ) → is_kept a ≡ true → AreKept t → AreKept (keep_last a t)
unfolding keep_last
keep_last-kept a [] k ks = if-holds AreKept (a == dash) _ _ tt (k, tt)
keep_last-kept a (b ∷ t) k ks = (k, ks)

trim_right-kept : (s : List ℕ) → AreKept s → AreKept (trim_right s)
unfolding trim_right
trim_right-kept [] k = k
trim_right-kept (a ∷ s) k = keep_last-kept a (trim_right s) k.0 (trim_right-kept s k.1)

keep_last-single : (a : ℕ) → has_double (keep_last a []) ≡ false
unfolding keep_last has_double
keep_last-single a = if-holds (λ t. has_double t ≡ false) (a == dash) _ _ refl refl

keep_two :
    (a b : ℕ) (u : List ℕ)
    → (a == dash && (b == dash)) ≡ false
    → has_double (keep_last b u) ≡ false
    → has_double (keep_last a (keep_last b u)) ≡ false
unfolding keep_last has_double
keep_two a b [] h k = elim (Bool-cases (b == dash)) [
  | inl e ↦ simp e (keep_last-single a)
  | inr e ↦ simp e (ground arith)
]
keep_two a b (c ∷ u) h k = rw (h, k) refl

trim_right-single : (s : List ℕ) → has_double s ≡ false → has_double (trim_right s) ≡ false
unfolding trim_right has_double
trim_right-single [] h = refl
trim_right-single (a ∷ []) h = keep_last-single a
trim_right-single (a ∷ b ∷ s) h =
    let rest = trim_right-single (b ∷ s) (tail_single a (b ∷ s) h) in
    let pair : (a == dash && (b == dash)) ≡ false = (ground (arith, h)) in
    keep_two a b (trim_right s) pair rest

abbrev pub starts_with_dash : List ℕ → Bool
starts_with_dash [] = false
starts_with_dash (a ∷ s) = a == dash

abbrev pub ends_with_dash : List ℕ → Bool
ends_with_dash [] = false
ends_with_dash (a ∷ []) = a == dash
ends_with_dash (a ∷ b ∷ s) = ends_with_dash (b ∷ s)

trim_left-start : (s : List ℕ) → starts_with_dash (trim_left s) ≡ false
unfolding trim_left
trim_left-start [] = refl
trim_left-start (a ∷ s) = elim (Bool-cases (a == dash)) [
  | inl e ↦ simp e (trim_left-start s)
  | inr e ↦ simp e refl
]

keep_last-start :
    (a : ℕ) (t : List ℕ) → (a == dash) ≡ false → starts_with_dash (keep_last a t) ≡ false
unfolding keep_last
keep_last-start a [] h = simp h refl
keep_last-start a (b ∷ t) h = h

trim_right-start :
    (s : List ℕ) → starts_with_dash s ≡ false → starts_with_dash (trim_right s) ≡ false
unfolding trim_right
trim_right-start [] h = refl
trim_right-start (a ∷ s) h = keep_last-start a (trim_right s) h

keep_last-end :
    (a : ℕ) (t : List ℕ) → ends_with_dash t ≡ false → ends_with_dash (keep_last a t) ≡ false
unfolding keep_last
keep_last-end a [] h = elim (Bool-cases (a == dash)) [ inl e ↦ simp e refl | inr e ↦ simp e refl ]
keep_last-end a (b ∷ t) h = h

trim_right-end : (s : List ℕ) → ends_with_dash (trim_right s) ≡ false
unfolding trim_right
trim_right-end [] = refl
trim_right-end (a ∷ s) = keep_last-end a (trim_right s) (trim_right-end s)

-- Lower-case letters, digits and single dashes that stand between others.
pub record IsSlug (s : List ℕ) : Type 0 where
  pub kept : All (λ r. is_kept r ≡ true) s
  pub single : has_double s ≡ false
  pub start : starts_with_dash s ≡ false
  pub end_ : ends_with_dash s ≡ false

-- The slug of any name, whatever strings.ToLower makes of it: the loop over its dashes ends because
-- none is doubled any more, and the result has lower-case letters, digits and dashes only, no two
-- dashes in a row and none at either end.
pub slugify-IsSlug : (lower : List ℕ → List ℕ) (name : List ℕ) → IsSlug (slugify lower name)
unfolding slugify collapsed
slugify-IsSlug lower name =
    let mapped = map_runes (lower name) in
    let short = collapse (length mapped) mapped in
    let kept = collapse-kept (length mapped) mapped (map_runes-kept (lower name)) in
    let done = collapse_done (length mapped) mapped (omega arith) in
    record {
      kept = trim_right-kept (trim_left short) (trim_left-kept short kept);
      single = trim_right-single (trim_left short) (trim_left-single short done);
      start = trim_right-start (trim_left short) (trim_left-start short);
      end_ = trim_right-end (trim_left short);
    }
