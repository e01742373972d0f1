-- ===== src/Tenants.antt =====
-- internal/service/tenant/service.go: slugify. A text is its characters as code points, and
-- `lower` is strings.ToLower.
use tsa_proxy.Common.{
  ℕ, zero, suc, Bool, true, false, ◌&&◌, ◌||◌, List, [], ◌∷◌, length, leb, ◌==◌, if◌then◌else◌,
}
pub mod Slug
pub mod Lifecycle

abbrev pub dash : ℕ
dash = 45

unfoldable pub is_kept : ℕ → Bool
is_kept r = (leb 97 r && leb r 122) || ((leb 48 r && leb r 57) || (r == dash))

unfoldable pub is_separator : ℕ → Bool
is_separator r = (r == 32) || (r == 95)

-- strings.Map: a negative rune drops the character.
unfoldable pub map_runes : List ℕ → List ℕ
unfolding is_kept is_separator
map_runes [] = []
map_runes (r ∷ s) =
    let rest = map_runes s in
    if is_kept r then r ∷ rest else if is_separator r then dash ∷ rest else rest

unfoldable pub has_double : List ℕ → Bool
has_double [] = false
has_double (a ∷ []) = false
has_double (a ∷ b ∷ s) = (a == dash && (b == dash)) || has_double (b ∷ s)

-- One pass of strings.ReplaceAll from the left, without overlaps.
unfoldable pub replace_double : List ℕ → List ℕ
replace_double [] = []
replace_double (a ∷ []) = a ∷ []
replace_double (a ∷ b ∷ s) =
    let both = replace_double s in
    let one = replace_double (b ∷ s) in if a == dash && (b == dash) then dash ∷ both else a ∷ one

-- The loop: a pass shortens the text, so that its length is fuel enough.
unfoldable pub collapse : ℕ → List ℕ → List ℕ
unfolding has_double replace_double
collapse zero s = s
collapse (suc n) s = let rest = collapse n (replace_double s) in if has_double s then rest else s

unfoldable pub trim_left : List ℕ → List ℕ
trim_left [] = []
trim_left (a ∷ s) = let rest = trim_left s in if a == dash then rest else a ∷ s

unfoldable pub keep_last : ℕ → List ℕ → List ℕ
keep_last a [] = if a == dash then [] else a ∷ []
keep_last a (b ∷ s) = a ∷ b ∷ s

unfoldable pub trim_right : List ℕ → List ℕ
unfolding keep_last
trim_right [] = []
trim_right (a ∷ s) = keep_last a (trim_right s)

unfoldable pub collapsed : List ℕ → List ℕ
unfolding collapse
collapsed s = collapse (length s) s

unfoldable pub slugify : (List ℕ → List ℕ) → List ℕ → List ℕ
unfolding map_runes collapsed trim_left trim_right
slugify lower name = trim_right (trim_left (collapsed (map_runes (lower name))))
