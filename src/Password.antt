-- ===== src/Password.antt =====
-- internal/service/auth/service.go: HashPassword, verifyArgon2id and splitLast, on texts as bytes.
-- The key derivation of x/crypto and the encoding of encoding/base64 stand in `Argon`. `fmt.Sscanf`
-- is modelled for the directives of the one format that is read: %d into a uint32 or a uint8, and
-- %s.
use tsa_proxy.Common.{
  ℕ, zero, suc, ◌+◌, ◌-◌, ◌*◌, ◌/◌, ◌%◌, ◌^◌, Bool, true, false, not, ◌&&◌, ◌||◌, Option, none,
  some, List, [], ◌∷◌, ◌++◌, length, ltb, leb, ◌==◌, if◌then◌else◌,
}
use tsa_proxy.ApiError.{Result, ok, failed}
use tsa_proxy.Auth.{Bytes}
pub mod Compare
pub mod Scan

-- argon2.IDKey by password, salt, iterations, memory, parallelism and length; base64.RawStdEncoding.
pub record Argon : Type 0 where
  pub id_key : Bytes → Bytes → ℕ → ℕ → ℕ → ℕ → Bytes
  pub encode : Bytes → Bytes
  pub decode : Bytes → Option Bytes

abbrev pub argon_memory : ℕ
argon_memory = 65536

abbrev pub argon_iterations : ℕ
argon_iterations = 3

abbrev pub argon_parallelism : ℕ
argon_parallelism = 4

abbrev pub argon_key_len : ℕ
argon_key_len = 32

-- "$argon2id$v=19$m=", ",t=" and ",p="
abbrev pub memory_mark : Bytes
memory_mark =
    36 ∷ 97 ∷ 114 ∷ 103 ∷ 111 ∷ 110 ∷ 50 ∷ 105 ∷ 100 ∷ 36 ∷ 118 ∷ 61 ∷ 49 ∷ 57 ∷ 36 ∷ 109 ∷ 61 ∷ []

abbrev pub iterations_mark : Bytes
iterations_mark = 44 ∷ 116 ∷ 61 ∷ []

abbrev pub parallelism_mark : Bytes
parallelism_mark = 44 ∷ 112 ∷ 61 ∷ []

-- The decimal digits of the three constants: "65536", "3" and "4".
abbrev pub memory_text : Bytes
memory_text = 54 ∷ 53 ∷ 53 ∷ 51 ∷ 54 ∷ []

abbrev pub iterations_text : Bytes
iterations_text = 51 ∷ []

abbrev pub parallelism_text : Bytes
parallelism_text = 52 ∷ []

abbrev pub parameters_text : Bytes
parameters_text =
    memory_mark
    ++ memory_text
    ++ iterations_mark
    ++ iterations_text
    ++ parallelism_mark
    ++ parallelism_text
    ++ (36 ∷ [])

-- `salt` is what rand.Read draws, or none where it fails.
unfoldable pub hash_password : Argon → Option Bytes → Bytes → Result Bytes
hash_password A none password = failed
hash_password A (some salt) password =
    let hash =
      A.id_key password salt argon_iterations argon_memory argon_parallelism argon_key_len in
    ok (parameters_text ++ (A.encode salt ++ (36 ∷ A.encode hash)))

-- The spaces that Sscanf skips, all in ASCII; a line break ends a scan.
unfoldable pub is_blank : ℕ → Bool
is_blank c = ((c == 32) || (c == 9)) || (leb 11 c && leb c 13)

unfoldable pub is_space : ℕ → Bool
unfolding is_blank
is_space c = is_blank c || (c == 10)

unfoldable pub skip_space : Bytes → Bytes
unfolding is_blank
skip_space [] = []
skip_space (c ∷ s) = let rest = skip_space s in if is_blank c then rest else c ∷ s

-- A literal of the format.
unfoldable pub expect : Bytes → Bytes → Option Bytes
expect [] s = some s
expect (p ∷ ps) [] = none
expect (p ∷ ps) (c ∷ s) = let rest = expect ps s in if c == p then rest else none

unfoldable pub is_digit : ℕ → Bool
is_digit c = leb 48 c && leb c 57

-- The value read so far, and the rest from the first byte that is no digit.
unfoldable pub scan_digits : ℕ → Bytes → ℕ × Bytes
unfolding is_digit
scan_digits n [] = (n, [])
scan_digits n (c ∷ s) =
    let rest = scan_digits (n * 10 + (c - 48)) s in if is_digit c then rest else (n, c ∷ s)

-- A value that the w bits of the variable do not hold is an error.
unfoldable pub within : ℕ → ℕ × Bytes → Option (ℕ × Bytes)
within w (n, s) = if ltb n (2 ^ w) then some (n, s) else none

unfoldable pub scan_first : ℕ → Bytes → Option (ℕ × Bytes)
unfolding is_digit scan_digits within
scan_first w [] = none
scan_first w (c ∷ s) = if is_digit c then within w (scan_digits (c - 48) s) else none

unfoldable pub scan_uint : ℕ → Bytes → Option (ℕ × Bytes)
unfolding skip_space scan_first
scan_uint w s = scan_first w (skip_space s)

-- Up to the next space or line break.
unfoldable pub scan_token : Bytes → Bytes
unfolding is_space
scan_token [] = []
scan_token (c ∷ s) = let rest = scan_token s in if is_space c then [] else c ∷ rest

unfoldable pub some_token : Bytes → Option Bytes
unfolding is_space scan_token
some_token [] = none
some_token (c ∷ s) = if is_space c then none else some (scan_token (c ∷ s))

unfoldable pub scan_text : Bytes → Option Bytes
unfolding skip_space some_token
scan_text s = some_token (skip_space s)

pub record Parameters : Type 0 where
  pub memory : ℕ
  pub iterations : ℕ
  pub parallelism : ℕ
  pub rest : Bytes

-- The reads in order: each step is given what the one before it left.
unfoldable pub scan_rest : ℕ → ℕ → ℕ → Bytes → Option Parameters
unfolding expect scan_text
scan_rest m t p s = elim (expect (36 ∷ []) s) [
  | none ↦ none
  | some s ↦ elim (scan_text s) [
    | none ↦ none
    | some rest ↦ some (record { memory = m; iterations = t; parallelism = p; rest = rest })
  ]
]

unfoldable pub scan_parallelism : ℕ → ℕ → Bytes → Option Parameters
unfolding expect scan_uint scan_rest
scan_parallelism m t s = elim (expect parallelism_mark s) [
  | none ↦ none
  | some s ↦ elim (scan_uint 8 s) [ none ↦ none | some (p, s) ↦ scan_rest m t p s ]
]

unfoldable pub scan_iterations : ℕ → Bytes → Option Parameters
unfolding expect scan_uint scan_parallelism
scan_iterations m s = elim (expect iterations_mark s) [
  | none ↦ none
  | some s ↦ elim (scan_uint 32 s) [ none ↦ none | some (t, s) ↦ scan_parallelism m t s ]
]

unfoldable pub scan_hash : Bytes → Option Parameters
unfolding expect scan_uint scan_iterations
scan_hash s = elim (expect memory_mark s) [
  | none ↦ none
  | some s ↦ elim (scan_uint 32 s) [ none ↦ none | some (m, s) ↦ scan_iterations m s ]
]

-- The parts before and after the last "$"; none where there is one part only.
unfoldable pub split_last : Bytes → Option (Bytes × Bytes)
split_last [] = none
split_last (c ∷ s) =
    let rest = split_last s in
    elim rest [
      | some (before, after) ↦ some (c ∷ before, after)
      | none ↦ if c == 36 then some ([], s) else none
    ]

-- Bitwise "or" and "exclusive or" of the w lowest bits.
unfoldable pub bor : ℕ → ℕ → ℕ → ℕ
bor zero a b = 0
bor (suc w) a b = (if (a % 2) + (b % 2) == 0 then 0 else 1) + 2 * bor w (a / 2) (b / 2)

unfoldable pub bxor : ℕ → ℕ → ℕ → ℕ
bxor zero a b = 0
bxor (suc w) a b = (if a % 2 == b % 2 then 0 else 1) + 2 * bxor w (a / 2) (b / 2)

-- The loop over the derived key; an expected key that ends first cannot occur after the lengths
-- were compared.
unfoldable pub fold_diff : ℕ → Bytes → Bytes → ℕ
unfolding bor bxor
fold_diff diff [] expected = diff
fold_diff diff (a ∷ actual) [] = diff
fold_diff diff (a ∷ actual) (e ∷ expected) = fold_diff (bor 8 diff (bxor 8 a e)) actual expected

unfoldable pub same_key : Bytes → Bytes → Bool
unfolding fold_diff
same_key actual expected =
    if not (length actual == length expected) then false else fold_diff 0 actual expected == 0

unfoldable pub verify_parts : Argon → Parameters → Bytes → Bytes → Bytes → Bool
unfolding same_key
verify_parts A p salt_text hash_text password = elim (A.decode salt_text) [
  | none ↦ false
  | some salt ↦ elim (A.decode hash_text) [
    | none ↦ false
    | some expected ↦
        same_key
          (A.id_key password salt p.iterations p.memory p.parallelism (length expected % 2 ^ 32))
          expected
  ]
]

unfoldable pub verify_argon2id : Argon → Bytes → Bytes → Bool
unfolding scan_hash split_last verify_parts
verify_argon2id A hash password = elim (scan_hash hash) [
  | none ↦ false
  | some p ↦ elim (split_last p.rest) [
    | none ↦ false
    | some (salt_text, hash_text) ↦ verify_parts A p salt_text hash_text password
  ]
]
