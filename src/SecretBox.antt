-- ===== src/SecretBox.antt =====
-- internal/crypto/secretbox.go: the passwords of upstreams as they are stored. AES-256-GCM and
-- base64 are the libraries', in `Aead`; texts are bytes.
use tsa_proxy.Common.{
  ℕ, Bool, true, false, not, Option, none, some, List, [], ◌∷◌, ◌++◌, take, drop, length, ltb, ◌==◌,
  if◌then◌else◌,
}
use tsa_proxy.ApiError.{Result, ok, failed}
use tsa_proxy.Auth.{Bytes, has_prefix, trim_prefix}
pub mod RoundTrip

-- aes.NewCipher and cipher.NewGCM accept a key or not; Seal and Open are by key and nonce.
pub record Aead : Type 0 where
  pub accepts : Bytes → Bool
  pub nonce_size : ℕ
  pub seal : Bytes → Bytes → Bytes → Bytes
  pub open_sealed : Bytes → Bytes → Bytes → Option Bytes
  pub encode : Bytes → Bytes
  pub decode : Bytes → Option Bytes

-- "enc:v1:"
abbrev pub secret_prefix : Bytes
secret_prefix = 101 ∷ 110 ∷ 99 ∷ 58 ∷ 118 ∷ 49 ∷ 58 ∷ []

abbrev pub key_size : ℕ
key_size = 32

unfoldable pub sized_key : Bytes → Result (Option Bytes)
sized_key key = if not (length key == key_size) then failed else ok (some key)

-- No key is configured where the text is empty.
unfoldable pub parse_key : Aead → Bytes → Result (Option Bytes)
unfolding sized_key
parse_key A [] = ok none
parse_key A (c ∷ raw) = elim (A.decode (c ∷ raw)) [ none ↦ failed | some key ↦ sized_key key ]

-- `nonce` is what rand.Read draws, or none where it fails; the nonce stands before what is sealed.
unfoldable pub seal_with : Aead → Option Bytes → Bytes → Bytes → Result Bytes
seal_with A none plaintext key = failed
seal_with A (some nonce) plaintext key =
    ok (secret_prefix ++ A.encode (nonce ++ A.seal key nonce plaintext))

unfoldable pub encrypt : Aead → Option Bytes → Bytes → Option Bytes → Result Bytes
unfolding seal_with
encrypt A draw plaintext none = ok plaintext
encrypt A draw [] (some key) = ok []
encrypt A draw (c ∷ plaintext) (some key) =
    if not (A.accepts key) then failed else seal_with A draw (c ∷ plaintext) key

unfoldable pub open_with : Aead → Bytes → Bytes → Result Bytes
open_with A key raw =
    if ltb (length raw) A.nonce_size
    then failed
    else elim (A.open_sealed key (take A.nonce_size raw) (drop A.nonce_size raw)) [
      | none ↦ failed
      | some plaintext ↦ ok plaintext
    ]

unfoldable pub decrypt_encoded : Aead → Bytes → Bytes → Result Bytes
unfolding open_with
decrypt_encoded A encoded key = elim (A.decode encoded) [
  | none ↦ failed
  | some raw ↦ if not (A.accepts key) then failed else open_with A key raw
]

-- A text without the prefix was stored before there was a key.
unfoldable pub decrypt : Aead → Bytes → Option Bytes → Result Bytes
unfolding decrypt_encoded has_prefix trim_prefix
decrypt A value key = if not (has_prefix value secret_prefix) then ok value else elim key [
  | none ↦ failed
  | some key ↦ decrypt_encoded A (trim_prefix value secret_prefix) key
]
