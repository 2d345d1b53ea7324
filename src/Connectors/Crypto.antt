-- ===== src/Connectors/Crypto.antt =====
-- khazina/internal/crypto/aes.go: AES-256-GCM. A key of 32 bytes is accepted by
-- `aes.NewCipher`, and `cipher.NewGCM` does not fail on it; its nonce has 12 bytes.
pub mod RoundTrip
use saftaja.Prelude.{
  ℕ, zero, suc, Option, none, some, [], ◌∷◌, ◌++◌, ◌==◌, ltb, not, length, String, if◌then◌else◌,
}
use saftaja.Domain.{Bytes}
use saftaja.Env.{Env}
use saftaja.Errors.{Error}
use saftaja.Exec.{Result, ok, err, Exec, pure, raise, lift, read_nonce, ◌>>=◌}

abbrev pub key_size : ℕ
key_size = 32

abbrev pub nonce_size : ℕ
nonce_size = 12

abbrev pub take : ℕ → Bytes → Bytes
take zero xs = []
take (suc n) [] = []
take (suc n) (x ∷ xs) = x ∷ take n xs

abbrev pub drop : ℕ → Bytes → Bytes
drop zero xs = xs
drop (suc n) [] = []
drop (suc n) (x ∷ xs) = drop n xs

abbrev pub opened : Option Bytes → Result Bytes
opened none = err (Error.plain "cipher: message authentication failed")
opened (some p) = ok p

unfoldable pub decrypt : Env → Bytes → Bytes → Result Bytes
decrypt env ciphertext key =
    if not (length key == key_size)
    then err (Error.plain "encryption key must be 32 bytes")
    else if ltb (length ciphertext) nonce_size
    then err (Error.plain "ciphertext too short")
    else opened (env.gcm_open key (take nonce_size ciphertext) (drop nonce_size ciphertext))

unfoldable pub decrypt_from_base64 : Env → String → Bytes → Result Bytes
decrypt_from_base64 env text key = elim (env.base64_decode text) [
  | none ↦ err (Error.plain "illegal base64 data")
  | some bytes ↦ decrypt env bytes key
]

abbrev pub sealed : Env → Bytes → Bytes → Option Bytes → Result Bytes
sealed env plaintext key none = err (Error.plain "rand")
sealed env plaintext key (some nonce) = ok (nonce ++ env.gcm_seal key nonce plaintext)

unfoldable pub encrypt : Env → Bytes → Bytes → Exec Bytes
encrypt env plaintext key =
    if not (length key == key_size)
    then raise (Error.plain "encryption key must be 32 bytes")
    else do nonce ← read_nonce env; lift (sealed env plaintext key nonce)

unfoldable pub encrypt_to_base64 : Env → Bytes → Bytes → Exec String
encrypt_to_base64 env plaintext key = do
  encrypted ← encrypt env plaintext key
  pure (env.base64_encode encrypted)
