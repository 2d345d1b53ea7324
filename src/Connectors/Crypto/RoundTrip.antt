-- ===== src/Connectors/Crypto/RoundTrip.antt =====
-- Encrypting and decrypting with khazina/internal/crypto/aes.go.
use saftaja.Prelude.{
  String, ltb, false, ℕ, zero, suc, ◌≤◌, ◌≡◌, refl, [], ◌∷◌, ◌++◌, ap, length, some, arith,
}
use saftaja.Domain.{Bytes}
use saftaja.Env.{Env}
use saftaja.Exec.{World, ok, tick, pure, lift, read_nonce, ◌>>=◌}
use saftaja.Connectors.Crypto.{take, drop, encrypt, decrypt, encrypt_to_base64, decrypt_from_base64}

take-append : (n : ℕ) (xs ys : Bytes) → length xs ≡ n → take n (xs ++ ys) ≡ xs
take-append zero [] ys h = refl
take-append zero (x ∷ xs) ys h = absurd (omega (arith, h))
take-append (suc n) [] ys h = absurd (omega (arith, h))
take-append (suc n) (x ∷ xs) ys h = ap (λ zs. x ∷ zs) (take-append n xs ys (omega (arith, h)))

drop-append : (n : ℕ) (xs ys : Bytes) → length xs ≡ n → drop n (xs ++ ys) ≡ ys
drop-append zero [] ys h = refl
drop-append zero (x ∷ xs) ys h = absurd (omega (arith, h))
drop-append (suc n) [] ys h = absurd (omega (arith, h))
drop-append (suc n) (x ∷ xs) ys h = drop-append n xs ys (omega (arith, h))

ltb-length-append : (n : ℕ) (xs ys : Bytes) → length xs ≡ n → ltb (length (xs ++ ys)) n ≡ false
ltb-length-append n xs ys h = ground (arith, at_least xs ys)
  where
    at_least : (xs ys : Bytes) → length xs ≤ length (xs ++ ys)
    at_least [] ys = omega arith
    at_least (x ∷ xs) ys = omega (arith, at_least xs ys)

pub decrypt-sealed :
    (env : Env) (plaintext key nonce : Bytes)
    → length key ≡ 32
    → length nonce ≡ 12
    → env.gcm_open key nonce (env.gcm_seal key nonce plaintext) ≡ some plaintext
    → decrypt env (nonce ++ env.gcm_seal key nonce plaintext) key ≡ ok plaintext
unfolding decrypt
decrypt-sealed env plaintext key nonce k l opens =
    let text = env.gcm_seal key nonce plaintext in
    rw
      (
        k,
        ltb-length-append 12 nonce text l,
        take-append 12 nonce text l,
        drop-append 12 nonce text l,
        opens,
      )
      refl

-- Encrypting under a key of 32 bytes, with a nonce of 12 bytes at hand, gives a text that the same
-- key decrypts to the plaintext, as bytes and in base64, where AES-GCM opens and base64 decodes what
-- they have made of this plaintext.
pub encrypt-RoundTrip :
    (env : Env) (plaintext key nonce : Bytes) (w : World)
    → length key ≡ 32
    → env.nonce w.step ≡ some nonce
    → length nonce ≡ 12
    → env.gcm_open key nonce (env.gcm_seal key nonce plaintext) ≡ some plaintext
    → (let c = nonce ++ env.gcm_seal key nonce plaintext in
        env.base64_decode (env.base64_encode c) ≡ some c)
    → ((c : Bytes) × (encrypt env plaintext key w ≡ (ok c, tick w))
        × (decrypt env c key ≡ ok plaintext))
      × ((t : String) × (encrypt_to_base64 env plaintext key w ≡ (ok t, tick w))
          × (decrypt_from_base64 env t key ≡ ok plaintext))
unfolding encrypt decrypt encrypt_to_base64 decrypt_from_base64 read_nonce ◌>>=◌ lift pure
encrypt-RoundTrip env plaintext key nonce w k n l opens decodes =
    let sealed_text = env.gcm_seal key nonce plaintext in
    let back = decrypt-sealed env plaintext key nonce k l opens in
    (
      (nonce ++ sealed_text, rw (k, n) refl, back),
      (
        env.base64_encode (nonce ++ sealed_text),
        rw (k, n) refl,
        rw (decrypt_from_base64, decodes) back,
      ),
    )
