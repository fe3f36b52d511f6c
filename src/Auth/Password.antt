-- ===== src/Auth/Password.antt =====
-- `hashPassword` and `verifyPassword` of src/core/auth.cpp. `scrypt`, the random bytes and the
-- comparison in constant time are OpenSSL's and stand as parameters.
use mbsquad.Prelude.{
  ◌≡◌, ◌↔◌, refl, ap, [], ◌∷◌, ◌++◌, Bool, true, false, Option, none, some, arith, ◌==◌,
  if◌then◌else◌, length,
}
use mathlib.Core.Option.{some-injective}
use mbsquad.Prelude.Bytes.{Bytes, AllBytes, split_at, split_at-append}
use mbsquad.Auth.Hex.{hex_encode, hex_encode_injective, hex_encode-Lacks, length-hex_encode}

-- What the code relies on: `EVP_PBE_scrypt` fills the buffer of 64 bytes or fails, and
-- `CRYPTO_memcmp` is 0 for equal texts of one length and for no others.
pub record Crypto : Type 0 where
  pub scrypt : Bytes → Bytes → Option Bytes
  pub scrypt_bytes : (pw salt hash : Bytes) → scrypt pw salt ≡ some hash → AllBytes hash
  pub scrypt_length : (pw salt hash : Bytes) → scrypt pw salt ≡ some hash → length hash ≡ 64
  pub same : Bytes → Bytes → Bool
  pub same_iff : (a b : Bytes) → length a ≡ length b → (same a b ≡ true) ↔ (a ≡ b)

module _ (crypto : Crypto) where
  open crypto use {scrypt, scrypt_bytes, scrypt_length, same, same_iff}

  join_hash : Bytes → Option Bytes → Bytes
  join_hash salt none = []
  join_hash salt (some hash) = salt ++ (b':' ∷ hex_encode hash)

  -- The 16 bytes of the salt are the argument; a failure of `scrypt` gives the empty text.
  pub hash_password : Bytes → Bytes → Bytes
  hash_password random pw = let salt = hex_encode random in join_hash salt (scrypt pw salt)

  compare_hash : Bytes → Option Bytes → Bool
  compare_hash expected none = false
  compare_hash expected (some hash) =
      let actual = hex_encode hash in
      if length actual == length expected then same actual expected else false

  check_parts : Bytes → Option (Bytes × Bytes) → Bool
  check_parts pw none = false
  check_parts pw (some (salt, expected)) = compare_hash expected (scrypt pw salt)

  pub verify_password : Bytes → Bytes → Bool
  verify_password pw stored = check_parts pw (split_at b':' stored)

  compare_hash-hex_encode :
      (hash : Bytes) (r : Option Bytes)
      → AllBytes hash
      → length hash ≡ 64
      → ((h : Bytes) → r ≡ some h → AllBytes h × (length h ≡ 64))
      → (compare_hash (hex_encode hash) r ≡ true) ↔ (r ≡ some hash)
  unfolding compare_hash
  compare_hash-hex_encode hash none bytes len good = (λ e. cc, λ e. cc)
  compare_hash-hex_encode hash (some h) bytes len good =
      let (bytes', len') = good h refl in
      let same_length : length (hex_encode h) ≡ length (hex_encode hash) =
        omega (arith, length-hex_encode h, length-hex_encode hash) in
      let tested : (length (hex_encode h) == length (hex_encode hash)) ≡ true = ground arith in
      let iff = same_iff (hex_encode h) (hex_encode hash) same_length in
      rw tested (
        (λ e. ap some (hex_encode_injective h hash bytes' bytes (iff.0 e))),
        (λ e. iff.1 (ap hex_encode (some-injective h hash e))),
      )

  -- With the text that `hashPassword` stored, `verifyPassword` accepts the passwords that `scrypt`
  -- takes to the same hash under the same salt, and no others.
  pub verify_password-hash_password :
      (random pw pw' hash : Bytes)
      → AllBytes random
      → scrypt pw (hex_encode random) ≡ some hash
      → (verify_password pw' (hash_password random pw) ≡ true)
        ↔ (scrypt pw' (hex_encode random) ≡ some hash)
  unfolding verify_password hash_password check_parts join_hash
  verify_password-hash_password random pw pw' hash bytes e =
      let salt = hex_encode random in
      rw (e, join_hash)
        (rw
          (split_at-append b':' salt (hex_encode hash) (hex_encode-Lacks random bytes), check_parts)
          (compare_hash-hex_encode hash (scrypt pw' salt) (scrypt_bytes pw salt hash e)
            (scrypt_length pw salt hash e)
            (λ h e'. (scrypt_bytes pw' salt h e', scrypt_length pw' salt h e'))))
