-- ===== src/Tests/Toy.antt =====
-- A toy instance of the cryptography of src/crypto/signing.py: checksums in place of SHA-256 and of
-- Ed25519.
use blockchain_application.Prelude.{
  ℕ, ◌+◌, ◌*◌, ◌%◌, ◌≡◌, refl, Bool, true, false, ◌&&◌, [], ◌∷◌, ◌++◌, map, arith, ◌==◌, nat_eq,
  All,
}
use blockchain_application.Crypto.Text.{Bytes}
use blockchain_application.Crypto.Text.Hex.{IsByte}
use blockchain_application.Crypto.Signing.{Crypto, IsLawful}

weight : Bytes → ℕ
weight [] = 7
weight (b ∷ bs) = (31 * weight bs + b) % 65521

checksum : Bytes → Bytes
checksum bs = weight bs % 256 ∷ weight bs * 3 % 251 ∷ []

same_bytes : Bytes → Bytes → Bool
unfolding nat_eq
same_bytes [] [] = true
same_bytes (a ∷ xs) (b ∷ bs) = (a == b) && same_bytes xs bs
same_bytes _ _ = false

same_bytes_refl : (bs : Bytes) → same_bytes bs bs ≡ true
unfolding same_bytes
same_bytes_refl [] = refl
same_bytes_refl (b ∷ bs) = ground (arith, same_bytes_refl bs)

unfoldable pub toy : Crypto
unfolding checksum weight same_bytes
toy = record {
  digest = checksum;
  public_key = λ seed. map (λ b. b % 256) seed;
  sign_bytes = λ seed msg. checksum (map (λ b. b % 256) seed ++ msg);
  verify_bytes = λ key msg sig. same_bytes sig (checksum (key ++ msg));
}

bytes_of : (bs : Bytes) → All IsByte (map (λ b. b % 256) bs)
bytes_of [] = tt
bytes_of (b ∷ bs) = (omega arith, bytes_of bs)

checksum-IsByte : (bs : Bytes) → All IsByte (checksum bs)
unfolding checksum
checksum-IsByte bs = (omega arith, (omega arith, tt))

pub toy-IsLawful : IsLawful toy
unfolding toy
toy-IsLawful = record {
  public_key-IsByte = λ seed. bytes_of seed;
  sign_bytes-IsByte = λ seed msg. checksum-IsByte (map (λ b. b % 256) seed ++ msg);
  verify-sign = λ seed msg. same_bytes_refl (checksum (map (λ b. b % 256) seed ++ msg));
}
