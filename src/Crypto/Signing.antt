-- ===== src/Crypto/Signing.antt =====
-- src/crypto/signing.py: domain-separated Ed25519 signatures. PyNaCl and hashlib are parameters.
use blockchain_application.Prelude.{ℕ, ◌≡◌, String, Bool, true, false, Option, some, ◌++◌, All}
use blockchain_application.Crypto.Text.{Bytes, codes, decimal, hex, from_hex}
use blockchain_application.Crypto.Text.Hex.{IsByte, from_hex-hex}
use blockchain_application.Crypto.Encoding.{Json, canonical_bytes}

-- The third-party operations. A secret key stands for its 32-byte seed.
pub record Crypto : Type 0 where
  -- `hashlib.sha256(data).digest()`
  pub digest : Bytes → Bytes
  -- `SigningKey(seed).verify_key.encode()`
  pub public_key : Bytes → Bytes
  -- `SigningKey(seed).sign(msg).signature`
  pub sign_bytes : Bytes → Bytes → Bytes
  -- `VerifyKey(key).verify(msg, sig)`: false when one of the two calls raises
  pub verify_bytes : Bytes → Bytes → Bytes → Bool

-- The documented behaviour of PyNaCl that theorems rely on: keys and signatures are bytes, and a
-- signature verifies under the key that belongs to the seed.
pub record IsLawful (C : Crypto) : Type 0 where
  pub public_key-IsByte : (seed : Bytes) → All IsByte (C.public_key seed)
  pub sign_bytes-IsByte : (seed msg : Bytes) → All IsByte (C.sign_bytes seed msg)
  pub verify-sign :
      (seed msg : Bytes) → C.verify_bytes (C.public_key seed) msg (C.sign_bytes seed msg) ≡ true

-- The contexts, `f"TX:{CHAIN_ID}".encode()` and so on.
abbrev pub chain_id : String
chain_id = "lab01-devnet"

abbrev pub ctx_tx : Bytes
ctx_tx = codes "TX:lab01-devnet"

abbrev pub ctx_header : Bytes
ctx_header = codes "HEADER:lab01-devnet"

abbrev pub ctx_vote : Bytes
ctx_vote = codes "VOTE:lab01-devnet"

module _ (C : Crypto) where
  -- The seed bytes of `keypair_from_seed`; the verify key follows by `public_key`.
  unfoldable pub keypair_from_seed : ℕ → Bytes × Bytes
  unfolding decimal
  keypair_from_seed seed =
      let seed_bytes = C.digest (codes "lab01-validator-seed:" ++ decimal seed) in
      (seed_bytes, C.public_key seed_bytes)

  unfoldable pub pubkey_hex : Bytes → String
  unfolding hex
  pubkey_hex key = hex key

  unfoldable pub sign : Bytes → Bytes → Json → String
  unfolding hex canonical_bytes
  sign signing_key context payload =
      hex (C.sign_bytes signing_key (context ++ canonical_bytes payload))

  abbrev verify_parsed : Option Bytes → Bytes → Option Bytes → Bool
  verify_parsed (some key) msg (some sig) = C.verify_bytes key msg sig
  verify_parsed _ _ _ = false

  -- Every exception, that of a malformed key or signature too, is caught and means false.
  unfoldable pub verify : String → Bytes → Json → String → Bool
  unfolding from_hex canonical_bytes
  verify verify_key_hex context payload signature_hex =
      verify_parsed (from_hex verify_key_hex) (context ++ canonical_bytes payload)
        (from_hex signature_hex)

  -- For lawful cryptography, what a key signs verifies under its public key, in the same context.
  pub verify-sign_lem :
      IsLawful C
      → (seed context : Bytes) (payload : Json)
      → verify (pubkey_hex (C.public_key seed)) context payload (sign seed context payload) ≡ true
  unfolding verify pubkey_hex sign
  verify-sign_lem L seed context payload =
      let msg = context ++ canonical_bytes payload in
      rw
        (
          from_hex-hex (C.public_key seed) (L.public_key-IsByte seed),
          from_hex-hex (C.sign_bytes seed msg) (L.sign_bytes-IsByte seed msg),
        )
        (L.verify-sign seed msg)
