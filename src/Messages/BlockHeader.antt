-- ===== src/Messages/BlockHeader.antt =====
-- `BlockHeader` of src/types/messages.py.
use blockchain_application.Prelude.{ℕ, ◌≡◌, String, Bool, true, false, Option, none, some}
use blockchain_application.Crypto.Text.{Bytes}
use blockchain_application.Crypto.Encoding
use blockchain_application.Crypto.Encoding.{Json, dict, str, int, float, field, end}
use blockchain_application.Crypto.Signing
use blockchain_application.Crypto.Signing.{Crypto, IsLawful, ctx_header, pubkey_hex}

pub record BlockHeader : Type 0 where
  pub height : ℕ
  pub parent_hash : String
  pub proposer : String
  pub state_root : String
  pub tx_root : String
  -- a float, and always a whole number
  pub timestamp : ℕ
  pub signature : Option String

unfoldable pub signing_payload : BlockHeader → Json
signing_payload h = dict (
    field "height" (int h.height) (
      field "parent_hash" (str h.parent_hash) (
        field "proposer" (str h.proposer) (
          field "state_root" (str h.state_root)
            (field "tx_root" (str h.tx_root) (field "timestamp" (float h.timestamp) end))))))

module _ (C : Crypto) where
  unfoldable pub sign : Bytes → BlockHeader → BlockHeader
  sign signing_key h = record h {
    signature = some (Signing.sign C signing_key ctx_header (signing_payload h));
  }

  unfoldable pub verify : BlockHeader → Bool
  verify h = elim h.signature [
    | none ↦ false
    | some signature ↦ Signing.verify C h.proposer ctx_header (signing_payload h) signature
  ]

  unfoldable pub block_hash : BlockHeader → String
  block_hash h = Encoding.hash_obj C.digest (signing_payload h)

  -- A header that its proposer's key has signed verifies.
  pub verify-sign :
      IsLawful C
      → (seed : Bytes) (h : BlockHeader) → h.proposer ≡ pubkey_hex C (C.public_key seed)
      → verify (sign seed h) ≡ true
  unfolding verify sign signing_payload
  verify-sign L seed h own = rw own (Signing.verify-sign_lem C L seed _ _)
