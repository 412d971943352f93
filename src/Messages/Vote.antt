-- ===== src/Messages/Vote.antt =====
-- `Vote`, the phases and `NIL` of src/types/messages.py.
use blockchain_application.Prelude.{ℕ, ◌≡◌, String, Bool, true, false, Option, none, some, Eq}
use blockchain_application.Crypto.Text.{Bytes}
use blockchain_application.Crypto.Encoding.{Json, dict, str, int, field, end}
use blockchain_application.Crypto.Signing
use blockchain_application.Crypto.Signing.{Crypto, IsLawful, ctx_vote, pubkey_hex}

-- `PREVOTE` and `PRECOMMIT`
pub data Phase : Type 0 where
  prevote precommit : Phase

Phase-discrete : Discrete Phase
Phase-discrete = hlevel

instance unfoldable pub phase_eq : Eq Phase
unfolding Phase-discrete
phase_eq = record { dec = Phase-discrete }

abbrev pub phase_name : Phase → String
phase_name prevote = "prevote"
phase_name precommit = "precommit"

-- A vote for no block in this round.
abbrev pub nil : String
nil = "NIL"

pub record Vote : Type 0 where
  pub validator : String
  pub height : ℕ
  pub round : ℕ
  pub phase : Phase
  pub block_hash : String
  pub signature : Option String

unfoldable pub signing_payload : Vote → Json
signing_payload v = dict (
    field "validator" (str v.validator) (
      field "height" (int v.height) (
        field "round" (int v.round)
          (field "phase" (str (phase_name v.phase)) (field "block_hash" (str v.block_hash) end)))))

module _ (C : Crypto) where
  unfoldable pub sign : Bytes → Vote → Vote
  sign signing_key v = record v {
    signature = some (Signing.sign C signing_key ctx_vote (signing_payload v));
  }

  unfoldable pub verify : Vote → Bool
  verify v = elim v.signature [
    | none ↦ false
    | some signature ↦ Signing.verify C v.validator ctx_vote (signing_payload v) signature
  ]

  -- A vote that its validator's key has signed verifies.
  pub verify-sign :
      IsLawful C
      → (seed : Bytes) (v : Vote) → v.validator ≡ pubkey_hex C (C.public_key seed)
      → verify (sign seed v) ≡ true
  unfolding verify sign signing_payload
  verify-sign L seed v own = rw own (Signing.verify-sign_lem C L seed _ _)
