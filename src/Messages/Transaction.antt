-- ===== src/Messages/Transaction.antt =====
-- `Transaction` of src/types/messages.py.
use blockchain_application.Prelude.{ℕ, String, Bool, false, Option, none, some, Eq, string_discrete}
use blockchain_application.Crypto.Text.{Bytes}
use blockchain_application.Crypto.Encoding
use blockchain_application.Crypto.Encoding.{Json, dict, str, int, field, end}
use blockchain_application.Crypto.Signing
use blockchain_application.Crypto.Signing.{Crypto, ctx_tx}
use native.Mathlib.Decide.{ℕ_discrete}

pub record Transaction : Type 0 where
  pub sender : String
  pub key : String
  pub value : String
  pub nonce : ℕ
  pub signature : Option String

-- The `==` of the dataclass, on all five fields.
Transaction-discrete : Discrete Transaction
Transaction-discrete = hlevel (ℕ_discrete, string_discrete)

instance unfoldable pub transaction_eq : Eq Transaction
unfolding Transaction-discrete
transaction_eq = record { dec = Transaction-discrete }

unfoldable pub signing_payload : Transaction → Json
signing_payload t = dict (
    field "sender" (str t.sender)
      (field "key" (str t.key) (field "value" (str t.value) (field "nonce" (int t.nonce) end))))

module _ (C : Crypto) where
  unfoldable pub sign : Bytes → Transaction → Transaction
  sign signing_key t = record t {
    signature = some (Signing.sign C signing_key ctx_tx (signing_payload t));
  }

  -- The ownership test in the method has no effect: both of its outcomes go on to `verify`.
  unfoldable pub verify : Transaction → Bool
  verify t = elim t.signature [
    | none ↦ false
    | some signature ↦ Signing.verify C t.sender ctx_tx (signing_payload t) signature
  ]

  unfoldable pub tx_hash : Transaction → String
  tx_hash t = Encoding.hash_obj C.digest (signing_payload t)
