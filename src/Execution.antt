-- ===== src/Execution.antt =====
-- src/execution/state.py: the key-value state, and the transition that a transaction makes.
pub mod Ownership
pub mod Replay
pub mod Root
use Prim.Native.Char.{Char, code}
use blockchain_application.Prelude.{
  ℕ, ◌≡◌, String, Bool, true, false, ◌&&◌, not, ◌||◌, List, [], ◌∷◌, ◌++◌, map, if◌then◌else◌, ◌==◌,
  contains, string_eq, nat_eq,
}
use blockchain_application.Prelude.Dict
use blockchain_application.Prelude.Dict.{Dict}
use blockchain_application.Crypto.Encoding
use blockchain_application.Crypto.Encoding.{list, dict, to_items, to_fields}
use blockchain_application.Crypto.Signing.{Crypto}
use blockchain_application.Messages.Transaction
use blockchain_application.Messages.Transaction.{Transaction}

-- A set of nonces is a list with no repetition.
pub record State : Type 0 where
  pub entries : Dict String String  -- `data`
  pub seen_nonces : Dict String (List ℕ)

-- `State()`
abbrev pub empty : State
empty = record { entries = []; seen_nonces = [] }

-- The part of `key.partition("/")` before the first slash.
unfoldable pub owner : String → String
unfolding nat_eq
owner String.[] = String.[]
owner (String.◌∷◌ c s) =
    let rest = owner s in if code c == b'/' then String.[] else String.◌∷◌ c rest

-- Whether `partition` finds a separator.
unfoldable pub has_separator : String → Bool
unfolding nat_eq
has_separator String.[] = false
has_separator (String.◌∷◌ c s) = code c == b'/' || has_separator s

-- `set.add`
unfoldable pub add_nonce : ℕ → List ℕ → List ℕ
add_nonce n ns = if contains ns n then ns else n ∷ ns

-- `tx.nonce in self.seen_nonces.get(tx.sender, set())`
unfoldable pub has_seen : State → String → ℕ → Bool
has_seen s sender nonce = contains (Dict.get_or sender [] s.seen_nonces) nonce

module _ (C : Crypto) where
  unfoldable pub state_root : State → String
  state_root s = Encoding.hash_obj C.digest (dict (to_fields s.entries))

  unfoldable pub can_apply : State → Transaction → Bool
  can_apply s tx =
      if not (Transaction.verify C tx)
      then false
      else if not (has_separator tx.key) || not (owner tx.key == tx.sender)
      then false
      else if has_seen s tx.sender tx.nonce
      then false
      else true

  -- The state after the call, and the result.
  unfoldable pub apply : State → Transaction → State × Bool
  apply s tx = if not (can_apply s tx) then (s, false) else (
    record {
      entries = Dict.insert tx.key tx.value s.entries;
      seen_nonces =
          Dict.insert tx.sender (add_nonce tx.nonce (Dict.get_or tx.sender [] s.seen_nonces))
            s.seen_nonces;
    },
    true,
  )

  -- `for tx in transactions: state.apply(tx)`
  unfoldable pub apply_each : State → List Transaction → State
  apply_each s [] = s
  apply_each s (tx ∷ txs) = apply_each (apply s tx).0 txs

  -- The clone is a copy, and the model's states are values.
  unfoldable pub apply_all : State → List Transaction → State
  apply_all s txs = apply_each s txs

  unfoldable pub tx_root : List Transaction → String
  tx_root txs = Encoding.hash_obj C.digest (list (to_items (map (Transaction.tx_hash C) txs)))
