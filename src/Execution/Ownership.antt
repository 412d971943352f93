-- ===== src/Execution/Ownership.antt =====
-- A transaction writes only what its sender owns.
use blockchain_application.Prelude.{
  ◌≡◌, refl, ◌∙◌, ◌⊎◌, inl, inr, String, true, some, List, [], ◌∷◌, arith, string_eq, In,
}
use blockchain_application.Prelude.Dict
use blockchain_application.Prelude.Dict.{lookup-insert}
use blockchain_application.Crypto.Signing.{Crypto}
use blockchain_application.Messages.Transaction
use blockchain_application.Messages.Transaction.{Transaction}
use blockchain_application.Execution.{State, owner, can_apply, apply, apply_each, apply_all}

module _ (C : Crypto) where
  -- One transaction leaves a key alone, or is authentic, owns the key and sets it to its value.
  apply-entries :
      (s : State) (tx : Transaction) (k : String)
      → (Dict.lookup k (apply C s tx).0.entries ≡ Dict.lookup k s.entries)
        ⊎ ((Transaction.verify C tx ≡ true)
            × (tx.key ≡ k)
            × (tx.sender ≡ owner k)
            × (Dict.lookup k (apply C s tx).0.entries ≡ some tx.value))
  unfolding apply can_apply
  apply-entries s tx k = ground (arith, lookup-insert k tx.key tx.value s.entries)

  -- What a batch may do to the key `k`: nothing, or what one of its transactions asks for.
  abbrev pub Written : State → List Transaction → String → State → Type 0
  Written s txs k s' =
      (Dict.lookup k s'.entries ≡ Dict.lookup k s.entries)
      ⊎ ((tx : Transaction) × In tx txs
          × (Transaction.verify C tx ≡ true)
          × (tx.key ≡ k)
          × (tx.sender ≡ owner k)
          × (Dict.lookup k s'.entries ≡ some tx.value))

  Written-cons :
      (s : State) (tx : Transaction) (txs : List Transaction) (k : String) (s' : State)
      → Written (apply C s tx).0 txs k s'
      → Written s (tx ∷ txs) k s'
  Written-cons s tx txs k s' (inl same) = elim (apply-entries s tx k) [
    | inl kept ↦ inl (same ∙ kept)
    | inr (real, e, own, new) ↦ inr (tx, inl refl, real, e, own, same ∙ new)
  ]
  Written-cons s tx txs k s' (inr (t, m, real, e, own, new)) = inr (t, inr m, real, e, own, new)

  -- Over any list of transactions, a key keeps its value, or has the value of one of them that is
  -- correctly signed, writes this key, and whose sender is the owner that the key names.
  pub apply_all-Written :
      (s : State) (txs : List Transaction) (k : String) → Written s txs k (apply_all C s txs)
  unfolding apply_all apply_each
  apply_all-Written s [] k = inl refl
  apply_all-Written s (tx ∷ txs) k =
      Written-cons s tx txs k (apply_each C (apply C s tx).0 txs)
        (apply_all-Written (apply C s tx).0 txs k)
