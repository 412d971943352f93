-- ===== src/Execution/Root.antt =====
-- The state root of src/execution/state.py as a function of the map from keys to values.
use blockchain_application.Prelude.{
  ℕ, ◌≡◌, ◌≢◌, refl, ap, String, true, false, Option, some, List, [], ◌∷◌, arith, if◌then◌else◌,
  ◌==◌, string_eq, nat_eq, Bool-cases, inl, inr,
}
use blockchain_application.Prelude.Dict
use blockchain_application.Prelude.Dict.{NodupKeys, lookup-insert, insert-NodupKeys, get_or-insert}
use blockchain_application.Crypto.Encoding.Order.{canonical_bytes-eq}
use blockchain_application.Crypto.Encoding
use blockchain_application.Crypto.Signing.{Crypto}
use blockchain_application.Messages.Transaction.{Transaction}
use blockchain_application.Execution.{
  State, empty, add_nonce, owner, has_seen, state_root, can_apply, apply, apply_each,
}

-- The abstract state: what each key is bound to.
abbrev pub view : State → String → Option String
view s k = Dict.lookup k s.entries

module _ (C : Crypto) where
  pub state_root-eq :
      (s t : State)
      → NodupKeys s.entries
      → NodupKeys t.entries
      → ((k : String) → view s k ≡ view t k)
      → state_root C s ≡ state_root C t
  unfolding state_root Encoding.hash_obj
  state_root-eq s t once once' same =
      ap (Encoding.sha256_hex C.digest) (canonical_bytes-eq s.entries t.entries once once' same)

  pub apply-NodupKeys :
      (s : State) (tx : Transaction) → NodupKeys s.entries → NodupKeys (apply C s tx).0.entries
  unfolding apply
  apply-NodupKeys s tx once = elim (Bool-cases (can_apply C s tx)) [
    | inl valid ↦ rw valid (insert-NodupKeys tx.key tx.value s.entries once)
    | inr invalid ↦ rw invalid once
  ]

  apply_each-NodupKeys :
      (txs : List Transaction) (s : State)
      → NodupKeys s.entries
      → NodupKeys (apply_each C s txs).entries
  unfolding apply_each
  apply_each-NodupKeys [] s once = once
  apply_each-NodupKeys (tx ∷ txs) s once =
      apply_each-NodupKeys txs (apply C s tx).0 (apply-NodupKeys s tx once)

  -- Two states that transactions have made of the empty state have the same root if they bind the
  -- same keys to the same values, whatever the order in which these were bound.
  pub state_root-apply_each :
      (txs txs' : List Transaction)
      → ((k : String) → view (apply_each C empty txs) k ≡ view (apply_each C empty txs') k)
      → state_root C (apply_each C empty txs) ≡ state_root C (apply_each C empty txs')
  state_root-apply_each txs txs' same =
      state_root-eq (apply_each C empty txs) (apply_each C empty txs')
        (apply_each-NodupKeys txs empty tt) (apply_each-NodupKeys txs' empty tt) same

  -- A transaction changes the binding of its own key, if it applies.
  view-apply :
      (s : State) (tx : Transaction) (k : String)
      → view (apply C s tx).0 k
        ≡ (if can_apply C s tx then (if k == tx.key then some tx.value else view s k) else view s k)
  unfolding apply
  view-apply s tx k = ground (arith, lookup-insert k tx.key tx.value s.entries)

  abbrev nonces_after : State → Transaction → List ℕ
  nonces_after s tx = add_nonce tx.nonce (Dict.get_or tx.sender [] s.seen_nonces)

  -- Whether a transaction applies does not depend on one of another sender.
  can_apply-apply :
      (s : State) (tx tx' : Transaction)
      → (tx.sender == tx'.sender) ≡ false
      → can_apply C (apply C s tx').0 tx ≡ can_apply C s tx
  unfolding can_apply has_seen apply
  can_apply-apply s tx tx' apart = elim (Bool-cases (can_apply C s tx')) [
    | inl valid ↦
        rw valid (
          rw (get_or-insert tx.sender tx'.sender [] (nonces_after s tx') s.seen_nonces, apart) refl)
    | inr invalid ↦ rw invalid refl
  ]

  can_apply-owner :
      (s : State) (tx : Transaction) → can_apply C s tx ≡ true → owner tx.key ≡ tx.sender
  unfolding can_apply
  can_apply-owner s tx e = ground arith

  -- To a state whose dict has no key twice, two transactions of different senders can be applied in
  -- either order, with the same root.
  pub apply_comm :
      (s : State) (tx tx' : Transaction)
      → NodupKeys s.entries
      → tx.sender ≢ tx'.sender
      → state_root C (apply_each C s (tx ∷ tx' ∷ []))
        ≡ state_root C (apply_each C s (tx' ∷ tx ∷ []))
  unfolding apply_each
  apply_comm s tx tx' once apart =
      let s₁ = (apply C s tx).0 in
      let s₂ = (apply C s tx').0 in
      state_root-eq (apply C s₁ tx').0 (apply C s₂ tx).0
        (apply-NodupKeys s₁ tx' (apply-NodupKeys s tx once))
        (apply-NodupKeys s₂ tx (apply-NodupKeys s tx' once))
        (λ k. ground (
          arith,
          view-apply s₁ tx' k,
          view-apply s₂ tx k,
          view-apply s tx k,
          view-apply s tx' k,
          can_apply-apply s tx tx',
          can_apply-apply s tx' tx,
          can_apply-owner s tx,
          can_apply-owner s tx',
        ))
