-- ===== src/Execution/Replay.antt =====
-- No transaction takes effect twice (`seen_nonces` of src/execution/state.py).
use blockchain_application.Prelude.{
  ℕ, ◌≡◌, refl, String, true, false, List, [], ◌∷◌, ◌++◌, arith, ◌==◌, contains, string_eq, nat_eq,
  if◌then◌else◌, Bool-cases, inl, inr,
}
use blockchain_application.Prelude.Dict
use blockchain_application.Prelude.Dict.{lookup-insert}
use blockchain_application.Crypto.Signing.{Crypto}
use blockchain_application.Messages.Transaction.{Transaction}
use blockchain_application.Execution.{
  State, add_nonce, has_seen, can_apply, apply, apply_each, apply_all,
}

contains-add_nonce :
    (m n : ℕ) (ns : List ℕ) → contains (add_nonce n ns) m ≡ (if m == n then true else contains ns m)
unfolding add_nonce
contains-add_nonce m n ns = elim (Bool-cases (contains ns n)) [
  | inl old ↦ ground arith
  | inr new ↦ ground arith
]

module _ (C : Crypto) where
  has_seen-apply :
      (s : State) (tx : Transaction) (a : String) (n : ℕ)
      → has_seen s a n ≡ true
      → has_seen (apply C s tx).0 a n ≡ true
  unfolding has_seen apply Dict.get_or
  has_seen-apply s tx a n h = ground (
    arith,
    lookup-insert a tx.sender (add_nonce tx.nonce (Dict.get_or tx.sender [] s.seen_nonces))
        s.seen_nonces,
    contains-add_nonce n tx.nonce (Dict.get_or tx.sender [] s.seen_nonces),
  )

  -- A nonce, once seen, is never forgotten.
  pub has_seen-apply_each :
      (s : State) (txs : List Transaction) (a : String) (n : ℕ)
      → has_seen s a n ≡ true
      → has_seen (apply_each C s txs) a n ≡ true
  unfolding apply_each
  has_seen-apply_each s [] a n h = h
  has_seen-apply_each s (tx ∷ txs) a n h =
      has_seen-apply_each (apply C s tx).0 txs a n (has_seen-apply s tx a n h)

  has_seen-apply_self :
      (s : State) (tx : Transaction)
      → (apply C s tx).1 ≡ true
      → has_seen (apply C s tx).0 tx.sender tx.nonce ≡ true
  unfolding has_seen apply Dict.get_or
  has_seen-apply_self s tx h = ground (
    arith,
    lookup-insert tx.sender tx.sender (add_nonce tx.nonce (Dict.get_or tx.sender [] s.seen_nonces))
        s.seen_nonces,
    contains-add_nonce tx.nonce tx.nonce (Dict.get_or tx.sender [] s.seen_nonces),
  )

  refused_of_seen :
      (s : State) (tx : Transaction)
      → has_seen s tx.sender tx.nonce ≡ true
      → apply C s tx ≡ (s, false)
  unfolding apply can_apply
  refused_of_seen s tx h = ground arith

  -- Once a transaction was applied, any other with its sender and nonce is refused and changes
  -- nothing, whatever was applied in between.
  pub apply_replayed :
      (s : State) (tx : Transaction) (txs : List Transaction) (again : Transaction)
      → (apply C s tx).1 ≡ true
      → again.sender ≡ tx.sender
      → again.nonce ≡ tx.nonce
      → let s' = apply_each C (apply C s tx).0 txs in apply C s' again ≡ (s', false)
  apply_replayed s tx txs again done same_sender same_nonce =
      refused_of_seen (apply_each C (apply C s tx).0 txs) again (
        rw (same_sender, same_nonce)
          (has_seen-apply_each (apply C s tx).0 txs tx.sender tx.nonce
            (has_seen-apply_self s tx done)))

  -- What refuses a transaction once refuses it for good: it was not authentic or not the owner's,
  -- or its nonce was seen.
  refused_again :
      (s : State) (tx : Transaction) (txs : List Transaction)
      → (apply C s tx).1 ≡ false
      → apply C (apply_each C (apply C s tx).0 txs) tx ≡ (apply_each C (apply C s tx).0 txs, false)
  unfolding apply can_apply
  refused_again s tx txs h = ground (arith, has_seen-apply_each s txs tx.sender tx.nonce)

  repeated :
      (s : State) (tx : Transaction) (txs : List Transaction)
      → let s' = apply_each C (apply C s tx).0 txs in apply C s' tx ≡ (s', false)
  repeated s tx txs = elim (Bool-cases (apply C s tx).1) [
    | inl done ↦ apply_replayed s tx txs tx done refl refl
    | inr refused ↦ refused_again s tx txs refused
  ]

  apply_each-append :
      (s : State) (txs more : List Transaction)
      → apply_each C s (txs ++ more) ≡ apply_each C (apply_each C s txs) more
  unfolding apply_each
  apply_each-append s [] more = refl
  apply_each-append s (tx ∷ txs) more = apply_each-append (apply C s tx).0 txs more

  -- A duplicate in a block has no effect: the resulting state is that of the block without it.
  pub apply_all_duplicate :
      (s : State) (before : List Transaction) (tx : Transaction) (between after : List Transaction)
      → apply_all C s (before ++ (tx ∷ (between ++ (tx ∷ after))))
        ≡ apply_all C s (before ++ (tx ∷ (between ++ after)))
  unfolding apply_all apply_each
  apply_all_duplicate s before tx between after =
      let t = apply_each C s before in
      let t' = apply_each C (apply C t tx).0 between in
      simp apply_each-append (rw (repeated t tx between))
