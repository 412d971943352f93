-- ===== src/Tests/State.antt =====
-- The theorems on the state root at concrete transactions.
use blockchain_application.Prelude.{ℕ, ◌≡◌, refl, false, true, ◌<>◌, none, [], ◌∷◌, arith}
use text.Mathlib.TextEquality.{eq_iff}
use blockchain_application.Execution
use blockchain_application.Execution.{State, apply_each, state_root}
use blockchain_application.Execution.Root.{apply_comm, state_root-apply_each}
use blockchain_application.Messages.Transaction
use blockchain_application.Messages.Transaction.{Transaction}
use blockchain_application.Tests.Toy.{toy}
use blockchain_application.Tests.Scenario.{run_toy, id_of}

-- The first transaction of a node's key.
abbrev note : ℕ → Transaction
unfolding run_toy
note seed = Transaction.sign toy (seed ∷ []) (record {
  sender = id_of seed;
  key = id_of seed <> "/note";
  value = "hello";
  nonce = 1;
  signature = none;
})

apply_comm_example :
    state_root toy (apply_each toy Execution.empty (note 1 ∷ note 2 ∷ []))
    ≡ state_root toy (apply_each toy Execution.empty (note 2 ∷ note 1 ∷ []))
unfolding run_toy
apply_comm_example =
    apply_comm toy Execution.empty (note 1) (note 2) tt
      (λ e. let h : false ≡ true = (eq_iff (id_of 1) (id_of 2)).1 e in absurd (ground arith))

-- A transaction that is sent twice is applied once.
state_root-apply_each_example :
    state_root toy (apply_each toy Execution.empty (note 1 ∷ note 1 ∷ note 2 ∷ []))
    ≡ state_root toy (apply_each toy Execution.empty (note 1 ∷ note 2 ∷ []))
unfolding run_toy
state_root-apply_each_example =
    state_root-apply_each toy (note 1 ∷ note 1 ∷ note 2 ∷ []) (note 1 ∷ note 2 ∷ []) (λ k. refl)
