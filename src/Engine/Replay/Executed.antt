-- ===== src/Engine/Replay/Executed.antt =====
-- The state of an engine as the execution of its whole ledger from the empty state.
use blockchain_application.Prelude.{◌≡◌, refl, ap, ◌∙◌, sym, ℕ, String, List, [], ◌∷◌, ◌++◌}
use blockchain_application.Crypto.Signing.{Crypto}
use blockchain_application.Execution
use blockchain_application.Execution.{apply_each}
use blockchain_application.Messages.Block.{Block}
use blockchain_application.Engine.Types.{Engine}
use blockchain_application.Engine.Chain.{
  touch_bucket, reset_round_timeout, cancel_timeout, put_vote, log, log_at,
}
use blockchain_application.Engine.Votes.{cast_vote, equivocate_vote, send_to, broadcast}
use blockchain_application.Engine.Proposals.{announce, equivocate_proposal, put_proposal}
use blockchain_application.Engine.Rounds.{start_round, commit, lock_on}
use blockchain_application.Engine.Induction.{Anything, Invariant}
use blockchain_application.Engine.Replay.{replay, replay-append}

-- The engine's state is what its ledger's transactions make, block by block, of the empty state.
pub record Executed (C : Crypto) (vs : List String) (e : Engine) : Type 0 where
  pub set : e.validators ≡ vs
  pub state : e.state_store ≡ replay C Execution.empty e.ledger

module _ (C : Crypto) (vs : List String) where
  Executed-same :
      (d e : Engine)
      → e.validators ≡ d.validators
      → e.state_store ≡ d.state_store
      → e.ledger ≡ d.ledger
      → Executed C vs d
      → Executed C vs e
  Executed-same d e set state ledger x = record {
    set = set ∙ x.set;
    state = state ∙ rw ledger x.state;
  }

  Executed-commit :
      (block : Block) (d e : Engine)
      → e.validators ≡ d.validators
      → e.state_store ≡ apply_each C d.state_store block.transactions
      → e.ledger ≡ d.ledger ++ (block ∷ [])
      → Executed C vs d
      → Executed C vs e
  unfolding replay
  Executed-commit block d e set state ledger x = record {
    set = set ∙ x.set;
    state =
        state
        ∙ ap (λ s. apply_each C s block.transactions) x.state
        ∙ sym (replay-append C Execution.empty d.ledger (block ∷ []))
        ∙ ap (replay C Execution.empty) (sym ledger);
  }

  pub Executed-Invariant :
      (draw : ℕ → ℕ → ℕ) → Invariant C draw vs Anything (λ s. Executed C vs s.engine)
  unfolding touch_bucket start_round reset_round_timeout cancel_timeout announce put_proposal
      broadcast equivocate_proposal equivocate_vote cast_vote put_vote log log_at commit lock_on
      send_to
  Executed-Invariant draw = record {
    set = λ s x. x.set;
    logged = λ entry s. Executed-same s.engine _ refl refl refl;
    sent = λ targets message s. Executed-same s.engine _ refl refl refl;
    touched = λ round s. Executed-same s.engine _ refl refl refl;
    started = λ round s x going later. Executed-same s.engine _ refl refl refl x;
    proposed = λ block s. Executed-same s.engine _ refl refl refl;
    proposed_two = λ s. Executed-same s.engine _ refl refl refl;
    kept_proposal = λ round block s. Executed-same s.engine _ refl refl refl;
    cast = λ phase h s x new. Executed-same s.engine _ refl refl refl x;
    equivocated = λ phase h s x new. Executed-same s.engine _ refl refl refl x;
    locked = λ round block h s x known agree shown. Executed-same s.engine _ refl refl refl x;
    decided = λ round block h s x going lock agree shown.
        Executed-commit block s.engine _ refl refl refl x;
    received = λ phase v s x member height real new _. Executed-same s.engine _ refl refl refl x;
    parked = λ pending s. Executed-same s.engine _ refl refl refl;
    pooled = λ mempool s. Executed-same s.engine _ refl refl refl;
  }
