-- ===== src/Engine/Replay.antt =====
-- The chain of a node only grows, its height is the number of its blocks, and its state is the
-- execution of its ledger.
pub mod Executed
use blockchain_application.Prelude.{
  ℕ, ◌+◌, ◌≡◌, refl, ap, ◌∙◌, sym, List, [], ◌∷◌, ◌++◌, length, arith, length-append,
}
use mathlib.Core.List.{append-nil, append_assoc}
use blockchain_application.Crypto.Signing.{Crypto}
use blockchain_application.Execution.{State, apply_each}
use blockchain_application.Messages.Block.{Block}
use blockchain_application.Engine.Types.{Engine, Sys}
use blockchain_application.Engine.Chain.{
  touch_bucket, reset_round_timeout, cancel_timeout, put_vote, log, log_at,
}
use blockchain_application.Engine.Votes.{cast_vote, equivocate_vote, send_to, broadcast}
use blockchain_application.Engine.Proposals.{announce, equivocate_proposal, put_proposal}
use blockchain_application.Engine.Rounds.{start_round, commit, lock_on}
use blockchain_application.Engine.Induction.Keepers.{Keeper}

module _ (C : Crypto) where
  -- The execution of a list of blocks, in order.
  unfoldable pub replay : State → List Block → State
  replay s [] = s
  replay s (b ∷ bs) = replay (apply_each C s b.transactions) bs

  pub replay-append :
      (s : State) (xs ys : List Block) → replay s (xs ++ ys) ≡ replay (replay s xs) ys
  unfolding replay
  replay-append s [] ys = refl
  replay-append s (b ∷ xs) ys = replay-append (apply_each C s b.transactions) xs ys

  -- `e'` has finalized the given blocks on top of `e`.
  pub record Extends (e e' : Engine) (blocks : List Block) : Type 0 where
    pub appended : e'.ledger ≡ e.ledger ++ blocks
    pub counted : e'.height ≡ e.height + length blocks
    pub executed : e'.state_store ≡ replay e.state_store blocks

  abbrev pub Grows : Sys → Sys → Type 0
  Grows s t = (blocks : List Block) × Extends s.engine t.engine blocks

  Grows-refl : (s : Sys) → Grows s s
  unfolding replay
  Grows-refl s =
      ([], record { appended = sym (append-nil _); counted = omega arith; executed = refl })

  Extends-trans :
      (d e f : Engine) (xs ys : List Block)
      → Extends d e xs
      → Extends e f ys
      → Extends d f (xs ++ ys)
  Extends-trans d e f xs ys p q = record {
    appended = q.appended ∙ ap (λ l. l ++ ys) p.appended ∙ append_assoc d.ledger xs ys;
    counted = omega (arith, p.counted, q.counted, length-append xs ys);
    executed =
        q.executed ∙ ap (λ s. replay s ys) p.executed ∙ sym (replay-append d.state_store xs ys);
  }

  -- A change that leaves the chain and the state alone.
  Grows-same :
      (d e : Engine)
      → e.ledger ≡ d.ledger
      → e.height ≡ d.height
      → e.state_store ≡ d.state_store
      → (blocks : List Block) × Extends d e blocks
  unfolding replay
  Grows-same d e p q r =
      ([], record { appended = p ∙ sym (append-nil _); counted = omega (arith, q); executed = r })

  module _ (draw : ℕ → ℕ → ℕ) where
    pub Keeper-Grows : Keeper C draw Grows
    unfolding touch_bucket start_round reset_round_timeout cancel_timeout announce put_proposal
        broadcast equivocate_proposal equivocate_vote cast_vote put_vote log log_at commit replay
        lock_on send_to
    Keeper-Grows = record {
      same = Grows-refl;
      trans =
          λ s t u (xs, p) (ys, q). (xs ++ ys, Extends-trans s.engine t.engine u.engine xs ys p q);
      net = λ s n. Grows-same _ _ refl refl refl;
      touch = λ r s. Grows-same _ _ refl refl refl;
      start = λ r s d h. Grows-same _ _ refl refl refl;
      propose = λ b s. Grows-same _ _ refl refl refl;
      propose_two = λ s. Grows-same _ _ refl refl refl;
      keep_proposal = λ r b s. Grows-same _ _ refl refl refl;
      cast = λ p h s n. Grows-same _ _ refl refl refl;
      equivocate = λ p h s n. Grows-same _ _ refl refl refl;
      lock = λ r b s k. Grows-same _ _ refl refl refl;
      decide = λ b h s d k e.
          (b ∷ [], record { appended = refl; counted = omega arith; executed = refl });
      receive = λ p v s a b c d. Grows-same _ _ refl refl refl;
      park = λ p s. Grows-same _ _ refl refl refl;
      pool = λ m s. Grows-same _ _ refl refl refl;
    }
