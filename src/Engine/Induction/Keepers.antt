-- ===== src/Engine/Induction/Keepers.antt =====
-- Relations between an earlier and a later state: a reflexive and transitive relation that each
-- elementary change keeps holds across every method and handler.
use blockchain_application.Prelude.{
  ℕ, ◌≤◌, ◌≡◌, refl, String, true, false, some, List, contains, string_eq, nat_eq,
}
use blockchain_application.Prelude.Dict
use blockchain_application.Prelude.Dict.{Dict}
use blockchain_application.Crypto.Signing.{Crypto}
use blockchain_application.Messages.Transaction.{Transaction}
use blockchain_application.Messages.BlockHeader.{BlockHeader}
use blockchain_application.Messages.Block
use blockchain_application.Messages.Block.{Block}
use blockchain_application.Messages.Vote
use blockchain_application.Messages.Vote.{Phase, prevote, precommit, nil, Vote}
use blockchain_application.Network.Types.{Network}
use blockchain_application.Engine.Types.{Sys, with_cs, with_engine}
use blockchain_application.Engine.Chain.{log, bucket, touch_bucket, put_vote}
use blockchain_application.Engine.Votes.{cast_vote, equivocate_vote}
use blockchain_application.Engine.Proposals.{announce, equivocate_proposal}
use blockchain_application.Engine.Rounds
use blockchain_application.Engine.Chain.{log_at, reset_round_timeout, cancel_timeout}
use blockchain_application.Engine.Votes.{broadcast}
use blockchain_application.Engine.Proposals.{put_proposal}
use blockchain_application.Engine.Votes.{send_to}
use blockchain_application.Engine.Inputs.{Input, perform_all}
use mathlib.Core.Path.{subst}
use blockchain_application.Engine.Induction.{Anything, Invariant, Then}
use blockchain_application.Engine.Induction.Reactions.{tally-Then, enter_round-Enters}
use blockchain_application.Engine.Induction.Runs.{AllHeard-Anything, perform_all-Then}

-- A relation that is kept by the elementary changes, each under the guard that its caller tested.
pub record Keeper (C : Crypto) (draw : ℕ → ℕ → ℕ) (R : Sys → Sys → Type 0) : Type 0 where
  pub same : (s : Sys) → R s s
  pub trans : (s t u : Sys) → R s t → R t u → R s u
  -- sending, logging and timers change the network alone
  pub net : (s : Sys) (n : Network) → R s (record s { network = n })
  pub touch : (round : ℕ) (s : Sys) → R s (touch_bucket round s)
  pub start :
      (round : ℕ) (s : Sys)
      → s.engine.cs.decided ≡ false
      → s.engine.cs.round ≤ round
      → R s (Rounds.start_round round s)
  pub propose : (block : Block) (s : Sys) → R s (announce C draw block s)
  pub propose_two : (s : Sys) → R s (equivocate_proposal C draw s)
  pub keep_proposal :
      (round : ℕ) (block : Block) (s : Sys)
      → R s (with_cs (λ cs. record cs { proposals = Dict.set_default round block cs.proposals }) s)
  pub cast :
      (phase : Phase) (block_hash : String) (s : Sys)
      → Dict.has s.engine.node_id (bucket s.engine.cs.round phase s.engine.cs) ≡ false
      → R s (cast_vote C draw phase block_hash s)
  pub equivocate :
      (phase : Phase) (block_hash : String) (s : Sys)
      → Dict.has s.engine.node_id (bucket s.engine.cs.round phase s.engine.cs) ≡ false
      → R s (equivocate_vote C draw phase block_hash s)
  pub lock :
      (round : ℕ) (block : Block) (s : Sys)
      → Dict.lookup round s.engine.cs.proposals ≡ some block
      → R s (with_cs (Rounds.lock_on round block) s)
  pub decide :
      (block : Block) (block_hash : String) (s : Sys)
      → s.engine.cs.decided ≡ false
      → s.engine.cs.locked_block ≡ some block
      → Block.block_hash C block ≡ block_hash
      → R s (Rounds.commit C block block_hash s)
  pub receive :
      (phase : Phase) (vote : Vote) (s : Sys)
      → contains s.engine.validators vote.validator ≡ true
      → vote.height ≡ s.engine.height
      → Vote.verify C vote ≡ true
      → Dict.has vote.validator (bucket vote.round phase s.engine.cs) ≡ false
      → R s (put_vote vote.round phase vote.validator vote s)
  pub park :
      (pending : Dict ℕ (BlockHeader × List String)) (s : Sys)
      → R s (with_cs (λ cs. record cs { pending_headers = pending }) s)
  pub pool :
      (mempool : List Transaction) (s : Sys)
      → R s (with_engine (λ e. record e { mempool = mempool }) s)

module _ {C : Crypto} {draw : ℕ → ℕ → ℕ} {R : Sys → Sys → Type 0} (K : Keeper C draw R) where
  -- Related to the state at the beginning, with the same validators.
  abbrev pub Since : Sys → Sys → Type 0
  Since s₀ s = R s₀ s × (s.engine.validators ≡ s₀.engine.validators)

  Since-Invariant : (s₀ : Sys) → Invariant C draw s₀.engine.validators Anything (Since s₀)
  unfolding touch_bucket Rounds.start_round reset_round_timeout cancel_timeout announce put_proposal
      broadcast equivocate_proposal equivocate_vote cast_vote put_vote log log_at Rounds.commit
      send_to
  Since-Invariant s₀ =
      let on = λ (s t : Sys) (r : R s t) (i : Since s₀ s). K.trans s₀ s t i.0 r in
      record {
        set = λ s i. i.1;
        logged = λ entry s i. (on s _ (K.net s _) i, i.1);
        sent = λ targets message s i. (on s _ (K.net s _) i, i.1);
        touched = λ round s i. (on s _ (K.touch round s) i, i.1);
        started = λ round s i going later. (on s _ (K.start round s going later) i, i.1);
        proposed = λ block s i. (on s _ (K.propose block s) i, i.1);
        proposed_two = λ s i. (on s _ (K.propose_two s) i, i.1);
        kept_proposal = λ round block s i. (on s _ (K.keep_proposal round block s) i, i.1);
        cast = λ phase h s i new. (on s _ (K.cast phase h s new) i, i.1);
        equivocated = λ phase h s i new. (on s _ (K.equivocate phase h s new) i, i.1);
        locked =
            λ round block h s i known agree shown. (on s _ (K.lock round block s known) i, i.1);
        decided = λ round block h s i going lock agree shown.
            (on s _ (K.decide block h s going lock agree) i, i.1);
        received = λ phase v s i member height real new _.
            (on s _ (K.receive phase v s member height real new) i, i.1);
        parked = λ pending s i. (on s _ (K.park pending s) i, i.1);
        pooled = λ mempool s i. (on s _ (K.pool mempool s) i, i.1);
      }

  Since-refl : (s : Sys) → Since s s
  Since-refl s = (K.same s, refl)

  pub tally-Since :
      (depth round : ℕ) (phase : Phase) (s : Sys)
      → Then (Since s) (Rounds.tally C draw (Rounds.enter_round C draw depth) round phase s)
  tally-Since depth round phase s =
      tally-Then (Since-Invariant s) (Rounds.enter_round C draw depth)
        (enter_round-Enters (Since-Invariant s) depth) round phase s (Since-refl s)

  -- The relation holds between a state and what follows it.
  pub related :
      (depth : ℕ) (inputs : List Input) (s : Sys) {t : Sys}
      → perform_all C draw depth inputs s ≡ some t
      → R s t
  related depth inputs s {t} e =
      (subst (Then (Since s)) e (
        perform_all-Then (Since-Invariant s) depth (λ u n h. (K.trans s u _ h.0 (K.net u n), h.1))
          inputs s (AllHeard-Anything inputs) (Since-refl s))).0
