-- ===== src/Engine/Induction/Reactions.antt =====
-- The induction principle at the methods that call one another, up to `_enter_round`.
use blockchain_application.Prelude.{
  ℕ, zero, suc, ◌+◌, ◌≤◌, String, ◌&&◌, ◌||◌, not, none, some, List, ◌==◌, string_eq, nat_eq, arith,
  ==_iff,
}
use blockchain_application.Prelude.Dict
use blockchain_application.Prelude.Dict.{Dict}
use blockchain_application.Crypto.Signing.{Crypto}
use blockchain_application.Messages.Block
use blockchain_application.Messages.Block.{Block}
use blockchain_application.Messages.Vote.{Phase, prevote, precommit, nil, Vote}
use blockchain_application.Network.Types.{ConsensusEvent}
use blockchain_application.Engine.Types.{at_propose, Sys, with_cs}
use blockchain_application.Engine.Chain.{is_proposer, log, log_at}
use blockchain_application.Engine.Validation.{block_fault, log_fault, validate_block}
use blockchain_application.Engine.Votes.{Method}
use blockchain_application.Engine.Rounds
use blockchain_application.Engine.Induction.{
  Evidence, Invariant, Then, Then-if, Then-option, Then-class, Then-method,
}
use blockchain_application.Engine.Induction.Tallies.{tally_with-Then, send_vote_with-Then}

module _ {C : Crypto} {draw : ℕ → ℕ → ℕ} {vs : List String} {H : Phase → Vote → Type 0}
    {I : Sys → Type 0} (K : Invariant C draw vs H I) where
  -- What the reactions assume of `_enter_round`, which never goes back.
  abbrev pub Enters : (ℕ → Method) → Type 0
  Enters enter = (round : ℕ) (s : Sys) → I s → s.engine.cs.round ≤ round → Then I (enter round s)

  validate_block-Then :
      (block : Block) (round : ℕ) (s : Sys) → I s → I (validate_block C block round s).1
  unfolding validate_block log_fault log log_at
  validate_block-Then block round s i =
      elim (block_fault C s.engine block round) as (λ fault. I (log_fault C block fault s)) [
        | none ↦ i
        | some _ ↦ K.logged _ s i
      ]

  module _ (enter : ℕ → Method) (entered : Enters enter) where
    on_precommit_quorum-Then :
        (round : ℕ) (h : String) (s : Sys)
        → I s
        → Evidence vs I round precommit h s
        → Then I (Rounds.on_precommit_quorum C draw enter h s)
    unfolding Rounds.on_precommit_quorum Rounds.commit
    on_precommit_quorum-Then round h s i shown =
        Then-if I s.engine.cs.decided (some s) _ (λ _. i)
          (λ going.
            Then-option I s.engine.cs.locked_block (some s) _ (λ _. i)
              (λ block locked.
                Then-if I (Block.block_hash C block == h) _ (some s)
                  (λ agree.
                    entered 0 (Rounds.commit C block h s)
                      (K.decided round block h s i going locked ((==_iff _ _).0 agree) shown)
                      (omega arith))
                  (λ _. i)))

    on_precommit_nil_quorum-Then :
        (round : ℕ) (s : Sys) → I s → Then I (Rounds.on_precommit_nil_quorum C draw enter round s)
    unfolding Rounds.on_precommit_nil_quorum
    on_precommit_nil_quorum-Then round s i =
        Then-if I ((round == s.engine.cs.round) && not s.engine.cs.decided) _ (some s)
          (λ now. entered (round + 1) s i (ground arith)) (λ _. i)

    tally_precommits-Then :
        (round : ℕ) (s : Sys) → I s → Then I (Rounds.tally_precommits C draw enter round s)
    unfolding Rounds.tally_precommits
    tally_precommits-Then round = tally_with-Then K _ round precommit (λ h s i shown.
        Then-method I (h == nil) _ _ s (on_precommit_nil_quorum-Then round s i)
          (on_precommit_quorum-Then round h s i shown))

    send_precommit-Then :
        (h : String) (s : Sys) → I s → Then I (Rounds.send_precommit C draw enter h s)
    unfolding Rounds.send_precommit
    send_precommit-Then h =
        send_vote_with-Then K (Rounds.tally_precommits C draw enter) tally_precommits-Then precommit
          h

    on_prevote_quorum-Then :
        (round : ℕ) (h : String) (s : Sys)
        → I s
        → Evidence vs I round prevote h s
        → Then I (Rounds.on_prevote_quorum C draw enter round h s)
    unfolding Rounds.on_prevote_quorum log log_at
    on_prevote_quorum-Then round h s i shown =
        Then-option I (Dict.lookup round s.engine.cs.proposals) (some s) _ (λ _. i)
          (λ block known.
            Then-if I (not (Block.block_hash C block == h)) (some s) _ (λ _. i)
              (λ agree.
                let s₁ = log (ConsensusEvent.prevote_quorum h) s in
                let s₂ = with_cs (Rounds.lock_on round block) s₁ in
                let i₂ : I s₂ =
                  K.locked round block h s₁ (K.logged _ s i) known (ground arith) shown in
                Then-if I (Rounds.awaits_precommit C draw enter round s₂.engine) _ (some s₂)
                  (λ _. send_precommit-Then h s₂ i₂) (λ _. i₂)))

    on_prevote_nil_quorum-Then :
        (round : ℕ) (s : Sys) → I s → Then I (Rounds.on_prevote_nil_quorum C draw enter round s)
    unfolding Rounds.on_prevote_nil_quorum
    on_prevote_nil_quorum-Then round s i =
        Then-if I (Rounds.awaits_precommit C draw enter round s.engine) _ (some s)
          (λ _. send_precommit-Then nil s i) (λ _. i)

    tally_prevotes-Then :
        (round : ℕ) (s : Sys) → I s → Then I (Rounds.tally_prevotes C draw enter round s)
    unfolding Rounds.tally_prevotes
    tally_prevotes-Then round = tally_with-Then K _ round prevote (λ h s i shown.
        Then-method I (h == nil) _ _ s (on_prevote_nil_quorum-Then round s i)
          (on_prevote_quorum-Then round h s i shown))

    send_prevote-Then : (h : String) (s : Sys) → I s → Then I (Rounds.send_prevote C draw enter h s)
    unfolding Rounds.send_prevote
    send_prevote-Then h =
        send_vote_with-Then K (Rounds.tally_prevotes C draw enter) tally_prevotes-Then prevote h

    pub tally-Then :
        (round : ℕ) (phase : Phase) (s : Sys)
        → I s
        → Then I (Rounds.tally C draw enter round phase s)
    unfolding Rounds.tally
    tally-Then round prevote = tally_prevotes-Then round
    tally-Then round precommit = tally_precommits-Then round

    pub handle_proposal_local-Then :
        (block : Block) (round : ℕ) (s : Sys)
        → I s
        → Then I (Rounds.handle_proposal_local C draw enter block round s)
    unfolding Rounds.handle_proposal_local
    handle_proposal_local-Then block round s i =
        let s₁ =
          with_cs (λ cs. record cs { proposals = Dict.set_default round block cs.proposals }) s in
        let i₁ = K.kept_proposal round block s i in
        Then-if I
          (not (round == s₁.engine.cs.round) || not (Rounds.is_step s₁.engine.cs.step at_propose))
          (some s₁) _ (λ _. i₁) (λ _. send_prevote-Then _ _ (validate_block-Then block round s₁ i₁))

    propose-Then : (s : Sys) → I s → Then I (Rounds.propose C draw enter s)
    unfolding Rounds.propose
    propose-Then s i =
        Then-class I s.engine.class _ _ (handle_proposal_local-Then _ _ _ (K.proposed _ s i))
          (handle_proposal_local-Then _ _ _ (K.proposed_two s i))

  -- `_enter_round`, at any depth.
  pub enter_round-Enters : (depth : ℕ) → Enters (Rounds.enter_round C draw depth)
  unfolding Rounds.enter_round
  enter_round-Enters zero round s i h = tt
  enter_round-Enters (suc depth) round s i h =
      let s' = Rounds.start_round round s in
      Then-if I s.engine.cs.decided (some s) _ (λ _. i)
        (λ going.
          let i' = K.started round s i going h in
          Then-if I (is_proposer s'.engine) _ (some s')
            (λ _. propose-Then (Rounds.enter_round C draw depth) (enter_round-Enters depth) s' i')
            (λ _. i'))
