-- ===== src/Engine/Rounds.antt =====
-- The methods of `ConsensusEngine` that call one another: `_tally`, the reactions to a quorum,
-- `_send_vote`, `_handle_proposal_local`, `_propose` and `_enter_round`. The cycle is cut at
-- `_enter_round`, which the others take as the argument `enter`; `enter_round` closes it with fuel
-- for the depth of the recursion, and answers `none`, a `RecursionError`, when that is used up.
use blockchain_application.Prelude.{
  ℕ, zero, suc, ◌+◌, String, Bool, true, false, ◌&&◌, ◌||◌, not, none, some, List, [], ◌∷◌, ◌++◌,
  if◌then◌else◌, ◌==◌, contains, keep, string_eq, nat_eq,
}
use blockchain_application.Prelude.Dict
use blockchain_application.Crypto.Signing.{Crypto}
use blockchain_application.Execution.{apply_each}
use blockchain_application.Messages.Transaction.{Transaction, transaction_eq}
use blockchain_application.Messages.Block
use blockchain_application.Messages.Block.{Block}
use blockchain_application.Messages.Vote.{Phase, prevote, precommit, nil}
use blockchain_application.Network.Types.{ConsensusEvent}
use blockchain_application.Engine.Types.{
  Step, at_propose, at_prevote, at_commit, ConsensusState, fresh, Engine, honest, byzantine, Sys,
  is_since, with_cs, with_engine,
}
use blockchain_application.Engine.Chain.{is_proposer, log, cancel_timeout, reset_round_timeout}
use blockchain_application.Engine.Validation.{validate_block}
use blockchain_application.Engine.Votes.{Method, tally_with, send_vote_with}
use blockchain_application.Engine.Proposals.{
  build_block, block_to_propose, announce, equivocate_proposal,
}

abbrev pub is_step : Step → Step → Bool
is_step at_propose at_propose = true
is_step at_prevote at_prevote = true
is_step Step.at_precommit Step.at_precommit = true
is_step at_commit at_commit = true
is_step _ _ = false

-- `self.mempool[:] = [t for t in self.mempool if t not in block.transactions]`
unfoldable pub remove_all : List Transaction → List Transaction → List Transaction
remove_all pool included = keep (λ t. not (contains included t)) pool

-- The locks of `_on_prevote_quorum`, which only move forward.
unfoldable pub lock_on : ℕ → Block → ConsensusState → ConsensusState
lock_on round block cs =
    let locks = is_since round cs.locked_round in
    let validates = is_since round cs.valid_round in
    record cs {
      locked_block = if locks then some block else cs.locked_block;
      locked_round = if locks then some round else cs.locked_round;
      valid_block = if validates then some block else cs.valid_block;
      valid_round = if validates then some round else cs.valid_round;
    }

-- `_enter_round` after its test of `decided`, before it proposes.
unfoldable pub start_round : ℕ → Sys → Sys
start_round round s =
    reset_round_timeout (with_cs (λ cs. record cs { round = round; step = at_propose }) s)

module _ (C : Crypto) where
  -- `_on_precommit_quorum` from its log line to the new `ConsensusState`.
  unfoldable pub commit : Block → String → Sys → Sys
  commit block block_hash s =
      with_engine
        (λ e. record e {
          ledger = e.ledger ++ (block ∷ []);
          state_store = apply_each C e.state_store block.transactions;
          mempool = remove_all e.mempool block.transactions;
          height = e.height + 1;
          cs = fresh;
        })
        (cancel_timeout (log (ConsensusEvent.precommit_quorum block_hash) s))

  -- The vote that `_handle_proposal_local` sends: a locked engine supports only its own block.
  unfoldable pub choose_vote : Engine → Block → Bool → String
  choose_vote e block structurally_ok =
      let agrees : Bool = elim e.cs.locked_block [
        | none ↦ true
        | some locked ↦ Block.block_hash C block == Block.block_hash C locked
      ] in
      if structurally_ok && agrees then Block.block_hash C block else nil

  module _ (draw : ℕ → ℕ → ℕ) (enter : ℕ → Method) where
    unfoldable pub on_precommit_quorum : String → Method
    on_precommit_quorum block_hash s =
        if s.engine.cs.decided then some s else elim s.engine.cs.locked_block [
          | none ↦ some s
          | some block ↦
              if Block.block_hash C block == block_hash
              then enter 0 (commit block block_hash s)
              else some s
        ]

    unfoldable pub on_precommit_nil_quorum : ℕ → Method
    on_precommit_nil_quorum round s =
        if (round == s.engine.cs.round) && not s.engine.cs.decided
        then enter (round + 1) s
        else some s

    -- `_tally(round_, PRECOMMIT)`
    unfoldable pub tally_precommits : ℕ → Method
    tally_precommits round =
        tally_with
          (λ block_hash.
            if block_hash == nil
            then on_precommit_nil_quorum round
            else on_precommit_quorum block_hash)
          round precommit

    -- `_send_vote(PRECOMMIT, block_hash)`
    unfoldable pub send_precommit : String → Method
    send_precommit = send_vote_with C draw tally_precommits precommit

    -- The test of both reactions to a quorum of prevotes.
    unfoldable pub awaits_precommit : ℕ → Engine → Bool
    awaits_precommit round e = (round == e.cs.round) && is_step e.cs.step at_prevote

    unfoldable pub on_prevote_quorum : ℕ → String → Method
    on_prevote_quorum round block_hash s = elim (Dict.lookup round s.engine.cs.proposals) [
      | none ↦ some s
      | some block ↦
          if not (Block.block_hash C block == block_hash)
          then some s
          else (let s' =
                with_cs (lock_on round block) (log (ConsensusEvent.prevote_quorum block_hash) s) in
              if awaits_precommit round s'.engine then send_precommit block_hash s' else some s')
    ]

    unfoldable pub on_prevote_nil_quorum : ℕ → Method
    on_prevote_nil_quorum round s =
        if awaits_precommit round s.engine then send_precommit nil s else some s

    -- `_tally(round_, PREVOTE)`
    unfoldable pub tally_prevotes : ℕ → Method
    tally_prevotes round =
        tally_with
          (λ block_hash.
            if block_hash == nil
            then on_prevote_nil_quorum round
            else on_prevote_quorum round block_hash)
          round prevote

    -- `_send_vote(PREVOTE, block_hash)`
    unfoldable pub send_prevote : String → Method
    send_prevote = send_vote_with C draw tally_prevotes prevote

    unfoldable pub tally : ℕ → Phase → Method
    tally round prevote = tally_prevotes round
    tally round precommit = tally_precommits round

    unfoldable pub handle_proposal_local : Block → ℕ → Method
    handle_proposal_local block round s =
        let s₁ =
          with_cs (λ cs. record cs { proposals = Dict.set_default round block cs.proposals }) s in
        if not (round == s₁.engine.cs.round) || not (is_step s₁.engine.cs.step at_propose)
        then some s₁
        else (let (structurally_ok, s₂) = validate_block C block round s₁ in
            send_prevote (choose_vote s₂.engine block structurally_ok) s₂)

    -- `_propose` of either class.
    unfoldable pub propose : Method
    propose s = elim s.engine.class [
      | honest ↦
          let block = block_to_propose C s.engine s.engine.cs.round in
          handle_proposal_local block s.engine.cs.round (announce C draw block s)
      | byzantine ↦
          let block_a = build_block C s.engine s.engine.cs.round 0 in
          handle_proposal_local block_a s.engine.cs.round (equivocate_proposal C draw s)
    ]

  module _ (draw : ℕ → ℕ → ℕ) where
    unfoldable pub enter_round : ℕ → ℕ → Method
    enter_round zero round s = none
    enter_round (suc depth) round s =
        let s' = start_round round s in
        let proposed = propose draw (enter_round depth) s' in
        if s.engine.cs.decided then some s else if is_proposer s'.engine then proposed else some s'
