-- ===== src/Engine/Induction/Handlers.antt =====
-- The induction principle at the entry points of `ConsensusEngine`.
use blockchain_application.Prelude.{
  ℕ, ◌+◌, ◌≡◌, String, ◌||◌, not, Option, none, some, List, ◌==◌, contains, string_eq, nat_eq,
  arith,
}
use blockchain_application.Prelude.Dict
use blockchain_application.Crypto.Signing.{Crypto}
use blockchain_application.Messages.Transaction.{Transaction}
use blockchain_application.Messages.BlockHeader.{BlockHeader}
use blockchain_application.Messages.Block.{Block}
use blockchain_application.Messages.Vote
use blockchain_application.Messages.Vote.{Phase, Vote}
use blockchain_application.Network.Types.{Message}
use blockchain_application.Engine.Types.{Sys}
use blockchain_application.Engine.Chain.{log, log_at, bucket, touch_bucket}
use blockchain_application.Engine.Validation.{accept_header}
use blockchain_application.Engine.Votes.{Method}
use blockchain_application.Engine.Rounds
use blockchain_application.Engine.Handlers
use blockchain_application.Network.Types.{proposal, vote, body_request, body_response}
use blockchain_application.Engine.Inputs.{dispatch}
use blockchain_application.Engine.Induction.{
  Hears, Invariant, Then, Then-if, Then-option, Then-list,
}
use blockchain_application.Engine.Induction.Reactions.{
  tally-Then, handle_proposal_local-Then, enter_round-Enters,
}

module _ {C : Crypto} {draw : ℕ → ℕ → ℕ} {vs : List String} {H : Phase → Vote → Type 0}
    {I : Sys → Type 0} (K : Invariant C draw vs H I) (depth : ℕ) where
  abbrev enter : ℕ → Method
  enter = Rounds.enter_round C draw depth

  local-Then :
      (block : Block) (round : ℕ) (s : Sys)
      → I s
      → Then I (Rounds.handle_proposal_local C draw enter block round s)
  local-Then = handle_proposal_local-Then K enter (enter_round-Enters K depth)

  on_vote-Then :
      (phase : Phase) (v : Vote) (s : Sys)
      → H phase v
      → I s
      → Then I (Handlers.on_vote C draw depth phase v s)
  unfolding Handlers.on_vote touch_bucket log log_at
  on_vote-Then phase v s heard i =
      let s' = touch_bucket v.round s in
      let i' = K.touched v.round s i in
      Then-if I
        (not (contains s.engine.validators v.validator) || not (v.height == s.engine.height)) _ _
        (λ _. K.logged _ s i)
        (λ inside.
          Then-if I (not (Vote.verify C v)) _ _ (λ _. K.logged _ s i)
            (λ real.
              Then-if I (Dict.has v.validator (bucket v.round phase s'.engine.cs)) _ _
                (λ _. K.logged _ s' i')
                (λ new. tally-Then K enter (enter_round-Enters K depth) v.round phase _ (
                  K.received phase v s' i' (ground arith) (ground arith) (ground arith) new
                    heard))))

  on_accepted-Then :
      (header : BlockHeader) (tx_hashes : List String) (round : ℕ) (s : Sys)
      → I s
      → Then I (Handlers.on_accepted C draw depth header tx_hashes round s)
  unfolding Handlers.on_accepted log_at
  on_accepted-Then header tx_hashes round s i =
      Then-list I (Handlers.missing C s.engine.mempool tx_hashes) _ _ (local-Then _ round s i)
        (λ h hs. K.sent _ _ _ (K.logged _ _ (K.parked _ s i)))

  on_proposal-Then :
      (header : BlockHeader) (tx_hashes : List String) (round : ℕ) (s : Sys)
      → I s
      → Then I (Handlers.on_proposal C draw depth header tx_hashes round s)
  unfolding Handlers.on_proposal log_at
  on_proposal-Then header tx_hashes round s i =
      Then-option I (accept_header C s.engine header round) _ _
        (λ _. on_accepted-Then header tx_hashes round s i) (λ _ _. K.logged _ s i)

  on_body_request-Then :
      (round : ℕ) (tx_hashes : List String) (requester : String) (s : Sys)
      → I s
      → Then I (Handlers.on_body_request C draw depth round tx_hashes requester s)
  unfolding Handlers.on_body_request log_at
  on_body_request-Then round tx_hashes requester s i = K.sent _ _ _ (K.logged _ s i)

  retry-Then :
      (round : ℕ) (pending : Option (BlockHeader × List String)) (s : Sys)
      → I s
      → Then I (Handlers.retry C draw depth round pending s)
  unfolding Handlers.retry
  retry-Then round none s i = i
  retry-Then round (some (header, tx_hashes)) s i =
      Then-list I (Handlers.missing C s.engine.mempool tx_hashes) _ _ (local-Then _ round s i)
        (λ _ _. i)

  on_body_response-Then :
      (round : ℕ) (bodies : List Transaction) (s : Sys)
      → I s
      → Then I (Handlers.on_body_response C draw depth round bodies s)
  unfolding Handlers.on_body_response log_at
  on_body_response-Then round bodies s i =
      retry-Then round _ _ (K.parked _ _ (K.logged _ _ (K.pooled _ s i)))

  pub dispatch-Then :
      (message : Message) (s : Sys)
      → Hears H message
      → I s
      → Then I (dispatch C draw depth message s)
  unfolding dispatch
  dispatch-Then (proposal header tx_hashes round) s heard =
      on_proposal-Then header tx_hashes round s
  dispatch-Then (vote phase v) s heard = on_vote-Then phase v s heard
  dispatch-Then (body_request round tx_hashes sender) s heard =
      on_body_request-Then round tx_hashes sender s
  dispatch-Then (body_response round bodies sender) s heard = on_body_response-Then round bodies s

  pub on_timeout-Then : (s : Sys) → I s → Then I (Handlers.on_timeout C draw depth s)
  unfolding Handlers.on_timeout log log_at
  on_timeout-Then s i =
      enter_round-Enters K depth (s.engine.cs.round + 1) _ (K.logged _ s i) (omega arith)

  -- `start` is called in round 0.
  pub start-Then : (s : Sys) → I s → s.engine.cs.round ≡ 0 → Then I (Handlers.start C draw depth s)
  unfolding Handlers.start
  start-Then s i h = enter_round-Enters K depth 0 s i (omega arith)
