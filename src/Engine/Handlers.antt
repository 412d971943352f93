-- ===== src/Engine/Handlers.antt =====
-- The entry points of `ConsensusEngine`: the message handlers, the round timer and `start`.
use blockchain_application.Prelude.{
  ℕ, ◌+◌, String, ◌||◌, not, Option, none, some, List, [], ◌∷◌, ◌++◌, map, if◌then◌else◌, ◌==◌,
  contains, keep, length, string_eq, nat_eq,
}
use blockchain_application.Prelude.Dict
use blockchain_application.Prelude.Dict.{Dict}
use blockchain_application.Crypto.Signing.{Crypto}
use blockchain_application.Messages.Transaction
use blockchain_application.Messages.Transaction.{Transaction}
use blockchain_application.Messages.BlockHeader.{BlockHeader}
use blockchain_application.Messages.Vote
use blockchain_application.Messages.Vote.{Phase, Vote}
use blockchain_application.Network.Types.{Message, ConsensusEvent}
use blockchain_application.Engine.Types.{with_cs, with_engine}
use blockchain_application.Engine.Chain.{log, log_at, bucket, touch_bucket, put_vote}
use blockchain_application.Engine.Validation.{accept_header}
use blockchain_application.Engine.Votes.{Method, send_to}
use blockchain_application.Engine.Rounds.{tally, handle_proposal_local, enter_round}

module _ (C : Crypto) where
  index_from : Dict String Transaction → List Transaction → Dict String Transaction
  index_from index [] = index
  index_from index (t ∷ ts) = index_from (Dict.insert (Transaction.tx_hash C t) t index) ts

  -- `{t.tx_hash(): t for t in self.mempool}`
  unfoldable pub tx_by_hash : List Transaction → Dict String Transaction
  unfolding index_from
  tx_by_hash mempool = index_from [] mempool

  -- The hashes whose transaction is not in the mempool.
  unfoldable pub missing : List Transaction → List String → List String
  missing mempool tx_hashes = keep (λ h. not (Dict.has h (tx_by_hash mempool))) tx_hashes

  found : Dict String Transaction → List String → List Transaction
  found index [] = []
  found index (h ∷ hs) = elim (Dict.lookup h index) [
    | none ↦ found index hs
    | some t ↦ t ∷ found index hs
  ]

  -- `[tx_by_hash[h] for h in tx_hashes if h in tx_by_hash]`
  unfoldable pub collect : List Transaction → List String → List Transaction
  unfolding found
  collect mempool tx_hashes = found (tx_by_hash mempool) tx_hashes

  -- The loop of `on_body_response`: the mempool with the new bodies, and how many were added.
  unfoldable pub absorb : List String → List Transaction → List Transaction → List Transaction × ℕ
  absorb known mempool [] = (mempool, 0)
  absorb known mempool (tx ∷ bodies) =
      let skipped = absorb known mempool bodies in
      let h = Transaction.tx_hash C tx in
      let (mempool', added) = absorb (h ∷ known) (mempool ++ (tx ∷ [])) bodies in
      if not (Transaction.verify C tx) || contains known h then skipped else (mempool', added + 1)

  module _ (draw : ℕ → ℕ → ℕ) (depth : ℕ) where
    -- What follows once the header was accepted.
    unfoldable pub on_accepted : BlockHeader → List String → ℕ → Method
    on_accepted header tx_hashes round s = elim (missing s.engine.mempool tx_hashes) [
      | [] ↦
          handle_proposal_local C draw (enter_round C draw depth)
            (record { header = header; transactions = collect s.engine.mempool tx_hashes }) round s
      | h ∷ hs ↦
          let absent = h ∷ hs in
          some (
            send_to C draw (header.proposer ∷ [])
              (Message.body_request round absent s.engine.node_id)
              (log_at round (ConsensusEvent.body_requested (length absent) header.proposer) (
                with_cs
                  (λ cs. record cs {
                    pending_headers = Dict.insert round (header, tx_hashes) cs.pending_headers;
                  })
                  s)))
    ]

    unfoldable pub on_proposal : BlockHeader → List String → ℕ → Method
    on_proposal header tx_hashes round s = elim (accept_header C s.engine header round) [
      | some reason ↦ some (log_at round (ConsensusEvent.header_rejected header.proposer reason) s)
      | none ↦ on_accepted header tx_hashes round s
    ]

    unfoldable pub on_body_request : ℕ → List String → String → Method
    on_body_request round tx_hashes requester s =
        let bodies = collect s.engine.mempool tx_hashes in
        some (
          send_to C draw (requester ∷ []) (Message.body_response round bodies s.engine.node_id)
            (log_at round (ConsensusEvent.body_sent (length bodies) requester) s))

    -- The retry of a parked header, which has been taken out.
    unfoldable pub retry : ℕ → Option (BlockHeader × List String) → Method
    retry round none s = some s
    retry round (some (header, tx_hashes)) s = elim (missing s.engine.mempool tx_hashes) [
      | [] ↦
          handle_proposal_local C draw (enter_round C draw depth)
            (record { header = header; transactions = collect s.engine.mempool tx_hashes }) round s
      | _ ∷ _ ↦ some s
    ]

    unfoldable pub on_body_response : ℕ → List Transaction → Method
    on_body_response round bodies s =
        let known = map (Transaction.tx_hash C) s.engine.mempool in
        let (mempool, added) = absorb known s.engine.mempool bodies in
        let s₁ =
          log_at round (ConsensusEvent.body_received added (length bodies))
            (with_engine (λ e. record e { mempool = mempool }) s) in
        retry round (Dict.lookup round s₁.engine.cs.pending_headers)
          (with_cs (λ cs. record cs { pending_headers = Dict.erase round cs.pending_headers }) s₁)

    -- `phase` is that of the message's type; the phase in the vote is covered by its signature.
    unfoldable pub on_vote : Phase → Vote → Method
    on_vote phase vote s =
        if not (contains s.engine.validators vote.validator) || not (vote.height == s.engine.height)
        then some (log (ConsensusEvent.vote_outside phase vote.validator vote.height) s)
        else if not (Vote.verify C vote)
        then some (log (ConsensusEvent.vote_forged phase) s)
        else (let s' = touch_bucket vote.round s in
            if Dict.has vote.validator (bucket vote.round phase s'.engine.cs)
            then some (log (ConsensusEvent.vote_duplicated phase) s')
            else tally C draw (enter_round C draw depth) vote.round phase
                (put_vote vote.round phase vote.validator vote s'))

    -- `_round_timeout`
    unfoldable pub on_timeout : Method
    on_timeout s =
        enter_round C draw depth (s.engine.cs.round + 1) (log ConsensusEvent.round_timeout s)

    unfoldable pub start : Method
    start s = enter_round C draw depth 0 s
