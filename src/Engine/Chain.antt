-- ===== src/Engine/Chain.antt =====
-- The helpers of `ConsensusEngine`: the proposer's rotation, the chain's head, the logical clock,
-- logging, the round timer and the vote buckets.
use blockchain_application.Prelude.{
  ℕ, ◌+◌, ◌*◌, ◌%◌, String, Bool, Option, none, some, ◌==◌, length, get_elem?, last?, string_eq,
  nat_eq,
}
use blockchain_application.Prelude.Dict
use blockchain_application.Prelude.Dict.{Dict}
use blockchain_application.Crypto.Signing.{Crypto}
use blockchain_application.Messages.Block
use blockchain_application.Messages.Vote.{Phase, Vote}
use blockchain_application.Clock
use blockchain_application.Network
use blockchain_application.Network.Types.{ConsensusEvent, LogEntry, Callback}
use blockchain_application.Engine.Types.{
  Buckets, no_votes, ConsensusState, Engine, Sys, bucket_of, set_bucket, with_cs, with_network,
}

abbrev pub text_or : String → Option String → String
text_or d none = d
text_or d (some s) = s

-- `GENESIS_TIME`
abbrev pub genesis_time : ℕ
genesis_time = 1_700_000_000

-- A validator set is never empty: it holds at least the engine's own node.
unfoldable pub proposer_for : Engine → ℕ → ℕ → String
proposer_for e height round =
    text_or "" (get_elem? e.validators ((height + round) % length e.validators))

unfoldable pub is_proposer : Engine → Bool
is_proposer e = proposer_for e e.height e.cs.round == e.node_id

-- `_logical_timestamp`
unfoldable pub logical_timestamp : Engine → ℕ → ℕ
logical_timestamp e round = genesis_time + e.height * 1000 + round

unfoldable pub parent_hash : Crypto → Engine → String
parent_hash C e = elim (last? e.ledger) [ none ↦ "GENESIS" | some block ↦ Block.block_hash C block ]

-- `_log` at the engine's height and a given round.
unfoldable pub log_at : ℕ → ConsensusEvent → Sys → Sys
log_at round event s =
    with_network
      (Network.append_log
        (LogEntry.consensus s.network.clock.now s.engine.height round event s.engine.node_id))
      s

-- `_log` at the engine's own round.
unfoldable pub log : ConsensusEvent → Sys → Sys
unfolding log_at
log event s = log_at s.engine.cs.round event s

-- `self.network.clock.cancel(self._timeout_event)`
unfoldable pub cancel_timeout : Sys → Sys
cancel_timeout s =
    with_network (λ n. record n { clock = Clock.cancel s.engine.timeout_event n.clock }) s

unfoldable pub reset_round_timeout : Sys → Sys
unfolding cancel_timeout
reset_round_timeout s =
    let network = (cancel_timeout s).network in
    let clock =
      Clock.schedule s.engine.round_timeout (Callback.timeout s.engine.node_id) network.clock in
    record {
      engine = record (s.engine) { timeout_event = some clock.seq };
      network = record network { clock = clock };
    }

unfoldable pub buckets : ℕ → ConsensusState → Buckets
buckets round cs = Dict.get_or round no_votes cs.votes

-- The dict that `vote_bucket` returns.
unfoldable pub bucket : ℕ → Phase → ConsensusState → Dict String Vote
unfolding buckets
bucket round phase cs = bucket_of phase (buckets round cs)

-- The entry that `vote_bucket` makes for a new round.
unfoldable pub touch_bucket : ℕ → Sys → Sys
touch_bucket round = with_cs (λ cs. record cs { votes = Dict.set_default round no_votes cs.votes })

-- `bucket[validator] = vote`
unfoldable pub put_vote : ℕ → Phase → String → Vote → Sys → Sys
unfolding buckets bucket
put_vote round phase validator vote = with_cs λ cs. record cs {
  votes =
      Dict.insert round
        (set_bucket phase (Dict.insert validator vote (bucket round phase cs)) (buckets round cs))
        cs.votes;
}
