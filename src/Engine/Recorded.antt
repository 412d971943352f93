-- ===== src/Engine/Recorded.antt =====
-- The vote that an engine has recorded for a validator (`votes` of `ConsensusState` in
-- src/consensus/engine.py).
use blockchain_application.Prelude.{ℕ, ◌≡◌, String, false, Option, some, arith, string_eq, nat_eq}
use blockchain_application.Prelude.Dict
use blockchain_application.Prelude.Dict.{Dict, lookup-insert, lookup-set_default}
use blockchain_application.Messages.Vote.{Phase, prevote, precommit, Vote}
use blockchain_application.Engine.Types.{ConsensusState, no_votes, set_bucket}
use blockchain_application.Engine.Chain.{buckets, bucket}

-- The vote that is recorded for a validator in a round and phase.
unfoldable pub recorded : ConsensusState → ℕ → Phase → String → Option Vote
recorded cs round phase validator = Dict.lookup validator (bucket round phase cs)

pub recorded-touch :
    (cs : ConsensusState) (r round : ℕ) (phase : Phase) (a : String)
    → recorded (record cs { votes = Dict.set_default r no_votes cs.votes }) round phase a
      ≡ recorded cs round phase a
unfolding recorded bucket buckets Dict.get_or
recorded-touch cs r round prevote a = ground (arith, lookup-set_default round r no_votes cs.votes)
recorded-touch cs r round precommit a = ground (arith, lookup-set_default round r no_votes cs.votes)

-- The consensus state with one more vote, as `put_vote` leaves it.
abbrev pub with_vote : ℕ → Phase → String → Vote → ConsensusState → ConsensusState
with_vote round phase validator vote cs = record cs {
  votes =
      Dict.insert round
        (set_bucket phase (Dict.insert validator vote (bucket round phase cs)) (buckets round cs))
        cs.votes;
}

-- A recorded vote is kept by another vote that finds its own place free.
pub recorded-with_vote :
    (cs : ConsensusState) (r : ℕ) (p : Phase) (b : String) (vote : Vote)
    → Dict.has b (bucket r p cs) ≡ false
    → (round : ℕ) (phase : Phase) (a : String) (v : Vote) → recorded cs round phase a ≡ some v
    → recorded (with_vote r p b vote cs) round phase a ≡ some v
unfolding recorded bucket buckets Dict.get_or Dict.has
recorded-with_vote cs r prevote b vote free round prevote a v h = ground (
  arith,
  lookup-insert round r
      (record (buckets r cs) { prevotes = Dict.insert b vote (buckets r cs).prevotes }) cs.votes,
  lookup-insert a b vote (buckets r cs).prevotes,
)
recorded-with_vote cs r prevote b vote free round precommit a v h = ground (
  arith,
  lookup-insert round r
      (record (buckets r cs) { prevotes = Dict.insert b vote (buckets r cs).prevotes }) cs.votes,
)
recorded-with_vote cs r precommit b vote free round prevote a v h = ground (
  arith,
  lookup-insert round r
      (record (buckets r cs) { precommits = Dict.insert b vote (buckets r cs).precommits })
      cs.votes,
)
recorded-with_vote cs r precommit b vote free round precommit a v h = ground (
  arith,
  lookup-insert round r
      (record (buckets r cs) { precommits = Dict.insert b vote (buckets r cs).precommits })
      cs.votes,
  lookup-insert a b vote (buckets r cs).precommits,
)

pub recorded-with_vote_self :
    (cs : ConsensusState) (r : ℕ) (p : Phase) (a : String) (vote : Vote)
    → recorded (with_vote r p a vote cs) r p a ≡ some vote
unfolding recorded bucket buckets Dict.get_or
recorded-with_vote_self cs r prevote a vote = ground (
  arith,
  lookup-insert r r
      (record (buckets r cs) { prevotes = Dict.insert a vote (buckets r cs).prevotes }) cs.votes,
  lookup-insert a a vote (buckets r cs).prevotes,
)
recorded-with_vote_self cs r precommit a vote = ground (
  arith,
  lookup-insert r r
      (record (buckets r cs) { precommits = Dict.insert a vote (buckets r cs).precommits })
      cs.votes,
  lookup-insert a a vote (buckets r cs).precommits,
)

pub recorded-same_votes :
    (x y : ConsensusState)
    → y.votes ≡ x.votes
    → (round : ℕ) (phase : Phase) (a : String) → recorded y round phase a ≡ recorded x round phase a
unfolding recorded bucket buckets
recorded-same_votes x y e round phase a = rw e
