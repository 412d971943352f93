-- ===== src/Engine/Buckets.antt =====
-- What the vote buckets of `ConsensusState` hold after a vote was put, and at the beginning of a
-- height (src/consensus/engine.py).
use blockchain_application.Prelude.{
  ℕ, ◌≡◌, refl, String, some, List, [], arith, ◌⊎◌, string_eq, nat_eq,
}
use blockchain_application.Prelude.Dict
use blockchain_application.Prelude.Dict.{Dict, lookup-insert, lookup-set_default, insert-NodupKeys}
use blockchain_application.Messages.Vote.{Phase, prevote, precommit, Vote}
use blockchain_application.Engine.Types.{ConsensusState, no_votes, fresh}
use blockchain_application.Engine.Chain.{buckets, bucket}
use blockchain_application.Engine.Recorded.{with_vote}
use blockchain_application.Quorum.Votes.{IsBucket}

-- A bucket after a vote was put: that of its round and phase has it, and the others are as before.
pub bucket-with_vote :
    (cs : ConsensusState) (r : ℕ) (p : Phase) (a : String) (vote : Vote) (round : ℕ) (phase : Phase)
    → (bucket round phase (with_vote r p a vote cs) ≡ bucket round phase cs)
      ⊎ ((round ≡ r)
          × (phase ≡ p)
          × (bucket round phase (with_vote r p a vote cs)
              ≡ Dict.insert a vote (bucket round phase cs)))
unfolding bucket buckets Dict.get_or
bucket-with_vote cs r prevote a vote round prevote = ground (
  arith,
  lookup-insert round r
      (record (buckets r cs) { prevotes = Dict.insert a vote (buckets r cs).prevotes }) cs.votes,
)
bucket-with_vote cs r prevote a vote round precommit = ground (
  arith,
  lookup-insert round r
      (record (buckets r cs) { prevotes = Dict.insert a vote (buckets r cs).prevotes }) cs.votes,
)
bucket-with_vote cs r precommit a vote round prevote = ground (
  arith,
  lookup-insert round r
      (record (buckets r cs) { precommits = Dict.insert a vote (buckets r cs).precommits })
      cs.votes,
)
bucket-with_vote cs r precommit a vote round precommit = ground (
  arith,
  lookup-insert round r
      (record (buckets r cs) { precommits = Dict.insert a vote (buckets r cs).precommits })
      cs.votes,
)

pub bucket-touch :
    (cs : ConsensusState) (r round : ℕ) (phase : Phase)
    → bucket round phase (record cs { votes = Dict.set_default r no_votes cs.votes })
      ≡ bucket round phase cs
unfolding bucket buckets Dict.get_or
bucket-touch cs r round prevote = ground (arith, lookup-set_default round r no_votes cs.votes)
bucket-touch cs r round precommit = ground (arith, lookup-set_default round r no_votes cs.votes)

pub bucket-fresh : (round : ℕ) (phase : Phase) → bucket round phase fresh ≡ []
unfolding bucket buckets Dict.get_or
bucket-fresh round prevote = refl
bucket-fresh round precommit = refl

pub IsBucket-nil : (validators : List String) → IsBucket validators []
unfolding Dict.lookup
IsBucket-nil validators = record { once = tt; members = λ a v h. cc }

pub nothing-stored : (a : String) (v : Vote) → Dict.lookup a [] ≡ some v → ⊥
unfolding Dict.lookup
nothing-stored a v h = cc

pub same_votes :
    (x y : ConsensusState)
    → y.votes ≡ x.votes
    → (round : ℕ) (phase : Phase) → bucket round phase y ≡ bucket round phase x
unfolding bucket buckets
same_votes x y e round phase = rw e
