-- ===== src/Engine/Votes/Quiet.antt =====
-- Nothing happens without a quorum (`_tally` of src/consensus/engine.py).
use blockchain_application.Prelude.{
  ℕ, ◌+◌, ◌<◌, ◌≡◌, refl, String, some, List, [], ◌∷◌, arith, nat_eq, string_eq,
}
use blockchain_application.Prelude.Dict
use blockchain_application.Prelude.Dict.{Dict, NodupKeys, insert-NodupKeys, lookup-set_default}
use blockchain_application.Messages.Vote.{Phase, prevote, precommit, Vote}
use blockchain_application.Engine.Types.{Sys, quorum, no_votes}
use blockchain_application.Engine.Chain.{buckets, bucket, touch_bucket}
use blockchain_application.Engine.Votes.{Method, count_votes, react_all, tally_with}
use blockchain_application.Quorum.Votes.{votes_for, count_votes-votes_for}

pub count_votes-NodupKeys :
    (counts : Dict String ℕ) (votes : List Vote)
    → NodupKeys counts
    → NodupKeys (count_votes counts votes)
unfolding count_votes
count_votes-NodupKeys counts [] u = u
count_votes-NodupKeys counts (v ∷ votes) u =
    let n = Dict.get_or v.block_hash 0 counts + 1 in
    count_votes-NodupKeys (Dict.insert v.block_hash n counts) votes
      (insert-NodupKeys v.block_hash n counts u)

-- No entry reaches the bound.
abbrev Below : ℕ → Dict String ℕ → Type 0
Below q [] = Unit
Below q ((h, n) ∷ counts) = (n < q) × Below q counts

get_or-Below :
    (q : ℕ) (counts : Dict String ℕ)
    → NodupKeys counts
    → ((h : String) → Dict.get_or h 0 counts < q)
    → Below q counts
unfolding Dict.get_or Dict.lookup
get_or-Below q [] u small = tt
get_or-Below q ((h, n) ∷ counts) (new, u) small =
    let here : n < q = ground (arith, small h) in
    (here, get_or-Below q counts u (λ j. ground (arith, small j)))

react_all-quiet :
    (react : String → Method) (counts : Dict String ℕ) (s : Sys)
    → Below (quorum s.engine) counts
    → react_all react counts s ≡ some s
unfolding react_all
react_all-quiet react [] s small = refl
react_all-quiet react ((h, n) ∷ counts) s small =
    ground (arith, react_all-quiet react counts s small.1)

pub bucket-touch :
    (round : ℕ) (phase : Phase) (s : Sys)
    → bucket round phase (touch_bucket round s).engine.cs ≡ bucket round phase s.engine.cs
unfolding touch_bucket bucket buckets Dict.get_or
bucket-touch round prevote s =
    ground (arith, lookup-set_default round round no_votes s.engine.cs.votes)
bucket-touch round precommit s =
    ground (arith, lookup-set_default round round no_votes s.engine.cs.votes)

quorum-touch : (round : ℕ) (s : Sys) → quorum (touch_bucket round s).engine ≡ quorum s.engine
unfolding touch_bucket
quorum-touch round s = refl

-- As long as no hash has the votes of a quorum in a bucket, a tally of this bucket triggers
-- nothing, whatever its reaction would be: it only makes the entry of the round.
pub tally_with-quiet :
    (react : String → Method) (round : ℕ) (phase : Phase) (s : Sys)
    → ((h : String) → votes_for h (Dict.values (bucket round phase s.engine.cs)) < quorum s.engine)
    → tally_with react round phase s ≡ some (touch_bucket round s)
unfolding tally_with
tally_with-quiet react round phase s small =
    let votes = Dict.values (bucket round phase s.engine.cs) in
    let quiet = react_all-quiet react (count_votes [] votes) (touch_bucket round s) (
      rw (quorum-touch round s) (
        get_or-Below (quorum s.engine) (count_votes [] votes) (count_votes-NodupKeys [] votes tt)
          (λ h. omega (arith, small h, count_votes-votes_for votes h)))) in
    rw (bucket-touch round phase s) (ground (arith, quiet))
