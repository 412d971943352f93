-- ===== src/Engine/Termination/Alone.antt =====
-- The first vote of a round, which is alone in its bucket, calls no further round.
use blockchain_application.Prelude.{
  ℕ, ◌≤◌, ◌<◌, ◌≡◌, refl, ap, ◌∙◌, String, none, [], ◌∷◌, arith, ltb, string_eq, nat_eq, length,
}
use blockchain_application.Prelude.Dict
use blockchain_application.Prelude.Dict.{lookup-insert}
use blockchain_application.Crypto.Signing.{Crypto}
use blockchain_application.Messages.Vote.{prevote, Vote}
use blockchain_application.Engine.Types.{no_votes, Sys, quorum}
use blockchain_application.Engine.Chain.{buckets, bucket, touch_bucket, put_vote, log, log_at}
use blockchain_application.Engine.Votes.{
  Method, tally_with, cast_vote, equivocate_vote, send_vote_with, send_to, broadcast, own_vote,
}
use blockchain_application.Engine.Votes.Quiet.{bucket-touch}
use blockchain_application.Engine.Rounds
use blockchain_application.Engine.Termination.{
  Returns, Returns-if, Returns-class, pending, pending-insert, pending-set_default,
}

pub bucket-put :
    (k : ℕ) (a : String) (v : Vote) (s : Sys)
    → bucket k prevote (put_vote k prevote a v s).engine.cs
      ≡ Dict.insert a v (bucket k prevote s.engine.cs)
unfolding put_vote bucket buckets Dict.get_or
bucket-put k a v s = ground (
  arith,
  lookup-insert k k
      (record (buckets k s.engine.cs) { prevotes = Dict.insert a v (bucket k prevote s.engine.cs) })
      s.engine.cs.votes,
)

pub bucket_of_votes :
    (k : ℕ) (s t : Sys)
    → s.engine.cs.votes ≡ t.engine.cs.votes
    → bucket k prevote s.engine.cs ≡ bucket k prevote t.engine.cs
unfolding bucket buckets
bucket_of_votes k s t same = rw same

pub bucket-empty :
    (k : ℕ) (s : Sys) → Dict.lookup k s.engine.cs.votes ≡ none → bucket k prevote s.engine.cs ≡ []
unfolding bucket buckets Dict.get_or
bucket-empty k s free = ground arith

-- A round's first vote.
pub first_vote : Vote → Sys → Sys
first_vote v s =
    put_vote s.engine.cs.round prevote s.engine.node_id v (touch_bucket s.engine.cs.round s)

pub bucket-first :
    (v : Vote) (s u : Sys)
    → Dict.lookup s.engine.cs.round s.engine.cs.votes ≡ none
    → u.engine.cs.votes ≡ (first_vote v s).engine.cs.votes
    → bucket s.engine.cs.round prevote (touch_bucket s.engine.cs.round u).engine.cs
      ≡ (s.engine.node_id, v) ∷ []
unfolding Dict.insert first_vote
bucket-first v s u free votes =
    let k = s.engine.cs.round in
    bucket-touch k prevote u
    ∙ bucket_of_votes k u (first_vote v s) votes
    ∙ bucket-put k s.engine.node_id v (touch_bucket k s)
    ∙ ap (Dict.insert s.engine.node_id v) (bucket-touch k prevote s ∙ bucket-empty k s free)

-- What stays as it was when a round gets its first vote.
pub record Alone (s t : Sys) : Type 0 where
  pub round : t.engine.cs.round ≡ s.engine.cs.round
  pub sets : t.engine.validators ≡ s.engine.validators
  pub later :
      (r : ℕ) → s.engine.cs.round < r → pending r t.engine.cs.votes ≡ pending r s.engine.cs.votes

pub Alone-touch : (s t : Sys) → Alone s t → Alone s (touch_bucket s.engine.cs.round t)
unfolding touch_bucket
Alone-touch s t a = record {
  round = a.round;
  sets = a.sets;
  later =
      λ r lt. pending-set_default r s.engine.cs.round no_votes t.engine.cs.votes lt ∙ a.later r lt;
}

pub Alone-first :
    (v : Vote) (s u : Sys)
    → u.engine.cs.votes ≡ (first_vote v s).engine.cs.votes
    → u.engine.cs.round ≡ s.engine.cs.round
    → u.engine.validators ≡ s.engine.validators
    → Alone s u
unfolding first_vote put_vote touch_bucket
Alone-first v s u votes round sets = record {
  round = round;
  sets = sets;
  later = λ r lt.
      ap (pending r) votes
      ∙ pending-insert r s.engine.cs.round _ _ lt
      ∙ pending-set_default r s.engine.cs.round no_votes s.engine.cs.votes lt;
}

module _ (C : Crypto) (draw : ℕ → ℕ → ℕ) (enter : ℕ → Method) where
  -- A tally of one vote stops there when the quorum is at least two.
  pub tally_prevotes-Alone :
      (v : Vote) (s u : Sys)
      → Dict.lookup s.engine.cs.round s.engine.cs.votes ≡ none
      → 2 ≤ quorum s.engine
      → u.engine.cs.votes ≡ (first_vote v s).engine.cs.votes
      → u.engine.cs.round ≡ s.engine.cs.round
      → u.engine.validators ≡ s.engine.validators
      → Returns (Alone s) (Rounds.tally_prevotes C draw enter s.engine.cs.round u)
  unfolding Rounds.tally_prevotes tally_with
  tally_prevotes-Alone v s u free many votes round sets =
      let k = s.engine.cs.round in
      let one : length (bucket k prevote (touch_bucket k u).engine.cs) ≡ 1 =
        ap length (bucket-first v s u free votes) in
      let same : quorum u.engine ≡ quorum s.engine = rw sets in
      Returns-if (Alone s)
        (ltb (length (bucket k prevote (touch_bucket k u).engine.cs)) (quorum u.engine)) _ _
        (λ _. Alone-touch s u (Alone-first v s u votes round sets)) (λ full. absurd (ground arith))

  pub send_prevote-Alone :
      (h : String) (s : Sys)
      → Dict.lookup s.engine.cs.round s.engine.cs.votes ≡ none
      → 2 ≤ quorum s.engine
      → Returns (Alone s) (Rounds.send_prevote C draw enter h s)
  unfolding Rounds.send_prevote send_vote_with cast_vote equivocate_vote broadcast send_to log
      log_at first_vote touch_bucket put_vote
  send_prevote-Alone h s free many =
      let s' = touch_bucket s.engine.cs.round s in
      let v = own_vote C s'.engine prevote h in
      Returns-if (Alone s)
        (Dict.has s.engine.node_id (bucket s.engine.cs.round prevote s'.engine.cs)) _ _
        (λ _. Alone-touch s s (record { round = refl; sets = refl; later = λ r lt. refl }))
        (λ _.
          Returns-class (Alone s) s.engine.class _ _
            (tally_prevotes-Alone v s (cast_vote C draw prevote h s') free many refl refl refl)
            (tally_prevotes-Alone v s (equivocate_vote C draw prevote h s') free many refl refl
              refl))
