-- ===== src/Engine/Origin.antt =====
-- Where the recorded votes come from (`on_vote` and `_send_vote` of src/consensus/engine.py).
use blockchain_application.Prelude.{
  ℕ, ◌≡◌, inl, inr, String, false, some, arith, ◌==◌, string_eq, nat_eq, Bool-cases,
}
use blockchain_application.Prelude.Dict
use blockchain_application.Prelude.Dict.{Dict, lookup-insert}
use blockchain_application.Messages.Vote.{Phase, Vote}
use blockchain_application.Engine.Types.{fresh, Engine}
use blockchain_application.Engine.Chain.{bucket}
use blockchain_application.Engine.Recorded.{with_vote}
use blockchain_application.Engine.Buckets.{
  bucket-with_vote, bucket-fresh, same_votes, nothing-stored,
}

-- `H` holds of every recorded vote but the node's own, with the phase that it is recorded for.
abbrev pub Origin : (Phase → Vote → Type 0) → Engine → Type 0
Origin H e =
    (round : ℕ) (phase : Phase) (a : String) (v : Vote)
    → Dict.lookup a (bucket round phase e.cs) ≡ some v
    → (a == e.node_id) ≡ false
    → H phase v

module _ (H : Phase → Vote → Type 0) where
  origin-insert :
      (node_id : String) (phase : Phase) (d : Dict String Vote) (b : String) (vote : Vote)
      → ((b == node_id) ≡ false → H phase vote)
      → ((a : String) (v : Vote) → Dict.lookup a d ≡ some v → (a == node_id) ≡ false → H phase v)
      → (a : String) (v : Vote) → Dict.lookup a (Dict.insert b vote d) ≡ some v
      → (a == node_id) ≡ false
      → H phase v
  origin-insert node_id phase d b vote new old a v h other = elim (Bool-cases (a == b)) [
    | inl same ↦
        let is : v ≡ vote = ground (arith, lookup-insert a b vote d) in rw is (new (ground arith))
    | inr different ↦ old a v (ground (arith, lookup-insert a b vote d)) other
  ]

  -- A recorded vote that is the node's own, or of which `H` holds.
  pub Origin-vote :
      (d e : Engine) (r : ℕ) (p : Phase) (b : String) (vote : Vote)
      → e.node_id ≡ d.node_id
      → e.cs.votes ≡ (with_vote r p b vote d.cs).votes
      → ((b == d.node_id) ≡ false → H p vote)
      → Origin H d
      → Origin H e
  Origin-vote d e r p b vote id votes new old round phase a v h other =
      let at = rw (same_votes (with_vote r p b vote d.cs) e.cs votes round phase) at h in
      let foreign : (a == d.node_id) ≡ false = rw id at other in
      elim (bucket-with_vote d.cs r p b vote round phase) [
        | inl kept ↦ old round phase a v (rw kept at at) foreign
        | inr (_, here, inserted) ↦
            origin-insert d.node_id phase (bucket round phase d.cs) b vote (rw here new)
              (old round phase) a v (rw inserted at at) foreign
      ]

  pub Origin-fresh : (e : Engine) → e.cs ≡ fresh → Origin H e
  Origin-fresh e new round phase a v h other =
      absurd (nothing-stored a v (rw (new, bucket-fresh round phase) at h))
