-- ===== src/Engine/Induction/Tallies.antt =====
-- The induction principle at `_tally` and `_send_vote`. One tally reacts to one quorum at most, as
-- long as a bucket is smaller than two quorums.
use blockchain_application.Prelude.{
  ℕ, ◌+◌, ◌⊎◌, Bool-cases, length-map, ◌≤◌, ◌≡◌, refl, ap, String, some, List, [], ◌∷◌, ltb, length,
  string_eq, nat_eq, inl, inr, arith,
}
use blockchain_application.Prelude.Dict
use blockchain_application.Prelude.Dict.{Dict, NodupKeys}
use blockchain_application.Crypto.Signing.{Crypto}
use blockchain_application.Messages.Vote.{Phase, Vote}
use blockchain_application.Engine.Types.{Sys, quorum, quorum_of}
use blockchain_application.Engine.Chain.{bucket, touch_bucket}
use blockchain_application.Engine.Votes.{Method, count_votes, react_all, tally_with, send_vote_with}
use blockchain_application.Engine.Induction.{
  Evidence, Invariant, Then, Then-bind, Then-if, Then-class,
}
use blockchain_application.Quorum.Votes.{votes_for, count_votes-votes_for}
use blockchain_application.Engine.Votes.Quiet.{count_votes-NodupKeys}

-- The sum of the counts.
abbrev total : Dict String ℕ → ℕ
total [] = 0
total ((_, n) ∷ counts) = n + total counts

total-insert :
    (h : String) (counts : Dict String ℕ)
    → total (Dict.insert h (Dict.get_or h 0 counts + 1) counts) ≡ total counts + 1
unfolding Dict.insert Dict.get_or Dict.lookup
total-insert h [] = omega arith
total-insert h ((j, n) ∷ counts) = ground (arith, total-insert h counts)

total-count_votes :
    (counts : Dict String ℕ) (votes : List Vote)
    → total (count_votes counts votes) ≡ total counts + length votes
unfolding count_votes
total-count_votes counts [] = omega arith
total-count_votes counts (v ∷ votes) = omega (
  arith,
  total-count_votes (Dict.insert v.block_hash (Dict.get_or v.block_hash 0 counts + 1) counts) votes,
  total-insert v.block_hash counts,
)

-- Each entry is the number of votes for its hash.
abbrev Counts : List Vote → Dict String ℕ → Type 0
Counts votes [] = Unit
Counts votes ((h, n) ∷ counts) = (n ≡ votes_for h votes) × Counts votes counts

Counts-of :
    (votes : List Vote) (counts : Dict String ℕ)
    → NodupKeys counts
    → ((h : String) (n : ℕ) → Dict.lookup h counts ≡ some n → n ≡ votes_for h votes)
    → Counts votes counts
unfolding Dict.lookup
Counts-of votes [] u all = tt
Counts-of votes ((h, n) ∷ counts) (new, u) all =
    (all h n (ground arith), Counts-of votes counts u (λ j m e. all j m (ground arith)))

count_votes-Counts : (votes : List Vote) → Counts votes (count_votes [] votes)
unfolding Dict.get_or
count_votes-Counts votes =
    Counts-of votes (count_votes [] votes) (count_votes-NodupKeys [] votes tt)
      (λ h n e. ground (arith, count_votes-votes_for votes h))

module _ {C : Crypto} {draw : ℕ → ℕ → ℕ} {vs : List String} {H : Phase → Vote → Type 0}
    {I : Sys → Type 0} (K : Invariant C draw vs H I) where
  -- The state of the loop: no reaction yet, or a quorum's votes are used up.
  abbrev Unspent : List Vote → Dict String ℕ → Sys → Sys → Type 0
  Unspent votes counts s₀ s =
      ((s ≡ s₀) × (total counts ≤ length votes))
      ⊎ (quorum_of (length vs) + total counts ≤ length votes)

  -- The hash whose count reaches a quorum in the loop has it in the bucket at this moment.
  Unspent-Evidence :
      (round : ℕ) (phase : Phase) (h : String) (n : ℕ) (counts : Dict String ℕ) (s₀ s : Sys)
      → I s₀
      → I s
      → quorum s.engine ≤ n
      → let votes = Dict.values (bucket round phase s₀.engine.cs) in
        n ≡ votes_for h votes → Unspent votes ((h, n) ∷ counts) s₀ s → Evidence vs I round phase h s
  Unspent-Evidence round phase h n counts s₀ s i₀ i enough exact unspent small =
      let votes = Dict.values (bucket round phase s₀.engine.cs) in
      let full : quorum_of (length vs) ≤ n =
        rw (← ap (λ l. quorum_of (length l)) (K.set s i)) enough in
      elim unspent [
        | inl (same, _) ↦ rw same (omega arith)
        | inr spent ↦
            absurd (
              omega
                (arith, small s₀ i₀, length-map (bucket round phase s₀.engine.cs) (λ (_, v). v)))
      ]

  react_all-Then :
      (react : String → Method) (round : ℕ) (phase : Phase) (s₀ : Sys)
      → I s₀
      → ((h : String) (s : Sys) → I s → Evidence vs I round phase h s → Then I (react h s))
      → (counts : Dict String ℕ) (s : Sys)
      → let votes = Dict.values (bucket round phase s₀.engine.cs) in
        Counts votes counts → Unspent votes counts s₀ s → I s → Then I (react_all react counts s)
  unfolding react_all
  react_all-Then react round phase s₀ i₀ k [] s c unspent i = i
  react_all-Then react round phase s₀ i₀ k ((h, n) ∷ counts) s (exact, c) unspent i =
      elim (Bool-cases (ltb n (quorum s.engine))) [
        | inl few ↦ rw few (react_all-Then react round phase s₀ i₀ k counts s c (ground arith) i)
        | inr enough ↦
            let full : quorum s.engine ≤ n = ground arith in
            let same = ap (λ l. quorum_of (length l)) (K.set s i) in
            rw enough (
              Then-bind I I (react h s) (react_all react counts)
                (k h s i (Unspent-Evidence round phase h n counts s₀ s i₀ i full exact unspent))
                (λ t j. react_all-Then react round phase s₀ i₀ k counts t c (inr (ground arith)) j))
      ]

  pub tally_with-Then :
      (react : String → Method) (round : ℕ) (phase : Phase)
      → ((h : String) (s : Sys) → I s → Evidence vs I round phase h s → Then I (react h s))
      → (s : Sys) → I s
      → Then I (tally_with react round phase s)
  unfolding tally_with
  tally_with-Then react round phase k s i =
      let s' = touch_bucket round s in
      let votes = Dict.values (bucket round phase s'.engine.cs) in
      Then-if I (ltb (length (bucket round phase s'.engine.cs)) (quorum s.engine)) (some s') _
        (λ _. K.touched round s i)
        (λ _.
          react_all-Then react round phase s' (K.touched round s i) k (count_votes [] votes) s'
            (count_votes-Counts votes) (inl (refl, omega (arith, total-count_votes [] votes)))
            (K.touched round s i))

  pub send_vote_with-Then :
      (tally : ℕ → Method)
      → ((round : ℕ) (s : Sys) → I s → Then I (tally round s))
      → (phase : Phase) (block_hash : String) (s : Sys) → I s
      → Then I (send_vote_with C draw tally phase block_hash s)
  unfolding send_vote_with touch_bucket
  send_vote_with-Then tally k phase block_hash s i =
      let round = s.engine.cs.round in
      let s' = touch_bucket round s in
      let i' = K.touched round s i in
      Then-if I (Dict.has s.engine.node_id (bucket round phase s'.engine.cs)) (some s') _ (λ _. i')
        (λ new.
          Then-class I s.engine.class _ _ (k round _ (K.cast phase block_hash s' i' new))
            (k round _ (K.equivocated phase block_hash s' i' new)))
