-- ===== src/Quorum.antt =====
-- The arithmetic of quorums (`f` and `quorum` of `ConsensusEngine`), and what two quorums share.
pub mod Counting
pub mod Votes
use blockchain_application.Prelude.{
  ℕ, zero, suc, ◌+◌, ◌-◌, ◌*◌, ◌/◌, ◌%◌, ◌≤◌, ◌<◌, ◌≡◌, ◌↔◌, refl, String, Bool, true, false, ◌&&◌,
  not, List, [], ◌∷◌, length, arith, Option, none, some, Option-cases, ◌∙◌, sym, string_eq, inl,
  inr,
}
use blockchain_application.Prelude.Dict
use blockchain_application.Prelude.Dict.{Dict}
use blockchain_application.Messages.Vote.{Vote}
use Counting.{count, count-and, count-without, some_of_count, Finds}
use Votes.{votes_for, voted_for, IsBucket, votes_for-le}
use blockchain_application.Engine.Types.{faults, quorum_of}

-- For any positive number of validators, two quorums must overlap in more than `f` of them exactly
-- when that number is one more than a multiple of three.
pub quorums_overlap_iff :
    (n : ℕ) → 0 < n → (n + (faults n + 1) ≤ quorum_of n + quorum_of n) ↔ (n % 3 ≡ 1)
quorums_overlap_iff n pos = (λ h. omega arith, λ h. omega arith)

-- Among 3f + 1 validators of which at most `f` are Byzantine, any two quorums share an honest one.
pub quorums_share_honest :
    (validators : List String) (p q byzantine : String → Bool)
    → length validators % 3 ≡ 1
    → count byzantine validators ≤ faults (length validators)
    → quorum_of (length validators) ≤ count p validators
    → quorum_of (length validators) ≤ count q validators
    → Finds (λ v. (p v && q v) && not (byzantine v)) validators
quorums_share_honest validators p q byzantine shape few hp hq =
    some_of_count (λ v. (p v && q v) && not (byzantine v)) validators
      (omega
        (arith, count-and p q validators, count-without (λ v. p v && q v) byzantine validators))

-- Two votes of one validator in the two buckets are for the same hash.
abbrev pub IsConsistent : (String → Bool) → Dict String Vote → Dict String Vote → Type 0
IsConsistent byzantine d d' =
    (a : String) (v w : Vote)
    → byzantine a ≡ false
    → Dict.lookup a d ≡ some v
    → Dict.lookup a d' ≡ some w
    → v.block_hash ≡ w.block_hash

voted_for-lookup :
    (h : String) (d : Dict String Vote) (a : String)
    → voted_for h d a ≡ true
    → (v : Vote) × (Dict.lookup a d ≡ some v) × (h ≡ v.block_hash)
unfolding voted_for
voted_for-lookup h d a e = elim (Option-cases (Dict.lookup a d)) [
  | inl absent ↦ absurd (ground arith)
  | inr (v, found) ↦ (v, found, ground arith)
]

-- Among 3f + 1 validators with at most `f` Byzantine ones, two nodes whose buckets agree on what
-- each honest validator voted cannot see quorums for different hashes.
pub quorums_agree :
    (validators : List String) (byzantine : String → Bool) (d d' : Dict String Vote) (h h' : String)
    → length validators % 3 ≡ 1
    → count byzantine validators ≤ faults (length validators)
    → IsBucket validators d
    → IsBucket validators d'
    → IsConsistent byzantine d d'
    → quorum_of (length validators) ≤ votes_for h (Dict.values d)
    → quorum_of (length validators) ≤ votes_for h' (Dict.values d')
    → h ≡ h'
quorums_agree validators byzantine d d' h h' shape few b b' consistent q q' =
    let (a, _, both) =
      quorums_share_honest validators (voted_for h d) (voted_for h' d') byzantine shape few
        (omega (arith, votes_for-le validators h d b))
        (omega (arith, votes_for-le validators h' d' b')) in
    let (v, found, e) = voted_for-lookup h d a (ground arith) in
    let (w, found', e') = voted_for-lookup h' d' a (ground arith) in
    e ∙ consistent a v w (ground arith) found found' ∙ sym e'
