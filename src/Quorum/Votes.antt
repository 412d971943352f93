-- ===== src/Quorum/Votes.antt =====
-- The votes of a bucket, counted by their hash (`_tally` of src/consensus/engine.py), and the
-- validators behind them.
use blockchain_application.Prelude.{
  ℕ, ◌+◌, ◌≤◌, ◌<◌, ◌≡◌, String, Bool, true, false, none, some, List, [], ◌∷◌, arith, ◌==◌, length,
  contains, if◌then◌else◌, string_eq, inl, inr, Bool-cases,
}
use blockchain_application.Prelude.Dict
use blockchain_application.Prelude.Dict.{Dict, lookup-insert, get_or-insert}
use blockchain_application.Messages.Vote.{Vote}
use blockchain_application.Engine.Votes.{count_votes}
use blockchain_application.Quorum.Counting.{count}

-- How many of the votes are for a hash.
abbrev pub votes_for : String → List Vote → ℕ
votes_for h votes = count (λ v. h == v.block_hash) votes

count_votes-from :
    (counts : Dict String ℕ) (votes : List Vote) (h : String)
    → Dict.get_or h 0 (count_votes counts votes) ≡ Dict.get_or h 0 counts + votes_for h votes
unfolding count_votes
count_votes-from counts [] h = omega arith
count_votes-from counts (v ∷ votes) h = ground (
  arith,
  count_votes-from (Dict.insert v.block_hash (Dict.get_or v.block_hash 0 counts + 1) counts) votes
      h,
  get_or-insert h v.block_hash 0 (Dict.get_or v.block_hash 0 counts + 1) counts,
)

-- The dict that `_tally` builds gives each hash the number of votes for it.
pub count_votes-votes_for :
    (votes : List Vote) (h : String) → Dict.get_or h 0 (count_votes [] votes) ≡ votes_for h votes
unfolding Dict.get_or
count_votes-votes_for votes h = omega (arith, count_votes-from [] votes h)

-- Whether a bucket holds a validator's vote for a hash.
unfoldable pub voted_for : String → Dict String Vote → String → Bool
voted_for h d a = elim (Dict.lookup a d) [ none ↦ false | some v ↦ h == v.block_hash ]

-- A bucket has one vote for each validator that voted.
pub record IsBucket (validators : List String) (d : Dict String Vote) : Type 0 where
  pub once : Dict.NodupKeys d
  pub members : (a : String) (v : Vote) → Dict.lookup a d ≡ some v → contains validators a ≡ true

count-add :
    (p q r : String → Bool) (xs : List String)
    → ((x : String) → (if p x then 1 else 0) + (if q x then 1 else 0) ≤ (if r x then 1 else 0))
    → count p xs + count q xs ≤ count r xs
count-add p q r [] h = omega arith
count-add p q r (x ∷ xs) h = omega (arith, h x, count-add p q r xs h)

count-contains : (xs : List String) (k : String) → contains xs k ≡ true → 0 < count (λ a. a == k) xs
count-contains [] k h = ground arith
count-contains (x ∷ xs) k h = ground (arith, count-contains xs k)

tail-IsBucket :
    (validators : List String) (k : String) (v : Vote) (d : Dict String Vote)
    → IsBucket validators ((k, v) ∷ d)
    → IsBucket validators d
unfolding Dict.lookup
tail-IsBucket validators k v d b = record {
  once = b.once.1;
  members = λ a w e. ground (arith, b.members a w, b.once.0);
}

head-member :
    (validators : List String) (k : String) (v : Vote) (d : Dict String Vote)
    → IsBucket validators ((k, v) ∷ d)
    → contains validators k ≡ true
unfolding Dict.lookup
head-member validators k v d b = ground (arith, b.members k v)

-- A vote for the hash at a free place adds its validator to the voters, and one for another hash
-- leaves the voters as they are.
voted_for-new :
    (h k : String) (v : Vote) (d : Dict String Vote)
    → Dict.lookup k d ≡ none
    → (h == v.block_hash) ≡ true
    → (a : String)
    → (if voted_for h d a then 1 else 0) + (if a == k then 1 else 0)
      ≤ (if voted_for h ((k, v) ∷ d) a then 1 else 0)
unfolding voted_for Dict.lookup
voted_for-new h k v d free agrees a = ground arith

voted_for-old :
    (h k : String) (v : Vote) (d : Dict String Vote)
    → Dict.lookup k d ≡ none
    → (a : String)
    → (if voted_for h d a then 1 else 0) + (if false then 1 else 0)
      ≤ (if voted_for h ((k, v) ∷ d) a then 1 else 0)
unfolding voted_for Dict.lookup
voted_for-old h k v d free a = ground arith

-- A bucket's count of a hash is a count of validators.
pub votes_for-le :
    (validators : List String) (h : String) (d : Dict String Vote)
    → IsBucket validators d
    → votes_for h (Dict.values d) ≤ count (voted_for h d) validators
votes_for-le validators h [] b = omega arith
votes_for-le validators h ((k, v) ∷ d) b = elim (Bool-cases (h == v.block_hash)) [
  | inl agrees ↦ rw agrees (
      omega (
        arith,
        votes_for-le validators h d (tail-IsBucket validators k v d b),
        count-contains validators k (head-member validators k v d b),
        count-add (voted_for h d) (λ a. a == k) (voted_for h ((k, v) ∷ d)) validators
            (voted_for-new h k v d b.once.0 agrees),
      ))
  | inr differs ↦ rw differs (
      omega (
        arith,
        votes_for-le validators h d (tail-IsBucket validators k v d b),
        count-add (voted_for h d) (λ _. false) (voted_for h ((k, v) ∷ d)) validators
            (voted_for-old h k v d b.once.0),
      ))
]

has-new :
    (k : String) (v : Vote) (d : Dict String Vote)
    → Dict.lookup k d ≡ none
    → (a : String)
    → (if Dict.has a d then 1 else 0) + (if a == k then 1 else 0)
      ≤ (if Dict.has a ((k, v) ∷ d) then 1 else 0)
unfolding Dict.has Dict.lookup
has-new k v d free a = ground arith

length-le_voters :
    (validators : List String) (d : Dict String Vote)
    → IsBucket validators d
    → length d ≤ count (λ a. Dict.has a d) validators
length-le_voters validators [] b = omega arith
length-le_voters validators ((k, v) ∷ d) b = omega (
  arith,
  length-le_voters validators d (tail-IsBucket validators k v d b),
  count-contains validators k (head-member validators k v d b),
  count-add (λ a. Dict.has a d) (λ a. a == k) (λ a. Dict.has a ((k, v) ∷ d)) validators
      (has-new k v d b.once.0),
)

count-le : (p : String → Bool) (xs : List String) → count p xs ≤ length xs
count-le p [] = omega arith
count-le p (x ∷ xs) = ground (arith, count-le p xs)

-- A bucket is no larger than the validator set.
pub bucket-le :
    (validators : List String) (d : Dict String Vote)
    → IsBucket validators d
    → length d ≤ length validators
bucket-le validators d b =
    omega (arith, length-le_voters validators d b, count-le (λ a. Dict.has a d) validators)
