-- ===== src/Engine/Certificates.antt =====
-- The quorum behind each finalized block and each lock (`_on_precommit_quorum` and
-- `_on_prevote_quorum` of src/consensus/engine.py).
pub mod Kept
pub mod Locks
use blockchain_application.Prelude.{
  ℕ, zero, suc, ◌+◌, ◌*◌, ◌≤◌, ◌<◌, ◌≡◌, ◌⊎◌, inl, inr, refl, sym, ap, ◌∙◌, String, Bool, true,
  false, Option, none, some, List, [], ◌∷◌, ◌++◌, arith, length, get_elem?, length-append, leb,
  if◌then◌else◌, ◌==◌, contains, string_eq, nat_eq, Bool-cases,
}
use blockchain_application.Prelude.Dict
use blockchain_application.Prelude.Dict.{Dict, lookup-insert}
use blockchain_application.Crypto.Signing.{Crypto, IsLawful}
use blockchain_application.Messages.Block
use blockchain_application.Messages.Block.{Block}
use blockchain_application.Messages.Vote
use blockchain_application.Messages.Vote.{Phase, prevote, precommit, Vote}
use blockchain_application.Engine.Types.{
  ConsensusState, fresh, no_votes, Engine, Sys, quorum_of, is_since,
}
use blockchain_application.Engine.Chain.{
  bucket, buckets, touch_bucket, put_vote, reset_round_timeout, cancel_timeout, log, log_at,
}
use blockchain_application.Engine.Votes.{cast_vote, equivocate_vote, own_vote, send_to, broadcast}
use blockchain_application.Engine.Proposals.{announce, equivocate_proposal, put_proposal}
use blockchain_application.Engine.Rounds.{start_round, commit, lock_on}
use blockchain_application.Engine.Recorded.{with_vote}
use blockchain_application.Engine.Buckets.{
  bucket-with_vote, bucket-touch, bucket-fresh, same_votes, nothing-stored,
}
use blockchain_application.Engine.Origin.{Origin, Origin-fresh}
use blockchain_application.Engine.Authentic.{Authentic, IsVoteOf, Keeper-Authentic}
use blockchain_application.Engine.Induction.{ShowsQuorum, Evidence, Invariant}
use blockchain_application.Engine.Induction.Keepers.{Keeper}
use blockchain_application.Quorum.Votes.{IsBucket, votes_for, bucket-le}

-- Votes of a quorum of validators for a hash, all signed for one height and round, such that `H` holds
-- of each but the node's own. Their phase is not part of it, since `on_vote` does not compare it.
pub record Certificate (C : Crypto) (vs : List String) (H : Vote → Type 0) (node_id : String)
    (height : ℕ) (h : String) : Type 0 where
  pub round : ℕ
  pub votes : Dict String Vote
  pub stored : IsBucket vs votes
  pub cast : (a : String) (v : Vote) → Dict.lookup a votes ≡ some v → IsVoteOf C height round a v
  pub origin : (a : String) (v : Vote) → Dict.lookup a votes ≡ some v → (a == node_id) ≡ false → H v
  pub full : ShowsQuorum vs h votes

-- Every finalized block has a quorum of precommits behind it, and the lock one of prevotes.
pub record Justified (C : Crypto) (vs : List String) (H : Phase → Vote → Type 0) (e : Engine)
    : Type 0 where
  pub auth : Authentic C e
  pub origin : Origin H e
  pub set : e.validators ≡ vs
  pub counted : e.height ≡ length e.ledger
  pub certified :
      (k : ℕ) (b : Block)
      → get_elem? e.ledger k ≡ some b
      → Certificate C vs (H precommit) e.node_id k (Block.block_hash C b)
  pub lock :
      (b : Block)
      → e.cs.locked_block ≡ some b
      → (round : ℕ) × (e.cs.locked_round ≡ some round)
        × ShowsQuorum vs (Block.block_hash C b) (bucket round prevote e.cs)

votes_for-insert :
    (h a : String) (v : Vote) (d : Dict String Vote)
    → Dict.lookup a d ≡ none
    → votes_for h (Dict.values d) ≤ votes_for h (Dict.values (Dict.insert a v d))
unfolding Dict.insert Dict.lookup
votes_for-insert h a v [] free = omega arith
votes_for-insert h a v ((b, w) ∷ d) free = ground (arith, votes_for-insert h a v d)

-- A vote at a free place takes none away.
pub votes_for-with_vote :
    (cs : ConsensusState) (r : ℕ) (p : Phase) (a : String) (vote : Vote)
    → Dict.has a (bucket r p cs) ≡ false
    → (round : ℕ) (h : String)
    → votes_for h (Dict.values (bucket round prevote cs))
      ≤ votes_for h (Dict.values (bucket round prevote (with_vote r p a vote cs)))
unfolding Dict.has
votes_for-with_vote cs r p a vote free round h =
    elim (bucket-with_vote cs r p a vote round prevote) [
      | inl kept ↦ rw kept (omega arith)
      | inr (here, phase, new) ↦
          rw new
            (votes_for-insert h a vote (bucket round prevote cs) (rw (here, phase) (ground arith)))
    ]

get_elem?-append_one :
    (xs : List Block) (x : Block) (k : ℕ) (b : Block)
    → get_elem? (xs ++ (x ∷ [])) k ≡ some b
    → (get_elem? xs k ≡ some b) ⊎ ((k ≡ length xs) × (b ≡ x))
get_elem?-append_one [] x zero b e = inr (refl, ground arith)
get_elem?-append_one [] x (suc k) b e = inl e
get_elem?-append_one (y ∷ xs) x zero b e = inl e
get_elem?-append_one (y ∷ xs) x (suc k) b e = elim (get_elem?-append_one xs x k b e) [
  | inl old ↦ inl old
  | inr (last, new) ↦ inr (omega arith, new)
]

module _ (C : Crypto) (vs : List String) (H : Phase → Vote → Type 0) where
  -- A lock has a quorum of prevotes behind it, in its round.
  abbrev LockShown : ConsensusState → Type 0
  LockShown cs =
      (b : Block)
      → cs.locked_block ≡ some b
      → (round : ℕ) × (cs.locked_round ≡ some round)
        × ShowsQuorum vs (Block.block_hash C b) (bucket round prevote cs)

  lock_on-LockShown :
      (round : ℕ) (block : Block) (cs : ConsensusState)
      → ShowsQuorum vs (Block.block_hash C block) (bucket round prevote cs)
      → LockShown cs
      → LockShown (lock_on round block cs)
  unfolding lock_on bucket buckets
  lock_on-LockShown round block cs full old b is =
      elim (Bool-cases (is_since round cs.locked_round)) [
        | inl moved ↦ let new : b ≡ block = ground arith in (round, rw moved refl, rw new full)
        | inr stays ↦ let (r, at, shown) = old b (ground arith) in (r, rw stays at, shown)
      ]

  -- A change that takes no prevotes away, and leaves the chain and the lock alone.
  pub Justified-more :
      (d e : Engine)
      → Authentic C e
      → Origin H e
      → e.node_id ≡ d.node_id
      → e.validators ≡ d.validators
      → e.height ≡ d.height
      → e.ledger ≡ d.ledger
      → e.cs.locked_block ≡ d.cs.locked_block
      → e.cs.locked_round ≡ d.cs.locked_round
      → ((round : ℕ) (h : String)
          → votes_for h (Dict.values (bucket round prevote d.cs))
            ≤ votes_for h (Dict.values (bucket round prevote e.cs)))
      → Justified C vs H d
      → Justified C vs H e
  Justified-more d e auth origin id set height ledger block round more j = record {
    auth = auth;
    origin = origin;
    set = set ∙ j.set;
    counted = rw (height, ledger) j.counted;
    certified = λ k b is. rw id (j.certified k b (rw ledger at is));
    lock = λ b is.
        let (r, at, full) = j.lock b (rw block at is) in
        (r, round ∙ at, omega (arith, full, more r (Block.block_hash C b)));
  }

  pub Justified-same :
      (d e : Engine)
      → Authentic C e
      → e.node_id ≡ d.node_id
      → e.validators ≡ d.validators
      → e.height ≡ d.height
      → e.ledger ≡ d.ledger
      → e.cs.locked_block ≡ d.cs.locked_block
      → e.cs.locked_round ≡ d.cs.locked_round
      → ((round : ℕ) (phase : Phase) → bucket round phase e.cs ≡ bucket round phase d.cs)
      → Justified C vs H d
      → Justified C vs H e
  Justified-same d e auth id set height ledger block round same j =
      Justified-more d e auth
        (λ r p a v h other. j.origin r p a v (rw (same r p) at h) (rw id at other)) id set height
        ledger block round (λ r h. rw (same r prevote) (omega arith)) j

  pub Justified-keep :
      (d e : Engine)
      → Authentic C e
      → e.node_id ≡ d.node_id
      → e.validators ≡ d.validators
      → e.height ≡ d.height
      → e.ledger ≡ d.ledger
      → e.cs.locked_block ≡ d.cs.locked_block
      → e.cs.locked_round ≡ d.cs.locked_round
      → e.cs.votes ≡ d.cs.votes
      → Justified C vs H d
      → Justified C vs H e
  Justified-keep d e auth id set height ledger block round votes =
      Justified-same d e auth id set height ledger block round (same_votes d.cs e.cs votes)

  pub small_buckets :
      length vs < 2 * quorum_of (length vs)
      → (round : ℕ) (phase : Phase) (s : Sys) → Justified C vs H s.engine
      → length (bucket round phase s.engine.cs) < 2 * quorum_of (length vs)
  small_buckets small round phase s j = omega (
    arith,
    small,
    bucket-le vs (bucket round phase s.engine.cs) (rw j.set at (j.auth.stored round phase)),
  )

  bucket-lock_on :
      (round : ℕ) (block : Block) (cs : ConsensusState) (r : ℕ) (p : Phase)
      → bucket r p (lock_on round block cs) ≡ bucket r p cs
  unfolding lock_on bucket buckets
  bucket-lock_on round block cs r prevote = refl
  bucket-lock_on round block cs r precommit = refl

  pub Justified-lock_on :
      (round : ℕ) (block : Block) (d e : Engine)
      → Authentic C e
      → e.node_id ≡ d.node_id
      → e.validators ≡ d.validators
      → e.height ≡ d.height
      → e.ledger ≡ d.ledger
      → e.cs ≡ lock_on round block d.cs
      → ShowsQuorum vs (Block.block_hash C block) (bucket round prevote d.cs)
      → Justified C vs H d
      → Justified C vs H e
  Justified-lock_on round block d e auth id set height ledger cs full j = record {
    auth = auth;
    origin = λ r p a v h other.
        j.origin r p a v (rw (cs, bucket-lock_on round block d.cs r p) at h) (rw id at other);
    set = set ∙ j.set;
    counted = rw (height, ledger) j.counted;
    certified = λ k b is. rw id (j.certified k b (rw ledger at is));
    lock = rw cs (lock_on-LockShown round block d.cs full j.lock);
  }

  pub Justified-commit :
      (block : Block) (d e : Engine)
      → Authentic C e
      → e.node_id ≡ d.node_id
      → e.validators ≡ d.validators
      → e.height ≡ d.height + 1
      → e.ledger ≡ d.ledger ++ (block ∷ [])
      → e.cs ≡ fresh
      → Certificate C vs (H precommit) d.node_id d.height (Block.block_hash C block)
      → Justified C vs H d
      → Justified C vs H e
  Justified-commit block d e auth id set height ledger cs c j = record {
    auth = auth;
    origin = Origin-fresh H e cs;
    set = set ∙ j.set;
    counted = rw (height, ledger) (omega (arith, j.counted, length-append d.ledger (block ∷ [])));
    certified = λ k b is. elim (get_elem?-append_one d.ledger block k b (rw ledger at is)) [
      | inl old ↦ rw id (j.certified k b old)
      | inr (last, new) ↦ rw (id, last, new, ← j.counted) c
    ];
    lock = λ b is. absurd (ground arith);
  }
