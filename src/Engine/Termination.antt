-- ===== src/Engine/Termination.antt =====
-- The recursion of `_enter_round` (src/consensus/engine.py) ends: how deep it can get is bounded by
-- the number of rounds that votes are stored for.
pub mod Tallies
pub mod Proposing
pub mod Alone
pub mod Depth
pub mod Handlers
use blockchain_application.Prelude.{
  ℕ, zero, suc, ◌+◌, ◌≤◌, ◌<◌, ◌≡◌, ◌⊎◌, inl, inr, refl, sym, ap, ◌∙◌, String, Bool, true, false,
  ◌&&◌, ◌||◌, not, Option, none, some, List, [], ◌∷◌, arith, leb, ltb, if◌then◌else◌, ◌==◌,
  string_eq, nat_eq, length, Bool-cases, Option-cases,
}
use blockchain_application.Prelude.Dict
use blockchain_application.Prelude.Dict.{Dict, lookup-insert, lookup-set_default}
use blockchain_application.Crypto.Signing.{Crypto}
use blockchain_application.Messages.Block
use blockchain_application.Messages.Block.{Block}
use blockchain_application.Messages.Vote.{Phase, prevote, precommit, nil, Vote}
use blockchain_application.Engine.Types.{
  Buckets, no_votes, ConsensusState, EngineClass, honest, byzantine, Engine, Sys, quorum, with_cs,
}
use blockchain_application.Engine.Chain.{buckets, bucket, touch_bucket, put_vote, log, is_proposer}
use blockchain_application.Engine.Validation.{validate_block, block_fault, log_fault}
use blockchain_application.Engine.Votes.{
  Method, ◌>>=◌, count_votes, react_all, tally_with, cast_vote, equivocate_vote, send_vote_with,
}
use blockchain_application.Engine.Proposals.{announce, equivocate_proposal, put_proposal}
use blockchain_application.Engine.Rounds
use blockchain_application.Quorum.Counting.{count}

-- A call returns, with a state of this property.
abbrev pub Returns : (Sys → Type 0) → Option Sys → Type 0
Returns P none = ⊥
Returns P (some s) = P s

-- From here on, `P` is a property of states.
pub Returns-if :
    (P : Sys → Type 0) (b : Bool) (x y : Option Sys)
    → (b ≡ true → Returns P x)
    → (b ≡ false → Returns P y)
    → Returns P (if b then x else y)
Returns-if P true x y p q = p refl
Returns-if P false x y p q = q refl

pub Returns-option :
    {A : Type 0} (P : Sys → Type 0) (o : Option A) (x : Option Sys) (f : A → Option Sys)
    → (o ≡ none → Returns P x)
    → ((a : A) → o ≡ some a → Returns P (f a))
    → Returns P (elim o [ none ↦ x | some a ↦ f a ])
Returns-option P none x f p q = p refl
Returns-option P (some a) x f p q = q a refl

pub Returns-class :
    (P : Sys → Type 0) (c : EngineClass) (x y : Option Sys)
    → Returns P x
    → Returns P y
    → Returns P (elim c [ honest ↦ x | byzantine ↦ y ])
Returns-class P honest x y p q = p
Returns-class P byzantine x y p q = q

pub Returns-method :
    (P : Sys → Type 0) (b : Bool) (f g : Method) (s : Sys)
    → Returns P (f s)
    → Returns P (g s)
    → Returns P ((if b then f else g) s)
Returns-method P true f g s p q = p
Returns-method P false f g s p q = q

pub Returns-bind :
    (P Q : Sys → Type 0) (x : Option Sys) (f : Method)
    → Returns P x
    → ((s : Sys) → P s → Returns Q (f s))
    → Returns Q (x >>= f)
Returns-bind P Q none f p k = absurd p
Returns-bind P Q (some s) f p k = k s p

pub Returns-map :
    (P Q : Sys → Type 0) (x : Option Sys) → ((s : Sys) → P s → Q s) → Returns P x → Returns Q x
Returns-map P Q none f p = p
Returns-map P Q (some s) f p = f s p

-- How many rounds from `r` on have stored votes.
unfoldable pub pending : ℕ → Dict ℕ Buckets → ℕ
pending r votes = count (λ (k, _). leb r k) votes

pub pending-insert :
    (r k : ℕ) (b : Buckets) (votes : Dict ℕ Buckets)
    → k < r
    → pending r (Dict.insert k b votes) ≡ pending r votes
unfolding pending Dict.insert
pending-insert r k b [] lt = ground arith
pending-insert r k b ((j, c) ∷ votes) lt = ground (arith, pending-insert r k b votes lt)

pub pending-set_default :
    (r k : ℕ) (b : Buckets) (votes : Dict ℕ Buckets)
    → k < r
    → pending r (Dict.set_default k b votes) ≡ pending r votes
unfolding Dict.set_default
pending-set_default r k b votes lt = ground (arith, pending-insert r k b votes lt)

pub pending-le : (q r : ℕ) (votes : Dict ℕ Buckets) → q ≤ r → pending r votes ≤ pending q votes
unfolding pending
pending-le q r [] le = omega arith
pending-le q r ((k, b) ∷ votes) le = ground (arith, pending-le q r votes le)

-- A stored round counts.
pub pending-stored :
    (r : ℕ) (b : Buckets) (votes : Dict ℕ Buckets)
    → Dict.lookup r votes ≡ some b
    → pending (r + 1) votes < pending r votes
unfolding pending Dict.lookup
pending-stored r b [] found = absurd (ground arith)
pending-stored r b ((k, c) ∷ votes) found =
    ground (arith, pending-stored r b votes, pending-le r (r + 1) votes (omega arith))

-- A state in which what a tally of the round `r` sets off returns at depth `d`; `b` bounds the
-- round that it has come to at its height.
pub record Calm (b r d : ℕ) (s : Sys) : Type 0 where
  pub many : 2 ≤ quorum s.engine
  pub deep : 0 < d
  pub room : s.engine.cs.round ≡ r → pending (r + 1) s.engine.cs.votes < d
  pub late : (b ≤ s.engine.cs.round) ⊎ (pending 1 s.engine.cs.votes ≡ 0)

-- What is left by a call of `_enter_round` for the round `r`, and by one at a new height.
pub record Entered (r : ℕ) (s : Sys) : Type 0 where
  pub many : 2 ≤ quorum s.engine
  pub late : (r ≤ s.engine.cs.round) ⊎ (pending 1 s.engine.cs.votes ≡ 0)

pub record Fresh (s : Sys) : Type 0 where
  pub many : 2 ≤ quorum s.engine
  pub none_later : pending 1 s.engine.cs.votes ≡ 0

pub Calm-Fresh : (b r d : ℕ) (s : Sys) → 0 < d → Fresh s → Calm b r d s
Calm-Fresh b r d s deep f = record {
  many = f.many;
  deep = deep;
  room = λ _. omega (arith, pending-le 1 (r + 1) s.engine.cs.votes (omega arith), f.none_later);
  late = inr f.none_later;
}

pub Calm-Entered : (b r d : ℕ) (s : Sys) → 0 < d → b ≤ r → Entered (r + 1) s → Calm b r d s
Calm-Entered b r d s deep le e = elim e.late [
  | inr empty ↦ Calm-Fresh b r d s deep (record { many = e.many; none_later = empty })
  | inl later ↦ record {
    many = e.many;
    deep = deep;
    room = λ same. absurd (omega arith);
    late = inl (omega arith);
  }
]
