-- ===== src/Engine/Induction.antt =====
-- An induction principle for `ConsensusEngine`: a property of states that each elementary change
-- keeps is kept by every method and handler, at any depth of recursion.
pub mod Tallies
pub mod Reactions
pub mod Handlers
pub mod Runs
pub mod Keepers
use blockchain_application.Prelude.{
  ℕ, zero, suc, ◌+◌, ◌*◌, ◌<◌, ◌≤◌, ◌≡◌, refl, String, Bool, true, false, ◌&&◌, ◌||◌, not, Option,
  none, some, List, [], ◌∷◌, ◌==◌, if◌then◌else◌, ltb, contains, length, string_eq, nat_eq, inl,
  inr, arith, ==_iff,
}
use blockchain_application.Prelude.Dict
use blockchain_application.Prelude.Dict.{Dict}
use blockchain_application.Crypto.Signing.{Crypto}
use blockchain_application.Messages.Transaction.{Transaction}
use blockchain_application.Messages.BlockHeader.{BlockHeader}
use blockchain_application.Messages.Block
use blockchain_application.Messages.Block.{Block}
use blockchain_application.Messages.Vote
use blockchain_application.Messages.Vote.{Phase, prevote, precommit, nil, Vote}
use blockchain_application.Network.Types.{Network, ConsensusEvent}
use blockchain_application.Engine.Types.{
  at_propose, ConsensusState, Engine, EngineClass, honest, byzantine, Sys, quorum, quorum_of,
  with_network, with_cs, with_engine,
}
use blockchain_application.Engine.Chain.{is_proposer, log, bucket, touch_bucket, put_vote}
use blockchain_application.Engine.Validation.{block_fault, log_fault, validate_block}
use blockchain_application.Engine.Votes.{
  Method, ◌>>=◌, count_votes, react_all, tally_with, cast_vote, equivocate_vote, send_vote_with,
  send_to,
}
use blockchain_application.Engine.Proposals.{announce, equivocate_proposal}
use blockchain_application.Engine.Rounds
use blockchain_application.Network.{append_log}
use blockchain_application.Network.Types
use blockchain_application.Network.Types.{LogEntry, Message}
use blockchain_application.Quorum.Votes.{votes_for}

-- A bucket shows a quorum for a hash.
abbrev pub ShowsQuorum : List String → String → Dict String Vote → Type 0
ShowsQuorum vs h d = quorum_of (length vs) ≤ votes_for h (Dict.values d)

-- What a reaction to a quorum may rely on: the bucket shows it, provided that the property bounds
-- the buckets so that they cannot show two quorums.
abbrev pub Evidence : List String → (Sys → Type 0) → ℕ → Phase → String → Sys → Type 0
Evidence vs I round phase h s =
    ((t : Sys) → I t → length (bucket round phase t.engine.cs) < 2 * quorum_of (length vs))
    → ShowsQuorum vs h (bucket round phase s.engine.cs)

-- What is said of the votes that come in messages of each type.
abbrev pub Hears : (Phase → Vote → Type 0) → Message → Type 0
Hears H (Types.vote phase v) = H phase v
Hears H (Types.proposal header tx_hashes round) = Unit
Hears H (Types.body_request round tx_hashes sender) = Unit
Hears H (Types.body_response round bodies sender) = Unit

-- Nothing is said of them.
abbrev pub Anything : Phase → Vote → Type 0
Anything phase v = Unit

pub Hears-Anything : (message : Message) → Hears Anything message
Hears-Anything (Types.vote phase v) = tt
Hears-Anything (Types.proposal header tx_hashes round) = tt
Hears-Anything (Types.body_request round tx_hashes sender) = tt
Hears-Anything (Types.body_response round bodies sender) = tt

-- A property that is kept by the elementary changes, each under the guard that its caller tested.
-- The validator set is fixed, and `H` holds of every vote that a message of its type brings.
pub record Invariant (C : Crypto) (draw : ℕ → ℕ → ℕ) (vs : List String) (H : Phase → Vote → Type 0)
    (I : Sys → Type 0) : Type 0 where
  pub set : (s : Sys) → I s → s.engine.validators ≡ vs
  pub logged : (entry : LogEntry) (s : Sys) → I s → I (with_network (append_log entry) s)
  pub sent :
      (targets : List String) (message : Message) (s : Sys)
      → I s
      → I (send_to C draw targets message s)
  pub touched : (round : ℕ) (s : Sys) → I s → I (touch_bucket round s)
  pub started :
      (round : ℕ) (s : Sys)
      → I s
      → s.engine.cs.decided ≡ false
      → s.engine.cs.round ≤ round
      → I (Rounds.start_round round s)
  pub proposed : (block : Block) (s : Sys) → I s → I (announce C draw block s)
  pub proposed_two : (s : Sys) → I s → I (equivocate_proposal C draw s)
  pub kept_proposal :
      (round : ℕ) (block : Block) (s : Sys)
      → I s
      → I (with_cs (λ cs. record cs { proposals = Dict.set_default round block cs.proposals }) s)
  pub cast :
      (phase : Phase) (block_hash : String) (s : Sys)
      → I s
      → Dict.has s.engine.node_id (bucket s.engine.cs.round phase s.engine.cs) ≡ false
      → I (cast_vote C draw phase block_hash s)
  pub equivocated :
      (phase : Phase) (block_hash : String) (s : Sys)
      → I s
      → Dict.has s.engine.node_id (bucket s.engine.cs.round phase s.engine.cs) ≡ false
      → I (equivocate_vote C draw phase block_hash s)
  pub locked :
      (round : ℕ) (block : Block) (block_hash : String) (s : Sys)
      → I s
      → Dict.lookup round s.engine.cs.proposals ≡ some block
      → Block.block_hash C block ≡ block_hash
      → Evidence vs I round prevote block_hash s
      → I (with_cs (Rounds.lock_on round block) s)
  pub decided :
      (round : ℕ) (block : Block) (block_hash : String) (s : Sys)
      → I s
      → s.engine.cs.decided ≡ false
      → s.engine.cs.locked_block ≡ some block
      → Block.block_hash C block ≡ block_hash
      → Evidence vs I round precommit block_hash s
      → I (Rounds.commit C block block_hash s)
  pub received :
      (phase : Phase) (vote : Vote) (s : Sys)
      → I s
      → contains s.engine.validators vote.validator ≡ true
      → vote.height ≡ s.engine.height
      → Vote.verify C vote ≡ true
      → Dict.has vote.validator (bucket vote.round phase s.engine.cs) ≡ false
      → H phase vote
      → I (put_vote vote.round phase vote.validator vote s)
  pub parked :
      (pending : Dict ℕ (BlockHeader × List String)) (s : Sys)
      → I s
      → I (with_cs (λ cs. record cs { pending_headers = pending }) s)
  pub pooled :
      (mempool : List Transaction) (s : Sys)
      → I s
      → I (with_engine (λ e. record e { mempool = mempool }) s)

-- A call that returns has kept the property.
abbrev pub Then : (Sys → Type 0) → Option Sys → Type 0
Then I none = Unit
Then I (some s) = I s

pub Then-bind :
    (I J : Sys → Type 0) (x : Option Sys) (f : Method)
    → Then I x
    → ((s : Sys) → I s → Then J (f s))
    → Then J (x >>= f)
Then-bind I J none f p k = tt
Then-bind I J (some s) f p k = k s p

pub Then-if :
    (I : Sys → Type 0) (b : Bool) (x y : Option Sys)
    → (b ≡ true → Then I x)
    → (b ≡ false → Then I y)
    → Then I (if b then x else y)
Then-if I true x y p q = p refl
Then-if I false x y p q = q refl

pub Then-option :
    {A : Type 0} (I : Sys → Type 0) (o : Option A) (x : Option Sys) (f : A → Option Sys)
    → (o ≡ none → Then I x)
    → ((a : A) → o ≡ some a → Then I (f a))
    → Then I (elim o [ none ↦ x | some a ↦ f a ])
Then-option I none x f p q = p refl
Then-option I (some a) x f p q = q a refl

pub Then-list :
    {A : Type 0} (I : Sys → Type 0) (xs : List A) (x : Option Sys) (f : A → List A → Option Sys)
    → Then I x
    → ((a : A) (rest : List A) → Then I (f a rest))
    → Then I (elim xs [ [] ↦ x | a ∷ rest ↦ f a rest ])
Then-list I [] x f p q = p
Then-list I (a ∷ rest) x f p q = q a rest

pub Then-class :
    (I : Sys → Type 0) (c : EngineClass) (x y : Option Sys)
    → Then I x
    → Then I y
    → Then I (elim c [ honest ↦ x | byzantine ↦ y ])
Then-class I honest x y p q = p
Then-class I byzantine x y p q = q

pub Then-method :
    (I : Sys → Type 0) (b : Bool) (m k : Method) (s : Sys)
    → Then I (m s)
    → Then I (k s)
    → Then I ((if b then m else k) s)
Then-method I true m k s p q = p
Then-method I false m k s p q = q
