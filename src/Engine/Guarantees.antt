-- ===== src/Engine/Guarantees.antt =====
-- What holds of an engine over any sequence of messages and timer expiries.
use blockchain_application.Prelude.{
  ℕ, ◌%◌, ◌≤◌, ◌≡◌, String, Bool, true, false, none, some, List, length, string_eq, contains, arith,
  nat_eq, sym, ◌∙◌,
}
use mathlib.Core.Path.{subst}
use blockchain_application.Prelude.Dict
use blockchain_application.Crypto.Signing.{Crypto, IsLawful}
use blockchain_application.Messages.Block.{Block}
use blockchain_application.Messages.Vote
use blockchain_application.Messages.Vote.{Phase, prevote, precommit, Vote}
use blockchain_application.Engine.Types.{Engine, Sys, faults, quorum}
use blockchain_application.Engine.Chain.{bucket, touch_bucket, put_vote}
use blockchain_application.Engine.Rounds
use blockchain_application.Engine.Handlers.{on_vote}
use blockchain_application.Engine.Induction.{Then}
use blockchain_application.Engine.Induction.Keepers.{tally-Since, Since, related}
use blockchain_application.Engine.Inputs.{Input, perform_all}
use blockchain_application.Engine.Replay.{Extends, Keeper-Grows}
use blockchain_application.Engine.Recorded.{recorded-touch, recorded-with_vote_self, recorded}
use blockchain_application.Engine.Monotone.{Forward, Keeper-Advances}
use blockchain_application.Engine.Authentic.{Authentic, Keeper-Authentic}
use blockchain_application.Quorum.{quorums_agree, IsConsistent}
use blockchain_application.Quorum.Counting.{count}
use blockchain_application.Quorum.Votes.{votes_for}

module _ (C : Crypto) (draw : ℕ → ℕ → ℕ) (depth : ℕ) where
  -- Whatever a node receives, if it is dealt with at the given depth, the node's ledger is only
  -- ever extended; its height grows by the number of the new blocks, and its state by executing
  -- their transactions in order.
  pub perform_all-Extends :
      (inputs : List Input) (s t : Sys)
      → perform_all C draw depth inputs s ≡ some t
      → (blocks : List Block) × Extends C s.engine t.engine blocks
  perform_all-Extends inputs s t e = related (Keeper-Grows C draw) depth inputs s e

  -- Whatever a node receives, if it is dealt with at the given depth, the node's height does not
  -- fall; if the height is the same, its round, its locked round and its valid round have not
  -- fallen, and each vote that it had recorded for a validator in a round and phase is still the
  -- one recorded there.
  pub perform_all-Forward :
      (inputs : List Input) (s t : Sys)
      → perform_all C draw depth inputs s ≡ some t
      → Forward s.engine t.engine
  perform_all-Forward inputs s t e = related (Keeper-Advances C draw) depth inputs s e

  -- For lawful cryptography and an engine that is a validator under its own key: if its buckets
  -- hold at most one vote for each validator, and only votes that this validator signed for the
  -- node's height and the bucket's round, then so they do after whatever the node receives and
  -- deals with at the given depth.
  pub perform_all-Authentic :
      IsLawful C
      → (inputs : List Input) (s t : Sys) → perform_all C draw depth inputs s ≡ some t
      → Authentic C s.engine
      → Authentic C t.engine
  perform_all-Authentic L inputs s t e = related (Keeper-Authentic C L draw) depth inputs s e

  -- Take 3f + 1 validators of which at most `f` are Byzantine, and two authentic engines with this
  -- set, whose buckets of a round and phase agree on what each honest validator voted. If the two
  -- buckets have quorums for two hashes, the hashes are the same.
  pub engines_agree :
      (d e : Engine) (byzantine : String → Bool) (round : ℕ) (phase : Phase) (h h' : String)
      → Authentic C d
      → Authentic C e
      → e.validators ≡ d.validators
      → length d.validators % 3 ≡ 1
      → count byzantine d.validators ≤ faults (length d.validators)
      → IsConsistent byzantine (bucket round phase d.cs) (bucket round phase e.cs)
      → quorum d ≤ votes_for h (Dict.values (bucket round phase d.cs))
      → quorum e ≤ votes_for h' (Dict.values (bucket round phase e.cs))
      → h ≡ h'
  engines_agree d e byzantine round phase h h' x y same shape few consistent q q' =
      quorums_agree d.validators byzantine (bucket round phase d.cs) (bucket round phase e.cs) h h'
        shape few (x.stored round phase) (rw same at (y.stored round phase)) consistent q
        (rw same at q')

  on_vote-accepted :
      (phase : Phase) (v : Vote) (s : Sys)
      → contains s.engine.validators v.validator ≡ true
      → v.height ≡ s.engine.height
      → Vote.verify C v ≡ true
      → Dict.has v.validator (bucket v.round phase (touch_bucket v.round s).engine.cs) ≡ false
      → on_vote C draw depth phase v s
        ≡ Rounds.tally C draw
            (Rounds.enter_round C draw depth)
            v.round
            phase
            (put_vote v.round phase v.validator v (touch_bucket v.round s))
  unfolding on_vote
  on_vote-accepted phase v s member height real new = ground arith

  touch_bucket-free :
      (phase : Phase) (v : Vote) (s : Sys)
      → recorded s.engine.cs v.round phase v.validator ≡ none
      → Dict.has v.validator (bucket v.round phase (touch_bucket v.round s).engine.cs) ≡ false
  unfolding Dict.has recorded touch_bucket
  touch_bucket-free phase v s new =
      ground (arith, recorded-touch s.engine.cs v.round v.round phase v.validator)

  -- A vote of a validator for the node's height that was signed as a prevote, but comes in a
  -- message of type PRECOMMIT, is recorded as the validator's precommit, if it has none there in
  -- that round, the message is dealt with at the given depth, and the height stays the same.
  pub prevote_as_precommit :
      (v : Vote) (s t : Sys)
      → v.phase ≡ prevote
      → contains s.engine.validators v.validator ≡ true
      → v.height ≡ s.engine.height
      → Vote.verify C v ≡ true
      → recorded s.engine.cs v.round precommit v.validator ≡ none
      → on_vote C draw depth precommit v s ≡ some t
      → t.engine.height ≡ s.engine.height
      → recorded t.engine.cs v.round precommit v.validator ≡ some v
  unfolding put_vote touch_bucket
  prevote_as_precommit v s t signed member height real new e same =
      let s₁ = touch_bucket v.round s in
      let s₂ = put_vote v.round precommit v.validator v s₁ in
      let free = touch_bucket-free precommit v s new in
      let K = Keeper-Advances C draw in
      let moved : Forward s₂.engine t.engine =
        (subst (Then (Since K s₂))
          (sym (on_vote-accepted precommit v s member height real free) ∙ e)
          (tally-Since K depth v.round precommit s₂)).0 in
      (moved.within same).votes v.round precommit v.validator v
        (recorded-with_vote_self s₁.engine.cs v.round precommit v.validator v)
