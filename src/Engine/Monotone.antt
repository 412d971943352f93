-- ===== src/Engine/Monotone.antt =====
-- What only moves forward while a node decides one height: its round, its locks, and the votes that
-- it has recorded, its own among them.
use blockchain_application.Prelude.{
  ℕ, ◌≤◌, ◌≡◌, refl, ◌∙◌, String, false, Option, none, some, arith, if◌then◌else◌, string_eq,
  nat_eq, leb, leb→le, Bool-cases, inl, inr,
}
use blockchain_application.Prelude.Dict
use blockchain_application.Prelude.Dict.{Dict, lookup-insert, lookup-set_default}
use blockchain_application.Crypto.Signing.{Crypto}
use blockchain_application.Messages.Block.{Block}
use blockchain_application.Messages.Vote.{Phase, Vote}
use blockchain_application.Engine.Types.{ConsensusState, Engine, Sys, no_votes, is_since}
use blockchain_application.Engine.Chain.{
  buckets, bucket, touch_bucket, reset_round_timeout, cancel_timeout, put_vote, log, log_at,
}
use blockchain_application.Engine.Votes.{own_vote, cast_vote, equivocate_vote, send_to, broadcast}
use blockchain_application.Engine.Proposals.{announce, equivocate_proposal, put_proposal}
use blockchain_application.Engine.Rounds.{start_round, commit, lock_on}
use blockchain_application.Engine.Induction.Keepers.{Keeper}
use blockchain_application.Engine.Recorded.{
  recorded, recorded-touch, with_vote, recorded-with_vote, recorded-same_votes,
}

-- `locked_round` and `valid_round` are -1 or a round.
abbrev pub NotBefore : Option ℕ → Option ℕ → Type 0
NotBefore none r = Unit
NotBefore (some a) none = ⊥
NotBefore (some a) (some b) = a ≤ b

NotBefore-refl : (r : Option ℕ) → NotBefore r r
NotBefore-refl none = tt
NotBefore-refl (some a) = omega arith

NotBefore-trans : (p q r : Option ℕ) → NotBefore p q → NotBefore q r → NotBefore p r
NotBefore-trans none q r h k = tt
NotBefore-trans (some a) none r h k = absurd h
NotBefore-trans (some a) (some b) none h k = k
NotBefore-trans (some a) (some b) (some c) h k = omega arith

pub record Within (c d : ConsensusState) : Type 0 where
  pub rounds : c.round ≤ d.round
  pub locks : NotBefore c.locked_round d.locked_round
  pub proofs : NotBefore c.valid_round d.valid_round
  pub votes :
      (round : ℕ) (phase : Phase) (validator : String) (v : Vote)
      → recorded c round phase validator ≡ some v
      → recorded d round phase validator ≡ some v

-- The height never falls, and at one height nothing of the above is taken back.
pub record Forward (d e : Engine) : Type 0 where
  pub heights : d.height ≤ e.height
  pub within : e.height ≡ d.height → Within d.cs e.cs

Within-refl : (c : ConsensusState) → Within c c
Within-refl c = record {
  rounds = omega arith;
  locks = NotBefore-refl c.locked_round;
  proofs = NotBefore-refl c.valid_round;
  votes = λ r p a v h. h;
}

Within-trans : (b c d : ConsensusState) → Within b c → Within c d → Within b d
Within-trans b c d p q = record {
  rounds = omega (arith, p.rounds, q.rounds);
  locks = NotBefore-trans b.locked_round c.locked_round d.locked_round p.locks q.locks;
  proofs = NotBefore-trans b.valid_round c.valid_round d.valid_round p.proofs q.proofs;
  votes = λ r ph a v h. q.votes r ph a v (p.votes r ph a v h);
}

Forward-trans : (d e f : Engine) → Forward d e → Forward e f → Forward d f
Forward-trans d e f p q = record {
  heights = omega (arith, p.heights, q.heights);
  within = λ h.
      Within-trans d.cs e.cs f.cs (p.within (omega (arith, p.heights, q.heights)))
        (q.within (omega (arith, p.heights, q.heights)));
}

-- Only the consensus state changes.
Forward-cs : (d e : Engine) → e.height ≡ d.height → Within d.cs e.cs → Forward d e
Forward-cs d e h w = record { heights = omega arith; within = λ _. w }

lock-NotBefore :
    (r : Option ℕ) (round : ℕ) → NotBefore r (if is_since round r then some round else r)
lock-NotBefore none round = tt
lock-NotBefore (some a) round = elim (Bool-cases (leb a round)) [
  | inl later ↦ rw later (leb→le a round later)
  | inr earlier ↦ rw earlier (omega arith)
]

Within-lock_on : (round : ℕ) (block : Block) (c : ConsensusState) → Within c (lock_on round block c)
unfolding lock_on recorded bucket buckets
Within-lock_on round block c = record {
  rounds = omega arith;
  locks = lock-NotBefore c.locked_round round;
  proofs = lock-NotBefore c.valid_round round;
  votes = λ r p a v h. h;
}

-- The parts of the state that the relation speaks of are unchanged.
Within-same :
    (c d : ConsensusState)
    → c.round ≤ d.round
    → d.locked_round ≡ c.locked_round
    → d.valid_round ≡ c.valid_round
    → d.votes ≡ c.votes
    → Within c d
unfolding recorded bucket buckets
Within-same c d later p q e = record {
  rounds = later;
  locks = rw p (NotBefore-refl c.locked_round);
  proofs = rw q (NotBefore-refl c.valid_round);
  votes = λ r ph a v h. rw e h;
}

Within-touch :
    (r : ℕ) (c : ConsensusState)
    → Within c (record c { votes = Dict.set_default r no_votes c.votes })
Within-touch r c = record {
  rounds = omega arith;
  locks = NotBefore-refl c.locked_round;
  proofs = NotBefore-refl c.valid_round;
  votes = λ round p a v h. recorded-touch c r round p a ∙ h;
}

-- A new vote, with a step that may change too.
Within-vote :
    (r : ℕ) (p : Phase) (b : String) (vote : Vote) (c d : ConsensusState)
    → Dict.has b (bucket r p c) ≡ false
    → c.round ≤ d.round
    → d.locked_round ≡ c.locked_round
    → d.valid_round ≡ c.valid_round
    → d.votes ≡ (with_vote r p b vote c).votes
    → Within c d
Within-vote r p b vote c d free later e k votes = record {
  rounds = later;
  locks = rw e (NotBefore-refl c.locked_round);
  proofs = rw k (NotBefore-refl c.valid_round);
  votes = λ round ph a v h.
      recorded-same_votes (with_vote r p b vote c) d votes round ph a
      ∙ recorded-with_vote c r p b vote free round ph a v h;
}

module _ (C : Crypto) (draw : ℕ → ℕ → ℕ) where
  abbrev pub Advances : Sys → Sys → Type 0
  Advances s t = Forward s.engine t.engine

  pub Keeper-Advances : Keeper C draw Advances
  unfolding touch_bucket start_round reset_round_timeout cancel_timeout announce put_proposal
      broadcast equivocate_proposal equivocate_vote cast_vote put_vote log log_at commit send_to
  Keeper-Advances = record {
    same = λ s. Forward-cs _ _ refl (Within-refl s.engine.cs);
    trans = λ s t u p q. Forward-trans s.engine t.engine u.engine p q;
    net = λ s n. Forward-cs _ _ refl (Within-refl s.engine.cs);
    touch = λ r s. Forward-cs _ _ refl (Within-touch r s.engine.cs);
    start = λ r s d h. Forward-cs _ _ refl (Within-same s.engine.cs _ h refl refl refl);
    propose = λ b s. Forward-cs _ _ refl (Within-same s.engine.cs _ (omega arith) refl refl refl);
    propose_two = λ s. Forward-cs _ _ refl (Within-same s.engine.cs _ (omega arith) refl refl refl);
    keep_proposal =
        λ r b s. Forward-cs _ _ refl (Within-same s.engine.cs _ (omega arith) refl refl refl);
    cast = λ p h s n. Forward-cs _ _ refl (
        Within-vote s.engine.cs.round p s.engine.node_id (own_vote C s.engine p h) s.engine.cs _ n
          (omega arith) refl refl refl);
    equivocate = λ p h s n. Forward-cs _ _ refl (
        Within-vote s.engine.cs.round p s.engine.node_id (own_vote C s.engine p h) s.engine.cs _ n
          (omega arith) refl refl refl);
    lock = λ r b s k. Forward-cs _ _ refl (Within-lock_on r b s.engine.cs);
    decide = λ b h s d k e. record { heights = omega arith; within = λ e. absurd (omega arith) };
    receive = λ p v s a b c n.
        Forward-cs _ _ refl
          (Within-vote v.round p v.validator v s.engine.cs _ n (omega arith) refl refl refl);
    park = λ p s. Forward-cs _ _ refl (Within-same s.engine.cs _ (omega arith) refl refl refl);
    pool = λ m s. Forward-cs _ _ refl (Within-refl s.engine.cs);
  }
