-- ===== src/Engine/Authentic.antt =====
-- What the buckets of an engine hold: one vote for each validator, signed by that validator, for
-- the engine's height and the bucket's round.
use blockchain_application.Prelude.{
  ℕ, ◌≡◌, refl, String, true, some, List, arith, inl, inr, contains, string_eq, nat_eq,
}
use blockchain_application.Prelude.Dict
use blockchain_application.Prelude.Dict.{Dict, lookup-insert, lookup-set_default, insert-NodupKeys}
use blockchain_application.Crypto.Signing.{Crypto, IsLawful, pubkey_hex}
use blockchain_application.Messages.Vote
use blockchain_application.Messages.Vote.{Phase, prevote, precommit, Vote}
use blockchain_application.Engine.Types.{Engine, Sys, fresh}
use blockchain_application.Engine.Chain.{
  bucket, touch_bucket, reset_round_timeout, cancel_timeout, put_vote, log, log_at,
}
use blockchain_application.Engine.Votes.{own_vote, cast_vote, equivocate_vote, send_to, broadcast}
use blockchain_application.Engine.Proposals.{announce, equivocate_proposal, put_proposal}
use blockchain_application.Engine.Rounds.{start_round, commit, lock_on}
use blockchain_application.Engine.Recorded.{with_vote}
use blockchain_application.Engine.Induction.Keepers.{Keeper}
use blockchain_application.Quorum.Votes.{IsBucket}
use blockchain_application.Engine.Buckets.{
  bucket-with_vote, bucket-touch, bucket-fresh, IsBucket-nil, nothing-stored, same_votes,
}

abbrev pub IsVoteOf : Crypto → ℕ → ℕ → String → Vote → Type 0
IsVoteOf C height round a v =
    (v.validator ≡ a) × (v.height ≡ height) × (v.round ≡ round) × (Vote.verify C v ≡ true)

pub record Authentic (C : Crypto) (e : Engine) : Type 0 where
  pub member : contains e.validators e.node_id ≡ true
  pub own : e.node_id ≡ pubkey_hex C (C.public_key e.signing_key)
  pub stored : (round : ℕ) (phase : Phase) → IsBucket e.validators (bucket round phase e.cs)
  pub cast :
      (round : ℕ) (phase : Phase) (a : String) (v : Vote)
      → Dict.lookup a (bucket round phase e.cs) ≡ some v
      → IsVoteOf C e.height round a v

insert-IsBucket :
    (validators : List String) (a : String) (v : Vote) (d : Dict String Vote)
    → contains validators a ≡ true
    → IsBucket validators d
    → IsBucket validators (Dict.insert a v d)
insert-IsBucket validators a v d known b = record {
  once = insert-NodupKeys a v d b.once;
  members = λ c w e. ground (arith, lookup-insert c a v d, b.members c w);
}

module _ (C : Crypto) where
  -- A change that leaves the identity, the height and every bucket alone.
  Authentic-same :
      (d e : Engine)
      → e.validators ≡ d.validators
      → e.node_id ≡ d.node_id
      → e.signing_key ≡ d.signing_key
      → e.height ≡ d.height
      → ((round : ℕ) (phase : Phase) → bucket round phase e.cs ≡ bucket round phase d.cs)
      → Authentic C d
      → Authentic C e
  Authentic-same d e vs id key height same x = record {
    member = rw (vs, id) x.member;
    own = rw (id, key) x.own;
    stored = λ r p. rw (vs, same r p) (x.stored r p);
    cast = λ r p a v h. rw height (x.cast r p a v (rw (same r p) at h));
  }

  cast-insert :
      (height round : ℕ) (d : Dict String Vote) (b : String) (vote : Vote)
      → IsVoteOf C height round b vote
      → ((a : String) (v : Vote) → Dict.lookup a d ≡ some v → IsVoteOf C height round a v)
      → (a : String) (v : Vote) → Dict.lookup a (Dict.insert b vote d) ≡ some v
      → IsVoteOf C height round a v
  cast-insert height round d b vote real old a v h =
      ground (arith, lookup-insert a b vote d, old a v)

  -- A genuine vote of a validator for the engine's height is put into the bucket of its round.
  Authentic-vote :
      (d e : Engine) (r : ℕ) (p : Phase) (b : String) (vote : Vote)
      → e.validators ≡ d.validators
      → e.node_id ≡ d.node_id
      → e.signing_key ≡ d.signing_key
      → e.height ≡ d.height
      → e.cs.votes ≡ (with_vote r p b vote d.cs).votes
      → contains d.validators b ≡ true
      → IsVoteOf C d.height r b vote
      → Authentic C d
      → Authentic C e
  Authentic-vote d e r p b vote vs id key height votes known real x = record {
    member = rw (vs, id) x.member;
    own = rw (id, key) x.own;
    stored = λ round phase. rw (vs, same round phase) (stored' round phase);
    cast = λ round phase a v h. rw height (cast' round phase a v (rw (same round phase) at h));
  }
    where
      same :
          (round : ℕ) (phase : Phase)
          → bucket round phase e.cs ≡ bucket round phase (with_vote r p b vote d.cs)
      same = same_votes (with_vote r p b vote d.cs) e.cs votes

      after : ℕ → Phase → Dict String Vote
      after round phase = bucket round phase (with_vote r p b vote d.cs)

      stored' : (round : ℕ) (phase : Phase) → IsBucket d.validators (after round phase)
      stored' round phase = elim (bucket-with_vote d.cs r p b vote round phase) [
        | inl kept ↦ rw kept (x.stored round phase)
        | inr (_, _, new) ↦ rw new (
            insert-IsBucket d.validators b vote (bucket round phase d.cs) known
              (x.stored round phase))
      ]

      cast' :
          (round : ℕ) (phase : Phase) (a : String) (v : Vote)
          → Dict.lookup a (after round phase) ≡ some v
          → IsVoteOf C d.height round a v
      cast' round phase a v h = elim (bucket-with_vote d.cs r p b vote round phase) [
        | inl kept ↦ x.cast round phase a v (rw kept at h)
        | inr (here, _, new) ↦
            cast-insert d.height round (bucket round phase d.cs) b vote (rw here real)
              (x.cast round phase) a v (rw new at h)
      ]

  -- A new height begins with empty buckets.
  Authentic-fresh :
      (d e : Engine)
      → e.validators ≡ d.validators
      → e.node_id ≡ d.node_id
      → e.signing_key ≡ d.signing_key
      → e.cs ≡ fresh
      → Authentic C d
      → Authentic C e
  Authentic-fresh d e vs id key new x = record {
    member = rw (vs, id) x.member;
    own = rw (id, key) x.own;
    stored = λ r p. rw (new, bucket-fresh r p) (IsBucket-nil e.validators);
    cast = λ r p a v h. absurd (nothing-stored a v (rw (new, bucket-fresh r p) at h));
  }

  own_vote-IsVoteOf :
      IsLawful C
      → (e : Engine) (phase : Phase) (h : String) → Authentic C e
      → IsVoteOf C e.height e.cs.round e.node_id (own_vote C e phase h)
  unfolding own_vote Vote.sign
  own_vote-IsVoteOf L e phase h x = (refl, refl, refl, Vote.verify-sign C L e.signing_key _ x.own)

  Authentic-keep :
      (d e : Engine)
      → e.validators ≡ d.validators
      → e.node_id ≡ d.node_id
      → e.signing_key ≡ d.signing_key
      → e.height ≡ d.height
      → e.cs.votes ≡ d.cs.votes
      → Authentic C d
      → Authentic C e
  Authentic-keep d e vs id key height votes =
      Authentic-same d e vs id key height (same_votes d.cs e.cs votes)

  module _ (L : IsLawful C) (draw : ℕ → ℕ → ℕ) where
    abbrev pub KeepsAuthentic : Sys → Sys → Type 0
    KeepsAuthentic s t = Authentic C s.engine → Authentic C t.engine

    pub Keeper-Authentic : Keeper C draw KeepsAuthentic
    unfolding touch_bucket start_round reset_round_timeout cancel_timeout announce put_proposal
        broadcast equivocate_proposal equivocate_vote cast_vote put_vote log log_at commit send_to
        lock_on
    Keeper-Authentic = record {
      same = λ s x. x;
      trans = λ s t u p q x. q (p x);
      net = λ s n x. x;
      touch = λ r s. Authentic-same s.engine _ refl refl refl refl (bucket-touch s.engine.cs r);
      start = λ r s d h. Authentic-keep s.engine _ refl refl refl refl refl;
      propose = λ b s. Authentic-keep s.engine _ refl refl refl refl refl;
      propose_two = λ s. Authentic-keep s.engine _ refl refl refl refl refl;
      keep_proposal = λ r b s. Authentic-keep s.engine _ refl refl refl refl refl;
      cast = λ p h s n x.
          Authentic-vote s.engine _ s.engine.cs.round p s.engine.node_id (own_vote C s.engine p h)
            refl refl refl refl refl x.member (own_vote-IsVoteOf L s.engine p h x) x;
      equivocate = λ p h s n x.
          Authentic-vote s.engine _ s.engine.cs.round p s.engine.node_id (own_vote C s.engine p h)
            refl refl refl refl refl x.member (own_vote-IsVoteOf L s.engine p h x) x;
      lock = λ r b s k. Authentic-keep s.engine _ refl refl refl refl refl;
      decide = λ b h s d k e. Authentic-fresh s.engine _ refl refl refl refl;
      receive = λ p v s a b c n.
          Authentic-vote s.engine _ v.round p v.validator v refl refl refl refl refl a
            (refl, b, refl, c);
      park = λ p s. Authentic-keep s.engine _ refl refl refl refl refl;
      pool = λ m s. Authentic-keep s.engine _ refl refl refl refl refl;
    }
