-- ===== src/Engine/Certificates/Kept.antt =====
-- Every method and handler keeps the quorum behind each finalized block and each lock.
use blockchain_application.Prelude.{
  ℕ, ◌*◌, ◌<◌, refl, String, List, length, string_eq, nat_eq, arith,
}
use blockchain_application.Crypto.Signing.{Crypto, IsLawful}
use blockchain_application.Messages.Vote.{Phase, prevote, precommit, Vote}
use blockchain_application.Engine.Types.{Sys, quorum_of}
use blockchain_application.Engine.Chain.{
  bucket, touch_bucket, put_vote, reset_round_timeout, cancel_timeout, log, log_at,
}
use blockchain_application.Engine.Votes.{cast_vote, equivocate_vote, own_vote, send_to, broadcast}
use blockchain_application.Engine.Proposals.{announce, equivocate_proposal, put_proposal}
use blockchain_application.Engine.Rounds.{start_round, commit, lock_on}
use blockchain_application.Engine.Buckets.{bucket-touch}
use blockchain_application.Engine.Origin.{Origin-vote}
use blockchain_application.Engine.Authentic.{Keeper-Authentic}
use blockchain_application.Engine.Induction.{ShowsQuorum, Evidence, Invariant}
use blockchain_application.Engine.Certificates.{
  Justified, Justified-more, Justified-same, Justified-keep, Justified-lock_on, Justified-commit,
  small_buckets, votes_for-with_vote,
}

module _ (C : Crypto) (vs : List String) (H : Phase → Vote → Type 0) where
  module _ (L : IsLawful C) (draw : ℕ → ℕ → ℕ) (small : length vs < 2 * quorum_of (length vs)) where
    abbrev IsJustified : Sys → Type 0
    IsJustified s = Justified C vs H s.engine

    evident :
        (round : ℕ) (phase : Phase) (h : String) (s : Sys)
        → Evidence vs IsJustified round phase h s
        → ShowsQuorum vs h (bucket round phase s.engine.cs)
    evident round phase h s shown = shown (small_buckets C vs H small round phase)

    pub Justified-Invariant : Invariant C draw vs H IsJustified
    unfolding touch_bucket start_round reset_round_timeout cancel_timeout announce put_proposal
        broadcast equivocate_proposal equivocate_vote cast_vote put_vote log log_at commit send_to
        lock_on
    Justified-Invariant =
        let K = Keeper-Authentic C L draw in
        record {
          set = λ s j. j.set;
          logged = λ entry s j.
              Justified-keep C vs H s.engine _ j.auth refl refl refl refl refl refl refl j;
          sent = λ targets message s j.
              Justified-keep C vs H s.engine _ j.auth refl refl refl refl refl refl refl j;
          touched = λ round s j.
              Justified-same C vs H s.engine _ (K.touch round s j.auth) refl refl refl refl refl
                refl (bucket-touch s.engine.cs round) j;
          started = λ round s j going later.
              Justified-keep C vs H s.engine _ (K.start round s going later j.auth) refl refl refl
                refl refl refl refl j;
          proposed = λ block s j.
              Justified-keep C vs H s.engine _ (K.propose block s j.auth) refl refl refl refl refl
                refl refl j;
          proposed_two = λ s j.
              Justified-keep C vs H s.engine _ (K.propose_two s j.auth) refl refl refl refl refl
                refl refl j;
          kept_proposal = λ round block s j.
              Justified-keep C vs H s.engine _ (K.keep_proposal round block s j.auth) refl refl refl
                refl refl refl refl j;
          cast = λ phase h s j new.
              Justified-more C vs H s.engine _ (K.cast phase h s new j.auth)
                (Origin-vote H s.engine (cast_vote C draw phase h s).engine s.engine.cs.round phase
                  s.engine.node_id (own_vote C s.engine phase h) refl refl
                  (λ other. absurd (ground arith)) j.origin)
                refl refl refl refl refl refl
                (λ r k.
                  votes_for-with_vote s.engine.cs s.engine.cs.round phase s.engine.node_id
                    (own_vote C s.engine phase h) new r k)
                j;
          equivocated = λ phase h s j new.
              Justified-more C vs H s.engine _ (K.equivocate phase h s new j.auth)
                (Origin-vote H s.engine (equivocate_vote C draw phase h s).engine s.engine.cs.round
                  phase s.engine.node_id (own_vote C s.engine phase h) refl refl
                  (λ other. absurd (ground arith)) j.origin)
                refl refl refl refl refl refl
                (λ r k.
                  votes_for-with_vote s.engine.cs s.engine.cs.round phase s.engine.node_id
                    (own_vote C s.engine phase h) new r k)
                j;
          locked = λ round block h s j known agree shown.
              Justified-lock_on C vs H round block s.engine _ (K.lock round block s known j.auth)
                refl refl refl refl refl (rw agree (evident round prevote h s shown)) j;
          decided = λ round block h s j going lock agree shown.
              Justified-commit C vs H block s.engine _ (K.decide block h s going lock agree j.auth)
                refl refl refl refl refl
                (record {
                  round = round;
                  votes = bucket round precommit s.engine.cs;
                  stored = rw j.set at (j.auth.stored round precommit);
                  cast = j.auth.cast round precommit;
                  origin = j.origin round precommit;
                  full = rw agree (evident round precommit h s shown);
                })
                j;
          received = λ phase v s j member height real new heard.
              Justified-more C vs H s.engine _ (K.receive phase v s member height real new j.auth)
                (Origin-vote H s.engine (put_vote v.round phase v.validator v s).engine v.round
                  phase v.validator v refl refl (λ _. heard) j.origin)
                refl refl refl refl refl refl
                (λ r k. votes_for-with_vote s.engine.cs v.round phase v.validator v new r k) j;
          parked = λ pending s j.
              Justified-keep C vs H s.engine _ (K.park pending s j.auth) refl refl refl refl refl
                refl refl j;
          pooled = λ mempool s j.
              Justified-keep C vs H s.engine _ (K.pool mempool s j.auth) refl refl refl refl refl
                refl refl j;
        }
