-- ===== src/Engine/Termination/Tallies.antt =====
-- A tally returns, given that the calls of `_enter_round` that it makes do.
use blockchain_application.Prelude.{
  ℕ, ◌+◌, ◌≤◌, ◌<◌, ◌≡◌, inl, refl, sym, ◌∙◌, String, false, ◌&&◌, not, some, [], ◌∷◌, arith, ltb,
  if◌then◌else◌, ◌==◌, string_eq, nat_eq, length,
}
use mathlib.Core.Path.{subst}
use blockchain_application.Prelude.Dict
use blockchain_application.Prelude.Dict.{Dict}
use blockchain_application.Crypto.Signing.{Crypto}
use blockchain_application.Messages.Block
use blockchain_application.Messages.Block.{Block}
use blockchain_application.Messages.Vote.{Phase, prevote, precommit, nil, Vote}
use blockchain_application.Network.Types.{ConsensusEvent}
use blockchain_application.Engine.Types.{no_votes, fresh, Sys, quorum, with_cs}
use blockchain_application.Engine.Chain.{
  bucket, touch_bucket, put_vote, log, log_at, cancel_timeout,
}
use blockchain_application.Engine.Votes.{
  Method, count_votes, react_all, tally_with, cast_vote, equivocate_vote, send_vote_with, send_to,
  broadcast,
}
use blockchain_application.Engine.Rounds
use blockchain_application.Engine.Termination.{
  Returns, Returns-method, Returns-if, Returns-option, Returns-class, Returns-bind, Returns-map,
  pending, pending-insert, pending-set_default, Calm, Entered, Fresh, Calm-Fresh, Calm-Entered,
}

Calm-vote :
    (b r d : ℕ) (s t : Sys)
    → t.engine.cs.round ≡ s.engine.cs.round
    → quorum t.engine ≡ quorum s.engine
    → pending (r + 1) t.engine.cs.votes ≡ pending (r + 1) s.engine.cs.votes
    → b ≤ s.engine.cs.round
    → Calm b r d s
    → Calm b r d t
Calm-vote b r d s t round same kept le c = record {
  many = omega (arith, c.many);
  deep = c.deep;
  room = λ here. omega (arith, c.room (sym round ∙ here));
  late = inl (omega arith);
}

pub Calm-touch :
    (b r d k : ℕ) (s : Sys)
    → k ≤ r
    → b ≤ s.engine.cs.round
    → Calm b r d s
    → Calm b r d (touch_bucket k s)
unfolding touch_bucket
Calm-touch b r d k s below le c =
    Calm-vote b r d s (touch_bucket k s) refl refl
      (pending-set_default (r + 1) k no_votes s.engine.cs.votes (omega arith)) le c

pub Calm-put :
    (b r d k : ℕ) (phase : Phase) (a : String) (v : Vote) (s : Sys)
    → k ≤ r
    → b ≤ s.engine.cs.round
    → Calm b r d s
    → Calm b r d (put_vote k phase a v s)
unfolding put_vote
Calm-put b r d k phase a v s below le c =
    Calm-vote b r d s (put_vote k phase a v s) refl refl
      (pending-insert (r + 1) k _ s.engine.cs.votes (omega arith)) le c

Calm-cast :
    (C : Crypto) (draw : ℕ → ℕ → ℕ) (b r d : ℕ) (phase : Phase) (h : String) (s : Sys)
    → s.engine.cs.round ≤ r
    → b ≤ s.engine.cs.round
    → Calm b r d s
    → Calm b r d (cast_vote C draw phase h s)
unfolding cast_vote put_vote broadcast
Calm-cast C draw b r d phase h s below le c =
    Calm-vote b r d s (cast_vote C draw phase h s) refl refl
      (pending-insert (r + 1) s.engine.cs.round _ s.engine.cs.votes (omega arith)) le c

Calm-equivocate :
    (C : Crypto) (draw : ℕ → ℕ → ℕ) (b r d : ℕ) (phase : Phase) (h : String) (s : Sys)
    → s.engine.cs.round ≤ r
    → b ≤ s.engine.cs.round
    → Calm b r d s
    → Calm b r d (equivocate_vote C draw phase h s)
unfolding equivocate_vote put_vote send_to log log_at
Calm-equivocate C draw b r d phase h s below le c =
    Calm-vote b r d s (equivocate_vote C draw phase h s) refl refl
      (pending-insert (r + 1) s.engine.cs.round _ s.engine.cs.votes (omega arith)) le c

-- A vote for the round `r` returns if the tally after it does.
pub send_vote_with-Calm :
    (C : Crypto) (draw : ℕ → ℕ → ℕ) (b r d : ℕ) (tally : ℕ → Method) (phase : Phase) (h : String)
    → ((t : Sys) → t.engine.cs.round ≡ r → Calm b r d t → Returns (Calm b r d) (tally r t))
    → (s : Sys) → b ≤ r
    → s.engine.cs.round ≡ r
    → Calm b r d s
    → Returns (Calm b r d) (send_vote_with C draw tally phase h s)
unfolding send_vote_with touch_bucket cast_vote put_vote broadcast equivocate_vote send_to log
    log_at
send_vote_with-Calm C draw b r d tally phase h k s le here c =
    let s' = touch_bucket s.engine.cs.round s in
    let c' = Calm-touch b r d s.engine.cs.round s (omega arith) (omega arith) c in
    let called = λ (t : Sys) (now : t.engine.cs.round ≡ r) (kt : Calm b r d t).
      subst (λ q. Returns (Calm b r d) (tally q t)) (sym here) (k t now kt) in
    Returns-if (Calm b r d)
      (Dict.has s.engine.node_id (bucket s.engine.cs.round phase s'.engine.cs)) (some s') _
      (λ _. c')
      (λ _.
        Returns-class (Calm b r d) s.engine.class _ _
          (called (cast_vote C draw phase h s') here
            (Calm-cast C draw b r d phase h s' (omega arith) (omega arith) c'))
          (called (equivocate_vote C draw phase h s') here
            (Calm-equivocate C draw b r d phase h s' (omega arith) (omega arith) c')))

react_all-Calm :
    (b r d : ℕ) (react : String → Method)
    → ((h : String) (t : Sys) → Calm b r d t → Returns (Calm b r d) (react h t))
    → (counts : Dict String ℕ) (s : Sys) → Calm b r d s
    → Returns (Calm b r d) (react_all react counts s)
unfolding react_all
react_all-Calm b r d react k [] s c = c
react_all-Calm b r d react k ((h, n) ∷ counts) s c =
    Returns-bind (Calm b r d) (Calm b r d) (if ltb n (quorum s.engine) then some s else react h s)
      (react_all react counts)
      (Returns-if (Calm b r d) (ltb n (quorum s.engine)) (some s) (react h s) (λ _. c)
        (λ _. k h s c))
      (react_all-Calm b r d react k counts)

tally_with-Calm :
    (b r d : ℕ) (react : String → Method)
    → ((h : String) (t : Sys) → Calm b r d t → Returns (Calm b r d) (react h t))
    → (phase : Phase) (s : Sys) → b ≤ s.engine.cs.round
    → Calm b r d s
    → Returns (Calm b r d) (tally_with react r phase s)
unfolding tally_with
tally_with-Calm b r d react k phase s le c =
    let s' = touch_bucket r s in
    let votes = bucket r phase s'.engine.cs in
    Returns-if (Calm b r d) (ltb (length votes) (quorum s.engine)) _ _
      (λ _. Calm-touch b r d r s (omega arith) le c)
      (λ _.
        react_all-Calm b r d react k (count_votes [] (Dict.values votes)) s'
          (Calm-touch b r d r s (omega arith) le c))

module _ (C : Crypto) (draw : ℕ → ℕ → ℕ) (enter : ℕ → Method) (b r d : ℕ) (le : b ≤ r)
    (next : (q : ℕ) (s : Sys)
      → s.engine.cs.decided ≡ false
      → 2 ≤ quorum s.engine
      → pending q s.engine.cs.votes < d
      → Returns (Entered q) (enter q s))
    (again : (s : Sys)
      → s.engine.cs ≡ fresh
      → 2 ≤ quorum s.engine
      → Returns Fresh (enter 0 s)) where
  on_precommit_quorum-Calm :
      (h : String) (s : Sys)
      → Calm b r d s
      → Returns (Calm b r d) (Rounds.on_precommit_quorum C draw enter h s)
  unfolding Rounds.on_precommit_quorum Rounds.commit cancel_timeout log log_at
  on_precommit_quorum-Calm h s c =
      Returns-if (Calm b r d) s.engine.cs.decided _ _ (λ _. c)
        (λ _.
          Returns-option (Calm b r d) s.engine.cs.locked_block _ _ (λ _. c)
            (λ block _.
              Returns-if (Calm b r d) (Block.block_hash C block == h) _ _
                (λ _.
                  Returns-map Fresh (Calm b r d) (enter 0 (Rounds.commit C block h s))
                    (λ t. Calm-Fresh b r d t c.deep)
                    (again (Rounds.commit C block h s) refl c.many))
                (λ _. c)))

  on_precommit_nil_quorum-Calm :
      (s : Sys)
      → Calm b r d s
      → Returns (Calm b r d) (Rounds.on_precommit_nil_quorum C draw enter r s)
  unfolding Rounds.on_precommit_nil_quorum
  on_precommit_nil_quorum-Calm s c =
      Returns-if (Calm b r d) ((r == s.engine.cs.round) && not s.engine.cs.decided) _ _
        (λ now.
          Returns-map (Entered (r + 1)) (Calm b r d) (enter (r + 1) s)
            (λ t. Calm-Entered b r d t c.deep le)
            (next (r + 1) s (ground arith) c.many (c.room (ground arith))))
        (λ _. c)

  pub tally_precommits-Calm :
      (s : Sys)
      → b ≤ s.engine.cs.round
      → Calm b r d s
      → Returns (Calm b r d) (Rounds.tally_precommits C draw enter r s)
  unfolding Rounds.tally_precommits
  tally_precommits-Calm s at c =
      tally_with-Calm b r d _
        (λ h t k.
          Returns-method (Calm b r d) (h == nil) _ _ t (on_precommit_nil_quorum-Calm t k)
            (on_precommit_quorum-Calm h t k))
        precommit s at c

  send_precommit-Calm :
      (h : String) (s : Sys)
      → s.engine.cs.round ≡ r
      → Calm b r d s
      → Returns (Calm b r d) (Rounds.send_precommit C draw enter h s)
  unfolding Rounds.send_precommit
  send_precommit-Calm h s here c =
      send_vote_with-Calm C draw b r d (Rounds.tally_precommits C draw enter) precommit h
        (λ t now k. tally_precommits-Calm t (omega arith) k) s le here c

  on_prevote_quorum-Calm :
      (h : String) (s : Sys)
      → Calm b r d s
      → Returns (Calm b r d) (Rounds.on_prevote_quorum C draw enter r h s)
  unfolding Rounds.on_prevote_quorum Rounds.awaits_precommit Rounds.lock_on log log_at
  on_prevote_quorum-Calm h s c =
      Returns-option (Calm b r d) (Dict.lookup r s.engine.cs.proposals) (some s) _ (λ _. c)
        (λ block _.
          Returns-if (Calm b r d) (not (Block.block_hash C block == h)) (some s) _ (λ _. c)
            (λ _.
              let s₂ = with_cs (Rounds.lock_on r block) (log (ConsensusEvent.prevote_quorum h) s) in
              let c₂ : Calm b r d s₂ = record {
                many = c.many;
                deep = c.deep;
                room = c.room;
                late = c.late;
              } in
              Returns-if (Calm b r d) (Rounds.awaits_precommit C draw enter r s₂.engine) _ (some s₂)
                (λ now. send_precommit-Calm h s₂ (ground arith) c₂) (λ _. c₂)))

  on_prevote_nil_quorum-Calm :
      (s : Sys)
      → Calm b r d s
      → Returns (Calm b r d) (Rounds.on_prevote_nil_quorum C draw enter r s)
  unfolding Rounds.on_prevote_nil_quorum Rounds.awaits_precommit
  on_prevote_nil_quorum-Calm s c =
      Returns-if (Calm b r d) (Rounds.awaits_precommit C draw enter r s.engine) _ (some s)
        (λ now. send_precommit-Calm nil s (ground arith) c) (λ _. c)

  pub tally_prevotes-Calm :
      (s : Sys)
      → b ≤ s.engine.cs.round
      → Calm b r d s
      → Returns (Calm b r d) (Rounds.tally_prevotes C draw enter r s)
  unfolding Rounds.tally_prevotes
  tally_prevotes-Calm s at c =
      tally_with-Calm b r d _
        (λ h t k.
          Returns-method (Calm b r d) (h == nil) _ _ t (on_prevote_nil_quorum-Calm t k)
            (on_prevote_quorum-Calm h t k))
        prevote s at c
