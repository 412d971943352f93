-- ===== src/Engine/Termination/Depth.antt =====
-- A depth beyond the number of the rounds with stored votes is enough for `_enter_round`.
use blockchain_application.Prelude.{
  ℕ, zero, suc, ◌+◌, ◌≤◌, ◌<◌, ◌≡◌, inl, inr, refl, ap, ◌∙◌, false, none, [], arith, string_eq,
  nat_eq, Option-cases,
}
use blockchain_application.Prelude.Dict
use blockchain_application.Prelude.Dict.{lookup-insert}
use blockchain_application.Crypto.Signing.{Crypto}
use blockchain_application.Messages.Vote.{prevote}
use blockchain_application.Engine.Types.{fresh, Sys, quorum}
use blockchain_application.Engine.Chain.{is_proposer, reset_round_timeout, cancel_timeout}
use blockchain_application.Engine.Votes.{Method}
use blockchain_application.Engine.Rounds
use blockchain_application.Engine.Termination.{
  Returns, Returns-if, Returns-map, pending, pending-stored, Calm, Entered, Fresh,
}
use blockchain_application.Engine.Termination.Tallies.{send_vote_with-Calm, tally_prevotes-Calm}
use blockchain_application.Engine.Termination.Proposing.{Like, propose-Returns}
use blockchain_application.Engine.Termination.Alone.{Alone, send_prevote-Alone}

module _ (C : Crypto) (draw : ℕ → ℕ → ℕ) where
  Alone-trans : (s t u : Sys) → Like s t → Alone t u → Alone s u
  Alone-trans s t u l a = record {
    round = a.round ∙ l.round;
    sets = a.sets ∙ l.sets;
    later = λ r lt. a.later r (rw l.round lt) ∙ ap (pending r) l.votes;
  }

  -- A proposal for a round with no stored votes calls no further round.
  propose-Alone :
      (enter : ℕ → Method) (s : Sys)
      → Dict.lookup s.engine.cs.round s.engine.cs.votes ≡ none
      → 2 ≤ quorum s.engine
      → Returns (Alone s) (Rounds.propose C draw enter s)
  propose-Alone enter s free many =
      propose-Returns C draw enter (Alone s) s
        (λ t l. record { round = l.round; sets = l.sets; later = λ r lt. ap (pending r) l.votes })
        (λ h t l.
          Returns-map (Alone t) (Alone s) (Rounds.send_prevote C draw enter h t)
            (λ u. Alone-trans s t u l)
            (send_prevote-Alone C draw enter h t (rw (l.round, l.votes) free) (rw l.sets many)))
        s (record { votes = refl; round = refl; sets = refl })

  Alone-Entered : (s t : Sys) → 2 ≤ quorum s.engine → Alone s t → Entered s.engine.cs.round t
  Alone-Entered s t many a = record { many = rw a.sets many; late = inl (omega (arith, a.round)) }

  -- At a new height the call for round 0 goes no deeper.
  enter_round-Fresh :
      (depth : ℕ) (s : Sys)
      → s.engine.cs ≡ fresh
      → 2 ≤ quorum s.engine
      → Returns Fresh (Rounds.enter_round C draw (suc depth) 0 s)
  unfolding Rounds.enter_round Rounds.start_round reset_round_timeout cancel_timeout pending
      Dict.lookup
  enter_round-Fresh depth s new many =
      let s' = Rounds.start_round 0 s in
      let empty : s.engine.cs.votes ≡ [] = rw new refl in
      Returns-if Fresh s.engine.cs.decided _ _ (λ over. absurd (ground arith))
        (λ _.
          Returns-if Fresh (is_proposer s'.engine) _ _
            (λ _.
              Returns-map (Alone s') Fresh
                (Rounds.propose C draw (Rounds.enter_round C draw depth) s')
                (λ t a. record {
                  many = rw a.sets many;
                  none_later = a.later 1 (omega arith) ∙ ap (pending 1) empty;
                })
                (propose-Alone (Rounds.enter_round C draw depth) s' (rw empty refl) many))
            (λ _. record { many = many; none_later = ap (pending 1) empty }))

  pub enter_round-again :
      (depth : ℕ)
      → 0 < depth
      → (s : Sys) → s.engine.cs ≡ fresh
      → 2 ≤ quorum s.engine
      → Returns Fresh (Rounds.enter_round C draw depth 0 s)
  enter_round-again zero deep s new many = absurd (omega arith)
  enter_round-again (suc depth) deep s new many = enter_round-Fresh depth s new many

  -- The calls of `_enter_round` at a depth return.
  abbrev Enough : ℕ → Type 0
  Enough depth =
      (r : ℕ) (s : Sys)
      → s.engine.cs.decided ≡ false
      → 2 ≤ quorum s.engine
      → pending r s.engine.cs.votes < depth
      → Returns (Entered r) (Rounds.enter_round C draw depth r s)

  -- A proposal for a round with stored votes may go on to the next round.
  propose-Entered :
      (depth : ℕ) (s : Sys)
      → Enough depth
      → 2 ≤ quorum s.engine
      → pending (s.engine.cs.round + 1) s.engine.cs.votes < depth
      → Returns
          (Entered s.engine.cs.round)
          (Rounds.propose C draw (Rounds.enter_round C draw depth) s)
  unfolding Rounds.send_prevote
  propose-Entered depth s enough many room =
      let enter = Rounds.enter_round C draw depth in
      let r = s.engine.cs.round in
      let again = enter_round-again depth (omega arith) in
      propose-Returns C draw enter (Entered r) s
        (λ t l. record { many = rw l.sets many; late = inl (omega (arith, l.round)) })
        (λ h t l.
          Returns-map (Calm r r depth) (Entered r) (Rounds.send_prevote C draw enter h t)
            (λ u c. record { many = c.many; late = c.late })
            (send_vote_with-Calm C draw r r depth (Rounds.tally_prevotes C draw enter) prevote h
              (λ u now c.
                tally_prevotes-Calm C draw enter r r depth (omega arith) enough again u
                  (omega arith) c)
              t (omega arith) l.round
              (record {
                many = rw l.sets many;
                deep = omega arith;
                room = λ _. rw l.votes room;
                late = inl (omega (arith, l.round));
              })))
        s (record { votes = refl; round = refl; sets = refl })

  propose-Enough :
      (depth : ℕ) (s : Sys)
      → Enough depth
      → 2 ≤ quorum s.engine
      → pending s.engine.cs.round s.engine.cs.votes < suc depth
      → Returns
          (Entered s.engine.cs.round)
          (Rounds.propose C draw (Rounds.enter_round C draw depth) s)
  propose-Enough depth s enough many room =
      let r = s.engine.cs.round in
      elim (Option-cases (Dict.lookup r s.engine.cs.votes)) [
        | inl free ↦
            Returns-map (Alone s) (Entered r) _ (λ t. Alone-Entered s t many)
              (propose-Alone (Rounds.enter_round C draw depth) s free many)
        | inr (b, stored) ↦
            propose-Entered depth s enough many
              (omega (arith, pending-stored r b s.engine.cs.votes stored))
      ]

  -- `_enter_round` returns at any depth that is greater than the number of the rounds, from the one
  -- entered on, that have stored votes, provided that a quorum takes at least two votes and that
  -- the height is not decided. Afterwards the node is in this round or a later one, or at a new
  -- height where at most round 0 has votes.
  pub enter_round-Entered :
      (depth r : ℕ) (s : Sys)
      → s.engine.cs.decided ≡ false
      → 2 ≤ quorum s.engine
      → pending r s.engine.cs.votes < depth
      → Returns (Entered r) (Rounds.enter_round C draw depth r s)
  unfolding Rounds.enter_round Rounds.start_round reset_round_timeout cancel_timeout
  enter_round-Entered zero r s going many room = absurd (omega arith)
  enter_round-Entered (suc depth) r s going many room =
      let s' = Rounds.start_round r s in
      Returns-if (Entered r) s.engine.cs.decided _ _ (λ over. absurd (ground arith))
        (λ _.
          Returns-if (Entered r) (is_proposer s'.engine) _ _
            (λ _. propose-Enough depth s' (λ q t g m. enter_round-Entered depth q t g m) many room)
            (λ _. record { many = many; late = inl (omega arith) }))
