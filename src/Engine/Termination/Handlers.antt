-- ===== src/Engine/Termination/Handlers.antt =====
-- Every message and every expiry of the round timer is dealt with at a depth that is known
-- beforehand: no handler of src/consensus/engine.py runs into the recursion limit.
use blockchain_application.Prelude.{
  ℕ, zero, suc, ◌+◌, ◌≤◌, ◌<◌, ◌≡◌, inl, inr, refl, String, ◌||◌, not, Option, none, some, List, [],
  ◌∷◌, arith, ◌==◌, contains, string_eq, nat_eq, length, Bool-cases,
}
use blockchain_application.Prelude.Dict
use blockchain_application.Crypto.Signing.{Crypto}
use blockchain_application.Messages.Transaction.{Transaction}
use blockchain_application.Messages.BlockHeader.{BlockHeader}
use blockchain_application.Messages.Block.{Block}
use blockchain_application.Messages.Vote
use blockchain_application.Messages.Vote.{Phase, prevote, precommit, Vote}
use blockchain_application.Network.Types.{Message, proposal, vote, body_request, body_response}
use blockchain_application.Engine.Types.{Sys, quorum}
use blockchain_application.Engine.Chain.{bucket, touch_bucket, put_vote, log, log_at}
use blockchain_application.Engine.Validation.{accept_header}
use blockchain_application.Engine.Rounds
use blockchain_application.Engine.Handlers
use blockchain_application.Engine.Inputs.{Input, receive, expire, elsewhere, dispatch, perform}
use blockchain_application.Engine.Termination.{
  Returns, Returns-if, Returns-option, Returns-map, pending, pending-le, Calm, Entered,
}
use blockchain_application.Engine.Termination.Tallies.{
  Calm-touch, Calm-put, send_vote_with-Calm, tally_prevotes-Calm, tally_precommits-Calm,
}
use blockchain_application.Engine.Termination.Proposing.{handle_proposal_local-Returns}
use blockchain_application.Engine.Termination.Depth.{enter_round-again, enter_round-Entered}

-- Before a handler: a quorum takes at least two votes, and the depth is by more than one greater than
-- the number of rounds with stored votes.
pub record IsReady (depth : ℕ) (s : Sys) : Type 0 where
  pub many : 2 ≤ quorum s.engine
  pub room : pending 0 s.engine.cs.votes + 1 < depth

abbrev Some : Sys → Type 0
Some s = Unit

Returns-list :
    {A : Type 0} (xs : List A) (x : Option Sys) (f : A → List A → Option Sys)
    → Returns Some x
    → ((a : A) (rest : List A) → Returns Some (f a rest))
    → Returns Some (elim xs [ [] ↦ x | a ∷ rest ↦ f a rest ])
Returns-list [] x f p q = p
Returns-list (a ∷ rest) x f p q = q a rest

returned : (x : Option Sys) → Returns Some x → (t : Sys) × (x ≡ some t)
returned none r = absurd r
returned (some t) r = (t, refl)

module _ (C : Crypto) (draw : ℕ → ℕ → ℕ) (depth : ℕ) where
  Calm-ready : (r : ℕ) (s : Sys) → IsReady depth s → Calm 0 r depth s
  Calm-ready r s ready = record {
    many = ready.many;
    deep = omega (arith, ready.room);
    room = λ _. omega (arith, pending-le 0 (r + 1) s.engine.cs.votes (omega arith), ready.room);
    late = inl (omega arith);
  }

  tally-Some :
      (r : ℕ) (phase : Phase) (s : Sys)
      → Calm 0 r depth s
      → Returns Some (Rounds.tally C draw (Rounds.enter_round C draw depth) r phase s)
  unfolding Rounds.tally
  tally-Some r prevote s c =
      Returns-map (Calm 0 r depth) Some _ (λ _ _. tt)
        (tally_prevotes-Calm C draw (Rounds.enter_round C draw depth) 0 r depth (omega arith)
          (λ q t. enter_round-Entered C draw depth q t) (enter_round-again C draw depth c.deep) s
          (omega arith) c)
  tally-Some r precommit s c =
      Returns-map (Calm 0 r depth) Some _ (λ _ _. tt)
        (tally_precommits-Calm C draw (Rounds.enter_round C draw depth) 0 r depth (omega arith)
          (λ q t. enter_round-Entered C draw depth q t) (enter_round-again C draw depth c.deep) s
          (omega arith) c)

  on_vote-Some :
      (phase : Phase) (v : Vote) (s : Sys)
      → IsReady depth s
      → Returns Some (Handlers.on_vote C draw depth phase v s)
  unfolding Handlers.on_vote
  on_vote-Some phase v s ready =
      let s' = touch_bucket v.round s in
      let c =
        Calm-touch 0 v.round depth v.round s (omega arith) (omega arith)
          (Calm-ready v.round s ready) in
      Returns-if Some
        (not (contains s.engine.validators v.validator) || not (v.height == s.engine.height)) _ _
        (λ _. tt)
        (λ _.
          Returns-if Some (not (Vote.verify C v)) _ _ (λ _. tt)
            (λ _.
              Returns-if Some (Dict.has v.validator (bucket v.round phase s'.engine.cs)) _ _
                (λ _. tt)
                (λ _. tally-Some v.round phase (put_vote v.round phase v.validator v s') (
                  Calm-put 0 v.round depth v.round phase v.validator v s' (omega arith)
                    (omega arith) c))))

  local-Some :
      (block : Block) (round : ℕ) (s : Sys)
      → IsReady depth s
      → Returns Some
          (Rounds.handle_proposal_local C draw (Rounds.enter_round C draw depth) block round s)
  unfolding Rounds.send_prevote
  local-Some block round s ready =
      let enter = Rounds.enter_round C draw depth in
      handle_proposal_local-Returns C draw enter Some s (λ _ _. tt)
        (λ h t l.
          let r = t.engine.cs.round in
          let c =
            Calm-ready r t (record { many = rw l.sets ready.many; room = rw l.votes ready.room }) in
          Returns-map (Calm 0 r depth) Some (Rounds.send_prevote C draw enter h t) (λ _ _. tt)
            (send_vote_with-Calm C draw 0 r depth (Rounds.tally_prevotes C draw enter) prevote h
              (λ u now k.
                tally_prevotes-Calm C draw enter 0 r depth (omega arith)
                  (λ q w. enter_round-Entered C draw depth q w)
                  (enter_round-again C draw depth k.deep) u (omega arith) k)
              t (omega arith) refl c))
        block round s (record { votes = refl; round = refl; sets = refl })

  on_accepted-Some :
      (header : BlockHeader) (tx_hashes : List String) (round : ℕ) (s : Sys)
      → IsReady depth s
      → Returns Some (Handlers.on_accepted C draw depth header tx_hashes round s)
  unfolding Handlers.on_accepted
  on_accepted-Some header tx_hashes round s ready =
      Returns-list (Handlers.missing C s.engine.mempool tx_hashes) _ _ (local-Some _ round s ready)
        (λ _ _. tt)

  on_proposal-Some :
      (header : BlockHeader) (tx_hashes : List String) (round : ℕ) (s : Sys)
      → IsReady depth s
      → Returns Some (Handlers.on_proposal C draw depth header tx_hashes round s)
  unfolding Handlers.on_proposal
  on_proposal-Some header tx_hashes round s ready =
      Returns-option Some (accept_header C s.engine header round) _ _
        (λ _. on_accepted-Some header tx_hashes round s ready) (λ _ _. tt)

  retry-Some :
      (round : ℕ) (parked : Option (BlockHeader × List String)) (s : Sys)
      → IsReady depth s
      → Returns Some (Handlers.retry C draw depth round parked s)
  unfolding Handlers.retry
  retry-Some round none s ready = tt
  retry-Some round (some (header, tx_hashes)) s ready =
      Returns-list (Handlers.missing C s.engine.mempool tx_hashes) _ _ (local-Some _ round s ready)
        (λ _ _. tt)

  on_body_response-Some :
      (round : ℕ) (bodies : List Transaction) (s : Sys)
      → IsReady depth s
      → Returns Some (Handlers.on_body_response C draw depth round bodies s)
  unfolding Handlers.on_body_response log_at
  on_body_response-Some round bodies s ready =
      retry-Some round _ _ (record { many = ready.many; room = ready.room })

  enter_round-Some :
      (deep r : ℕ) (s : Sys)
      → 2 ≤ quorum s.engine
      → pending r s.engine.cs.votes < deep
      → Returns Some (Rounds.enter_round C draw deep r s)
  unfolding Rounds.enter_round
  enter_round-Some zero r s many room = absurd (omega arith)
  enter_round-Some (suc deep) r s many room = elim (Bool-cases s.engine.cs.decided) [
    | inl over ↦ rw over tt
    | inr going ↦
        Returns-map (Entered r) Some (Rounds.enter_round C draw (suc deep) r s) (λ _ _. tt)
          (enter_round-Entered C draw (suc deep) r s going many room)
  ]

  on_timeout-Some : (s : Sys) → IsReady depth s → Returns Some (Handlers.on_timeout C draw depth s)
  unfolding Handlers.on_timeout log log_at
  on_timeout-Some s ready = enter_round-Some depth (s.engine.cs.round + 1) _ ready.many (
      omega
        (arith, pending-le 0 (s.engine.cs.round + 1) s.engine.cs.votes (omega arith), ready.room))

  dispatch-Some :
      (message : Message) (s : Sys)
      → IsReady depth s
      → Returns Some (dispatch C draw depth message s)
  unfolding dispatch Handlers.on_body_request
  dispatch-Some (proposal header tx_hashes round) s ready =
      on_proposal-Some header tx_hashes round s ready
  dispatch-Some (vote phase v) s ready = on_vote-Some phase v s ready
  dispatch-Some (body_request round tx_hashes sender) s ready = tt
  dispatch-Some (body_response round bodies sender) s ready =
      on_body_response-Some round bodies s ready

  perform-Some : (i : Input) (s : Sys) → IsReady depth s → Returns Some (perform C draw depth i s)
  unfolding perform
  perform-Some (receive message) s ready = dispatch-Some message s ready
  perform-Some expire s ready = on_timeout-Some s ready
  perform-Some (elsewhere n) s ready = tt

  -- With four validators or more, every message and every expiry of the round timer is dealt with,
  -- without a `RecursionError`, at any depth that exceeds the number of rounds with stored votes
  -- by more than one.
  pub perform_returns :
      (i : Input) (s : Sys)
      → 4 ≤ length s.engine.validators
      → pending 0 s.engine.cs.votes + 1 < depth
      → (t : Sys) × (perform C draw depth i s ≡ some t)
  perform_returns i s four room =
      returned (perform C draw depth i s)
        (perform-Some i s (record { many = omega arith; room = room }))
