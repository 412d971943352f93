-- ===== src/World/Nodes.antt =====
-- A property of engines that every node of a world has, through deliveries, round timers and the
-- loop of the clock (src/node.py and `VirtualClock.run`).
use blockchain_application.Prelude.{
  ℕ, zero, suc, ◌≡◌, refl, String, Bool, true, false, Option, none, some, List, arith, ◌==◌,
  if◌then◌else◌, string_eq, Bool-cases, inl, inr,
}
use blockchain_application.Prelude.Dict
use blockchain_application.Prelude.Dict.{Dict, lookup-insert}
use blockchain_application.Crypto.Signing.{Crypto}
use blockchain_application.Clock
use blockchain_application.Clock.{Popped, idle, skipped, expired, fire}
use blockchain_application.Network
use blockchain_application.Network.Types.{LogMessage, Callback, deliver, timeout, recv}
use blockchain_application.Engine.Types.{Engine, Sys}
use blockchain_application.Engine.Handlers.{on_timeout, start}
use blockchain_application.Engine.Inputs.{dispatch}
use blockchain_application.Engine.Induction.{Anything, Hears-Anything, Invariant, Then}
use blockchain_application.Engine.Induction.Handlers.{dispatch-Then, on_timeout-Then, start-Then}
use blockchain_application.World
use blockchain_application.World.{Node, World, Progress, going, finished, raised, set_clock}

abbrev pub EveryNode : (Engine → Type 0) → World → Type 0
EveryNode P w = (node_id : String) (n : Node) → Dict.lookup node_id w.nodes ≡ some n → P n.engine

-- The world that a call of the loop gives back has the property.
abbrev pub Ending : (World → Type 0) → Progress → Type 0
Ending Q (going w) = Q w
Ending Q (finished w) = Q w
Ending Q raised = Unit

abbrev pub Upon : (World → Type 0) → Option World → Type 0
Upon Q none = Unit
Upon Q (some w) = Q w

Upon-if :
    (Q : World → Type 0) (b : Bool) (x y : Option World)
    → Upon Q x
    → Upon Q y
    → Upon Q (if b then x else y)
Upon-if Q true x y p q = p
Upon-if Q false x y p q = q

Upon-option :
    {A : Type 0} (Q : World → Type 0) (o : Option A) (x : Option World) (f : A → Option World)
    → Upon Q x
    → ((a : A) → o ≡ some a → Upon Q (f a))
    → Upon Q (elim o [ none ↦ x | some a ↦ f a ])
Upon-option Q none x f p q = p
Upon-option Q (some a) x f p q = q a refl

module _ {C : Crypto} {draw : ℕ → ℕ → ℕ} {vs : List String} (P : Engine → Type 0)
    (K : Invariant C draw vs Anything (λ s. P s.engine)) (depth : ℕ) where
  run_engine-EveryNode :
      (node_id : String) (n : Node) (method : Sys → Option Sys) (w : World)
      → EveryNode P w
      → Then (λ s. P s.engine) (method (record { engine = n.engine; network = w.network }))
      → Upon (EveryNode P) (World.run_engine C draw depth node_id n method w)
  unfolding World.run_engine
  run_engine-EveryNode node_id n method w every kept =
      run_engine_to (method (record { engine = n.engine; network = w.network })) kept
    where
      run_engine_to :
          (o : Option Sys)
          → Then (λ s. P s.engine) o
          → Upon (EveryNode P) (elim o [
            | none ↦ none
            | some s ↦ some (record {
              network = s.network;
              nodes = Dict.insert node_id (record n { engine = s.engine }) w.nodes;
            })
          ])
      run_engine_to none h = tt
      run_engine_to (some s) h = λ i m e. elim (Bool-cases (i == node_id)) [
        | inl same ↦
            ground (arith, lookup-insert i node_id (record n { engine = s.engine }) w.nodes)
        | inr other ↦
            every i m
              (ground (arith, lookup-insert i node_id (record n { engine = s.engine }) w.nodes))
      ]

  deliver-EveryNode :
      (message : LogMessage) (w : World)
      → EveryNode P w
      → Upon (EveryNode P) (World.deliver_message C draw depth message w)
  unfolding World.deliver_message World.handle
  deliver-EveryNode message w every =
      let to_node = message.body.to_node in
      let received = dispatch C draw depth message.body.message in
      Upon-option (EveryNode P) (Dict.lookup to_node w.nodes) _ _ every (λ n found.
        Upon-if (EveryNode P) n.crashed _ _ every (
          Upon-if (EveryNode P) n.crashed _ _ every (
            run_engine-EveryNode to_node n received
              (record w { network = Network.log recv message none w.network }) every
              (dispatch-Then K depth message.body.message _ (Hears-Anything message.body.message)
                (every to_node n found)))))

  call-EveryNode :
      (callback : Callback) (w : World)
      → EveryNode P w
      → Upon (EveryNode P) (World.call C draw depth callback w)
  unfolding World.call
  call-EveryNode (deliver message) w every = deliver-EveryNode message w every
  call-EveryNode (timeout node_id) w every =
      Upon-option (EveryNode P) (Dict.lookup node_id w.nodes) _ _ every (λ n found.
        run_engine-EveryNode node_id n (on_timeout C draw depth) w every
          (on_timeout-Then K depth _ (every node_id n found)))

  advance-EveryNode :
      (until : Option ℕ) (stop : World → Bool) (w : World)
      → EveryNode P w
      → Ending (EveryNode P) (World.advance C draw depth until stop w)
  unfolding World.advance
  advance-EveryNode until stop w every = test (stop w) _ (popped (Clock.pop until w.network.clock))
    where
      called :
          (o : Option World) → Upon (EveryNode P) o → Ending (EveryNode P) (World.progress_of o)
      called none h = tt
      called (some w') h = h

      popped :
          (p : Popped Callback)
          → Ending (EveryNode P) (elim p [
            | idle ↦ finished w
            | skipped clock ↦ going (set_clock clock w)
            | expired clock ↦ finished (set_clock clock w)
            | fire event clock ↦
                World.progress_of (World.call C draw depth event.callback (set_clock clock w))
          ])
      popped idle = every
      popped (skipped clock) = every
      popped (expired clock) = every
      popped (fire event clock) =
          called (World.call C draw depth event.callback (set_clock clock w))
            (call-EveryNode event.callback (set_clock clock w) every)

      test :
          (b : Bool) (p : Progress)
          → Ending (EveryNode P) p
          → Ending (EveryNode P) (if b then finished w else p)
      test true p h = every
      test false p h = h

  -- The loop of the clock.
  pub run-EveryNode :
      (rounds : ℕ) (until : Option ℕ) (stop : World → Bool) (w : World)
      → EveryNode P w
      → Ending (EveryNode P) (World.run C draw depth rounds until stop w)
  unfolding World.run
  run-EveryNode zero until stop w every = every
  run-EveryNode (suc rounds) until stop w every =
      next (World.advance C draw depth until stop w) (advance-EveryNode until stop w every)
        (run-EveryNode rounds until stop)
    where
      next :
          (p : Progress)
          → Ending (EveryNode P) p
          → ((u : World)
              → EveryNode P u
              → Ending (EveryNode P) (World.run C draw depth rounds until stop u))
          → Ending (EveryNode P) (elim p [
            | going w' ↦ World.run C draw depth rounds until stop w'
            | finished w' ↦ finished w'
            | raised ↦ raised
          ])
      next (going u) h rest = rest u h
      next (finished u) h rest = h
      next raised h rest = tt

  -- `start` of a node that is in round 0.
  pub start_node-EveryNode :
      (node_id : String) (w : World)
      → EveryNode P w
      → ((n : Node) → Dict.lookup node_id w.nodes ≡ some n → n.engine.cs.round ≡ 0)
      → Upon (EveryNode P) (World.start_node C draw depth node_id w)
  unfolding World.start_node
  start_node-EveryNode node_id w every at_zero =
      Upon-option (EveryNode P) (Dict.lookup node_id w.nodes) _ _ every (λ n found.
        Upon-if (EveryNode P) n.crashed _ _ every (
          run_engine-EveryNode node_id n (start C draw depth) w every
            (start-Then K depth _ (every node_id n found) (at_zero n found))))

-- The worlds in which the nodes but one are as in another.
abbrev pub SameBut : String → World → World → Type 0
SameBut node_id w u =
    (other : String)
    → (other == node_id) ≡ false
    → Dict.lookup other u.nodes ≡ Dict.lookup other w.nodes

insert-SameBut :
    (node_id : String) (n : Node) (w : World) (o : Option Sys)
    → Upon (SameBut node_id w) (elim o [
      | none ↦ none
      | some s ↦ some (record {
        network = s.network;
        nodes = Dict.insert node_id (record n { engine = s.engine }) w.nodes;
      })
    ])
insert-SameBut node_id n w none = tt
insert-SameBut node_id n w (some s) =
    λ other h. ground (arith, lookup-insert other node_id (record n { engine = s.engine }) w.nodes)

pub start_node-SameBut :
    (C : Crypto) (draw : ℕ → ℕ → ℕ) (depth : ℕ) (node_id : String) (w : World)
    → Upon (SameBut node_id w) (World.start_node C draw depth node_id w)
unfolding World.start_node World.run_engine
start_node-SameBut C draw depth node_id w =
    Upon-option (SameBut node_id w) (Dict.lookup node_id w.nodes) _ _ (λ _ _. refl)
      (λ n found.
        Upon-if (SameBut node_id w) n.crashed _ _ (λ _ _. refl) (insert-SameBut node_id n w _))
