-- ===== src/World.antt =====
-- src/node.py and the loop of `VirtualClock.run` over a whole simulation: the network, its clock
-- and every node.
pub mod Crash
pub mod Nodes
use blockchain_application.Prelude.{
  ℕ, zero, suc, String, Bool, true, false, Option, none, some, List, [], ◌∷◌, ◌++◌, if◌then◌else◌,
  string_eq,
}
use blockchain_application.Prelude.Dict
use blockchain_application.Prelude.Dict.{Dict}
use blockchain_application.Crypto.Text.{Bytes}
use blockchain_application.Crypto.Signing.{Crypto}
use blockchain_application.Execution
use blockchain_application.Messages.Transaction.{Transaction}
use blockchain_application.Clock
use blockchain_application.Clock.{idle, skipped, expired, fire}
use blockchain_application.Network
use blockchain_application.Network.Types.{
  Network, Message, LogMessage, recv, Callback, deliver, timeout,
}
use blockchain_application.Engine.Types
use blockchain_application.Engine.Types.{EngineClass, Engine, Sys}
use blockchain_application.Engine.Handlers.{on_timeout, start}
use blockchain_application.Engine.Inputs.{dispatch}

-- `Node`: its identity, mempool, state and ledger are those of its engine.
pub record Node : Type 0 where
  pub crashed : Bool
  pub engine : Engine

pub record World : Type 0 where
  pub network : Network
  pub nodes : Dict String Node

-- The default of `round_timeout`, half a second.
abbrev pub default_timeout : ℕ
default_timeout = 500_000_000

-- `Node(node_id, signing_key, validators, network)` and `ByzantineNode(…)`.
unfoldable pub new_node : EngineClass → String → Bytes → List String → Node
new_node class node_id signing_key validators = record {
  crashed = false;
  engine = record {
    class = class;
    node_id = node_id;
    signing_key = signing_key;
    validators = validators;
    mempool = [];
    state_store = Execution.empty;
    ledger = [];
    round_timeout = default_timeout;
    height = 0;
    cs = Types.fresh;
    timeout_event = none;
  };
}

-- The constructor's call of `register`.
unfoldable pub add_node : Node → World → World
add_node node w = record {
  network = Network.register node.engine.node_id w.network;
  nodes = Dict.insert node.engine.node_id node w.nodes;
}

unfoldable pub submit_tx : Transaction → Node → Node
submit_tx tx node = record node {
  engine = record (node.engine) { mempool = node.engine.mempool ++ (tx ∷ []) };
}

unfoldable pub reset_mempool : Node → Node
reset_mempool node = record node { engine = record (node.engine) { mempool = [] } }

unfoldable pub crash : Node → Node
crash node = record node { crashed = true }

pub data Progress : Type 0 where
  going finished : World → Progress
  raised : Progress

abbrev pub set_clock : Clock.Clock Callback → World → World
set_clock clock w = record w { network = record (w.network) { clock = clock } }

abbrev pub progress_of : Option World → Progress
progress_of none = raised
progress_of (some w) = going w

module _ (C : Crypto) (draw : ℕ → ℕ → ℕ) (depth : ℕ) where
  -- A node's method, whose effect on the network is the world's.
  unfoldable pub run_engine : String → Node → (Sys → Option Sys) → World → Option World
  run_engine node_id node method w =
      elim (method (record { engine = node.engine; network = w.network })) [
        | none ↦ none
        | some s ↦ some (record {
          network = s.network;
          nodes = Dict.insert node_id (record node { engine = s.engine }) w.nodes;
        })
      ]

  -- `Node.handle` of the node that `_deliver` found.
  unfoldable pub handle : String → Node → Message → World → Option World
  handle node_id node message w =
      if node.crashed then some w else run_engine node_id node (dispatch C draw depth message) w

  -- `Network._deliver`
  unfoldable pub deliver_message : LogMessage → World → Option World
  deliver_message message w = elim (Dict.lookup message.body.to_node w.nodes) [
    | none ↦ some w
    | some node ↦
        if node.crashed
        then some w
        else handle message.body.to_node node message.body.message
            (record w { network = Network.log recv message none w.network })
  ]

  -- `Node.start`
  unfoldable pub start_node : String → World → Option World
  start_node node_id w = elim (Dict.lookup node_id w.nodes) [
    | none ↦ some w
    | some node ↦ if node.crashed then some w else run_engine node_id node (start C draw depth) w
  ]

  -- What the clock calls; a round timer belongs to the engine and does not ask whether the node
  -- has crashed.
  unfoldable pub call : Callback → World → Option World
  call (deliver message) w = deliver_message message w
  call (timeout node_id) w = elim (Dict.lookup node_id w.nodes) [
    | none ↦ some w
    | some node ↦ run_engine node_id node (on_timeout C draw depth) w
  ]

  -- One round of the loop in `VirtualClock.run`.
  unfoldable pub advance : Option ℕ → (World → Bool) → World → Progress
  advance until stop w = if stop w then finished w else elim (Clock.pop until w.network.clock) [
    | idle ↦ finished w
    | skipped clock ↦ going (set_clock clock w)
    | expired clock ↦ finished (set_clock clock w)
    | fire event clock ↦ progress_of (call event.callback (set_clock clock w))
  ]

  -- The loop, for a number of rounds.
  unfoldable pub run : ℕ → Option ℕ → (World → Bool) → World → Progress
  run zero until stop w = going w
  run (suc rounds) until stop w = elim (advance until stop w) [
    | going w' ↦ run rounds until stop w'
    | finished w' ↦ finished w'
    | raised ↦ raised
  ]
