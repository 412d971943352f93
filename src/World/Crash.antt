-- ===== src/World/Crash.antt =====
-- What `crash` of src/node.py stops, and what it does not.
use blockchain_application.Prelude.{ℕ, ◌≡◌, String, Option, none, some, arith, string_eq}
use blockchain_application.Prelude.Dict
use blockchain_application.Prelude.Dict.{lookup-insert}
use blockchain_application.Crypto.Signing.{Crypto}
use blockchain_application.Network.Types.{Network, LogMessage, timeout}
use blockchain_application.World.{Node, World, crash, run_engine, deliver_message, start_node, call}

abbrev pub network_of : Option World → Option Network
network_of none = none
network_of (some w) = some w.network

abbrev pub crashed_in : String → Node → World → World
crashed_in node_id node w = record w { nodes = Dict.insert node_id (crash node) w.nodes }

module _ (C : Crypto) (draw : ℕ → ℕ → ℕ) (depth : ℕ) where
  -- A node of the world that has crashed neither starts nor takes a message, and leaves the world
  -- as it is. Its round timer still runs: on expiry the network becomes what it would be had the
  -- node not crashed.
  pub crash_lem :
      (node_id : String) (node : Node) (w : World) (message : LogMessage)
      → Dict.lookup node_id w.nodes ≡ some node
      → message.body.to_node ≡ node_id
      → let w' = crashed_in node_id node w in
        (start_node C draw depth node_id w' ≡ some w')
        × (deliver_message C draw depth message w' ≡ some w')
        × (network_of (call C draw depth (timeout node_id) w')
            ≡ network_of (call C draw depth (timeout node_id) w))
  unfolding start_node deliver_message call run_engine crash
  crash_lem node_id node w message here to =
      ground (arith, lookup-insert node_id node_id (crash node) w.nodes)
