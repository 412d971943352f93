-- ===== src/Harness/Runs.antt =====
-- What holds of every node at the end of a simulation that src/main.py drives.
use blockchain_application.Prelude.{
  ℕ, ◌*◌, ◌<◌, ◌≡◌, refl, String, List, [], ◌∷◌, arith, map, some, none, All, length, string_eq,
  Option,
}
use mathlib.Core.Path.{subst}
use blockchain_application.Prelude.Dict
use blockchain_application.Prelude.Dict.{Dict, NodupKeys}
use blockchain_application.Crypto.Signing.{Crypto, IsLawful}
use blockchain_application.Messages.Transaction.{Transaction}
use blockchain_application.Network.Types.{Network}
use blockchain_application.Engine.Types.{Engine, quorum_of}
use blockchain_application.Engine.Induction.{Anything, Invariant}
use blockchain_application.Engine.Certificates.{Justified}
use blockchain_application.Engine.Certificates.Kept.{Justified-Invariant}
use blockchain_application.Engine.Certificates.Locks.{Backed, Justified-Backed}
use blockchain_application.Engine.Replay.{replay}
use blockchain_application.Engine.Replay.Executed.{Executed, Executed-Invariant}
use blockchain_application.World.{Node, World, submit_tx, new_node}
use blockchain_application.World.Nodes.{EveryNode}
use blockchain_application.Harness.Outcome.{done, Results}
use blockchain_application.Harness.Setup.{quorum_for, create_byzantine_nodes}
use blockchain_application.Harness.Setup.Identities.{
  validator_ids, length-validator_ids, created-NodupKeys, created-EveryNode, created-Justified,
  created-at_zero,
}
use blockchain_application.Harness.Timeline.{TimelineStep, call_back, run_timeline}
use blockchain_application.Harness.Timeline.Nodes.{run_timeline-EveryNode}
use blockchain_application.Harness.Scenarios.{each_node, submit_to_all}

abbrev each : (Node → Node) → Dict String Node → Dict String Node
each f nodes = map (λ (node_id, n). (node_id, f n)) nodes

lookup-each :
    (f : Node → Node) (d : Dict String Node) (k : String)
    → Dict.lookup k (each f d) ≡ elim (Dict.lookup k d) [ none ↦ none | some n ↦ some (f n) ]
unfolding Dict.lookup
lookup-each f [] k = refl
lookup-each f ((j, n) ∷ d) k = ground (arith, lookup-each f d k)

each-NodupKeys : (f : Node → Node) (d : Dict String Node) → NodupKeys d → NodupKeys (each f d)
each-NodupKeys f [] h = tt
each-NodupKeys f ((k, n) ∷ d) (new, once) =
    (ground (arith, lookup-each f d k), each-NodupKeys f d once)

-- What `submit_tx` cannot change is as it was at every node.
submit_to_all-EveryNode :
    (P : Engine → Type 0) (tx : Transaction) (w : World)
    → ((n : Node) → P n.engine → P (submit_tx tx n).engine)
    → EveryNode P w
    → EveryNode P (submit_to_all tx w)
unfolding submit_to_all each_node
submit_to_all-EveryNode P tx w keeps every i m e =
    found (Dict.lookup i w.nodes) (every i) (ground (arith, lookup-each (submit_tx tx) w.nodes i))
  where
    found :
        (o : Option Node)
        → ((n : Node) → o ≡ some n → P n.engine)
        → elim o [ none ↦ none | some n ↦ some (submit_tx tx n) ] ≡ some m
        → P m.engine
    found none h e' = absurd (ground arith)
    found (some n) h e' = let is : m ≡ submit_tx tx n = ground arith in rw is (keeps n (h n refl))

-- The callbacks of a timeline keep a property of every node.
abbrev pub AreCalm : (Engine → Type 0) → List TimelineStep → Type 0
AreCalm P timeline =
    All (λ (_, callback). (u : World) → EveryNode P u → EveryNode P (call_back callback u)) timeline

-- The network of `create_byzantine_nodes` with a transaction in every mempool, before it starts.
abbrev pub prepared : Crypto → ℕ → ℕ → Network → Transaction → World
prepared C num_nodes num_byzantine network tx =
    submit_to_all tx (create_byzantine_nodes C num_nodes network num_byzantine).0

module _ (C : Crypto) (num_nodes num_byzantine : ℕ) (network : Network) (tx : Transaction) where
  prepared-NodupKeys : NodupKeys (prepared C num_nodes num_byzantine network tx).nodes
  unfolding submit_to_all each_node
  prepared-NodupKeys =
      each-NodupKeys (submit_tx tx) _ (created-NodupKeys C num_nodes num_byzantine network)

  prepared-at_zero : EveryNode (λ e. e.cs.round ≡ 0) (prepared C num_nodes num_byzantine network tx)
  unfolding submit_tx
  prepared-at_zero =
      submit_to_all-EveryNode _ tx _ (λ n h. h) (created-at_zero C num_nodes num_byzantine network)

  -- A property of engines that the elementary changes keep, and that the new nodes have.
  simulated :
      (draw : ℕ → ℕ → ℕ) (depth rounds : ℕ) (P : Engine → Type 0)
      → Invariant C draw (validator_ids C num_nodes) Anything (λ s. P s.engine)
      → EveryNode P (prepared C num_nodes num_byzantine network tx)
      → (timeline : List TimelineStep) (w : World) → AreCalm P timeline
      → run_timeline C draw depth rounds timeline (prepared C num_nodes num_byzantine network tx)
        ≡ done w
      → EveryNode P w
  simulated draw depth rounds P K every timeline w calm e = subst (Results (EveryNode P)) e (
      run_timeline-EveryNode P K depth rounds timeline _ calm prepared-NodupKeys prepared-at_zero
        every)

  small :
      num_nodes < 2 * quorum_for num_nodes
      → length (validator_ids C num_nodes) < 2 * quorum_of (length (validator_ids C num_nodes))
  unfolding quorum_for
  small h = rw (length-validator_ids C num_nodes) h

  prepared-Justified :
      EveryNode
        (Justified C (validator_ids C num_nodes) Anything)
        (prepared C num_nodes num_byzantine network tx)
  unfolding submit_tx
  prepared-Justified =
      submit_to_all-EveryNode _ tx _
        (λ n j. record {
          auth = record {
            member = j.auth.member;
            own = j.auth.own;
            stored = j.auth.stored;
            cast = j.auth.cast;
          };
          origin = j.origin;
          set = j.set;
          counted = j.counted;
          certified = j.certified;
          lock = j.lock;
        })
        (created-Justified C num_nodes num_byzantine network)

  prepared-Executed :
      EveryNode
        (Executed C (validator_ids C num_nodes))
        (prepared C num_nodes num_byzantine network tx)
  unfolding submit_tx new_node replay
  prepared-Executed =
      submit_to_all-EveryNode _ tx _ (λ n x. record { set = x.set; state = x.state })
        (created-EveryNode C num_nodes num_byzantine network
          (Executed C (validator_ids C num_nodes))
          (λ class a known. record { set = refl; state = refl }))

  module _ (draw : ℕ → ℕ → ℕ) (depth rounds : ℕ) where
    -- Take lawful cryptography and the nodes of `create_byzantine_nodes`, in a number for which two
    -- quorums are more than all, any number of them Byzantine, with a transaction in every mempool.
    -- If a timeline whose callbacks keep whatever holds of every node's engine runs to its end, then
    -- at every node: each recorded vote is genuine, under a validator's name, for the node's height
    -- and the round it is recorded for; the height is the number of finalized blocks; and if the
    -- node has locked a block, a quorum of the prevotes that it has recorded in the lock's round are
    -- for that block.
    pub run_timeline-Backed :
        IsLawful C
        → num_nodes < 2 * quorum_for num_nodes
        → (timeline : List TimelineStep) (w : World) → ((P : Engine → Type 0) → AreCalm P timeline)
        → run_timeline C draw depth rounds timeline (prepared C num_nodes num_byzantine network tx)
          ≡ done w
        → EveryNode (Backed C (validator_ids C num_nodes)) w
    run_timeline-Backed L few timeline w calm e i n found = Justified-Backed C _ Anything n.engine (
        simulated draw depth rounds _ (Justified-Invariant C _ Anything L draw (small few))
          prepared-Justified timeline w (calm _) e i n found)

    -- Take the nodes of `create_byzantine_nodes`, with a transaction in every mempool. If a timeline
    -- whose callbacks keep the following runs to its end, then it holds there: the state of every
    -- node is what the transactions of its ledger make of the empty state, block by block.
    pub run_timeline-Executed :
        (timeline : List TimelineStep) (w : World)
        → AreCalm (Executed C (validator_ids C num_nodes)) timeline
        → run_timeline C draw depth rounds timeline (prepared C num_nodes num_byzantine network tx)
          ≡ done w
        → EveryNode (Executed C (validator_ids C num_nodes)) w
    run_timeline-Executed timeline w =
        simulated draw depth rounds _ (Executed-Invariant C _ draw) prepared-Executed timeline w
