-- ===== src/Harness/Faults.antt =====
-- The scenarios T5 to T8 of src/main.py: drops, a crash, equivocation, and two runs of the same.
use blockchain_application.Prelude.{
  ℕ, ◌-◌, ◌*◌, ◌/◌, String, Bool, true, false, not, Option, none, some, List, [], ◌∷◌, ltb, all,
  last?, contains, keep, length, ◌==◌, string_eq,
}
use blockchain_application.Prelude.Dict
use blockchain_application.Prelude.Dict.{Dict}
use blockchain_application.Crypto.Signing.{Crypto}
use blockchain_application.Execution
use blockchain_application.Messages.Block
use blockchain_application.Network
use blockchain_application.Network.{billion}
use blockchain_application.Network.Types.{
  LogEntry, network, consensus, ConsensusEvent, equivocate_vote, equivocate_proposal,
}
use blockchain_application.Engine.Votes.{sorted_texts}
use blockchain_application.World.{Node, World, crash}
use blockchain_application.Harness.Outcome.{
  Outcome, done, ◌>>=◌, ◌>>◌, check, present, no_nodes, no_block, liveness_violation,
  test_ineffective, determinism_violation,
}
use blockchain_application.Harness.Setup.{
  create_network, create_nodes, create_deterministic_nodes, create_byzantine_nodes,
}
use blockchain_application.Harness.Settings.{
  Settings, flag, scenario_config, network_config_from, num_or,
}
use blockchain_application.Harness.Timeline.{run_timeline, run_until_height}
use blockchain_application.Harness.Report.{
  report_state, assert_unanimous, assert_no_conflicting_finalization, assert_quorum_agreement,
}
use blockchain_application.Harness.Scenarios.{with_alice, flushed, count_of, steady}

-- `stabilize`
unfoldable pub stabilize : World → World
stabilize w = record w {
  network = record (w.network) {
    config = record (w.network.config) { stabilized = true; drop_rate = 0 };
  };
}

-- `node_lookup[crashed_id].crash()`
unfoldable pub crash_node : String → World → World
unfolding crash
crash_node crashed_id w = elim (Dict.lookup crashed_id w.nodes) [
  | none ↦ w
  | some n ↦ record w { nodes = Dict.insert crashed_id (crash n) w.nodes }
]

abbrev pub others : List String → Dict String Node → Dict String Node
others node_ids nodes = keep (λ (node_id, _). not (contains node_ids node_id)) nodes

abbrev pub first? : List String → Option String
first? [] = none
first? (x ∷ xs) = some x

abbrev pub first_node : Dict String Node → Option Node
first_node [] = none
first_node ((_, n) ∷ nodes) = some n

-- Whether the line of a log entry holds `BYZANTINE_EQUIVOCATE`.
abbrev pub tells_equivocation : ConsensusEvent → Bool
tells_equivocation (equivocate_vote phase block_hash peers conflicting others) = true
tells_equivocation (equivocate_proposal block_hash peers conflicting others) = true
tells_equivocation _ = false

abbrev pub is_equivocation : LogEntry → Bool
is_equivocation (network ts direction message state) = false
is_equivocation (consensus ts height round event node) = tells_equivocation event

-- `cfg.get("num_byzantine", (NUM_NODES - 1) // 3)`
abbrev pub byzantine_count : Settings → ℕ
byzantine_count cfg =
    num_or ((count_of "num_nodes" cfg - 1) / 3 * billion) (Dict.lookup "num_byzantine" cfg)
    / billion

module _ (C : Crypto) (draw : ℕ → ℕ → ℕ) (depth rounds : ℕ) where
  unfoldable pub run_t5 : Option (Dict String Settings) → Outcome World
  unfolding scenario_config network_config_from create_network create_nodes with_alice run_timeline
      report_state assert_quorum_agreement flushed stabilize
  run_t5 raw = do
    let cfg = scenario_config raw "T5"
    let network = create_network (network_config_from cfg (("stabilized", flag false) ∷ []))
    let num_nodes = count_of "num_nodes" cfg
    let node_lookup = with_alice C (create_nodes C num_nodes network)
    w ←
        run_timeline C draw depth rounds
          ((1_000_000_000, some stabilize) ∷ (3_000_000_000, none) ∷ []) node_lookup
    assert_quorum_agreement (report_state C w.nodes) num_nodes
    done (flushed w)

  unfoldable pub run_t6 : Option (Dict String Settings) → Outcome World
  unfolding scenario_config network_config_from create_network create_nodes with_alice run_timeline
      report_state assert_unanimous flushed crash_node
  run_t6 raw = do
    let cfg = scenario_config raw "T6"
    let network = create_network (network_config_from cfg (("stabilized", flag true) ∷ []))
    let node_lookup = with_alice C (create_nodes C (count_of "num_nodes" cfg) network)
    crashed_id ← present (first? (sorted_texts (Dict.keys node_lookup.nodes))) no_nodes
    w ←
        run_timeline C draw depth rounds ((4_000_000_000, none) ∷ [])
          (crash_node crashed_id node_lookup)
    let honest_nodes = others (crashed_id ∷ []) w.nodes
    assert_unanimous (report_state C honest_nodes)
    check (all (λ n. ltb 0 (length n.engine.ledger)) (Dict.values honest_nodes)) liveness_violation
    done (flushed w)

  -- The lines that it counts are those of the log before it is flushed.
  unfoldable pub run_t7 : Option (Dict String Settings) → Outcome World
  unfolding scenario_config network_config_from create_network create_byzantine_nodes with_alice
      run_timeline report_state assert_no_conflicting_finalization flushed Network.set_seed
  run_t7 raw = do
    let cfg = scenario_config raw "T7"
    let config = network_config_from cfg (("stabilized", flag true) ∷ [])
    let network = Network.set_seed 42 (create_network config)
    let (nodes, byzantine_ids) =
        create_byzantine_nodes C (count_of "num_nodes" cfg) network (byzantine_count cfg)
    w ← run_timeline C draw depth rounds ((4_000_000_000, none) ∷ []) (with_alice C nodes)
    assert_no_conflicting_finalization C w.nodes byzantine_ids
    check (ltb 0 (length (keep is_equivocation w.network.log_buffer))) test_ineffective
    done (flushed w)

  -- What `_t8_single_run` returns, and the world that wrote its log.
  unfoldable pub t8_single_run : Outcome (String × String × World)
  unfolding create_network create_deterministic_nodes with_alice run_until_height Network.set_seed
      Execution.state_root Block.block_hash
  t8_single_run = do
    let network = Network.set_seed 42 (create_network steady)
    let node_lookup = with_alice C (create_deterministic_nodes C 4 network)
    w ← run_until_height C draw depth rounds 5 30_000_000_000 node_lookup
    first ← present (first_node w.nodes) no_nodes
    head ← present (last? first.engine.ledger) no_block
    done (Execution.state_root C first.engine.state_store, Block.block_hash C head, w)

  -- The bytes of a log are those that some rendering of its entries gives.
  unfoldable pub run_t8 : (List LogEntry → String) → Outcome World
  unfolding t8_single_run flushed
  run_t8 read_log = do
    (root_1, head_1, w_1) ← t8_single_run
    (root_2, head_2, w_2) ← t8_single_run
    check (root_1 == root_2) determinism_violation
    check (head_1 == head_2) determinism_violation
    check (read_log w_1.network.log_buffer == read_log w_2.network.log_buffer) determinism_violation
    done (flushed w_2)
