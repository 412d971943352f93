-- ===== src/Harness/Scenarios.antt =====
-- The scenarios T1 to T4 of src/main.py, and the helpers that all scenarios share. A scenario that
-- passes gives back the world that it ends with.
use blockchain_application.Prelude.{
  ℕ, ◌/◌, String, ◌<>◌, true, Option, none, some, List, [], ◌∷◌, map, string_eq,
}
use blockchain_application.Prelude.Dict
use blockchain_application.Prelude.Dict.{Dict}
use blockchain_application.Crypto.Signing.{Crypto, keypair_from_seed}
use blockchain_application.Messages.Address.{drop_text}
use blockchain_application.Messages.Transaction.{Transaction}
use blockchain_application.Network
use blockchain_application.Network.{billion}
use blockchain_application.Network.Types.{NetworkConfig}
use blockchain_application.World.{Node, World, submit_tx, reset_mempool}
use blockchain_application.Harness.Outcome.{Outcome, done, ◌>>=◌, ◌>>◌}
use blockchain_application.Harness.Setup.{
  create_network, create_nodes, create_tamper_nodes, make_transaction,
}
use blockchain_application.Harness.Settings.{
  Settings, num, flag, series, scenario_config, network_config_from, num_or, config_of,
}
use blockchain_application.Harness.Timeline.{run_timeline}
use blockchain_application.Harness.Report.{
  report_state, assert_unanimous, assert_no_conflicting_finalization, assert_quorum_agreement,
}

-- `for node in node_lookup.values(): …`
unfoldable pub each_node : (Node → Node) → World → World
each_node f w = record w { nodes = map (λ (node_id, n). (node_id, f n)) w.nodes }

unfoldable pub submit_to_all : Transaction → World → World
unfolding each_node
submit_to_all tx w = each_node (submit_tx tx) w

unfoldable pub flushed : World → World
flushed w = record w { network = Network.flush_log w.network }

-- `cfg[name]` of a time, and of a count.
abbrev pub time_of : String → Settings → ℕ
time_of name cfg = num_or 0 (Dict.lookup name cfg)

-- A whole number of the configuration: a fraction is cut off and anything else is 0, where Python's
-- `range` raises an exception.
abbrev pub count_of : String → Settings → ℕ
count_of name cfg = time_of name cfg / billion

-- `NetworkConfig(stabilized=True, bounded_delay=0.02)`
abbrev pub steady : NetworkConfig
unfolding config_of
steady = config_of (("stabilized", flag true) ∷ ("bounded_delay", num 20_000_000) ∷ [])

-- Half a second, and then 0.05 less for each message.
abbrev pub descending : List ℕ
descending =
    500_000_000 ∷ 450_000_000 ∷ 400_000_000 ∷ 350_000_000 ∷ 300_000_000 ∷ 250_000_000 ∷ 200_000_000
    ∷ 150_000_000 ∷ 100_000_000 ∷ 50_000_000 ∷ []

module _ (C : Crypto) where
  abbrev pub alice : Transaction
  unfolding make_transaction keypair_from_seed
  alice = make_transaction C "acc_00" "Hi, I'm Alice!" (keypair_from_seed C 1000)

  abbrev pub bob : Transaction
  unfolding make_transaction keypair_from_seed
  bob = make_transaction C "acc_01" "Bob is here!" (keypair_from_seed C 1001)

  -- Every node has taken in Alice's transaction.
  unfoldable pub with_alice : World → World
  unfolding submit_to_all
  with_alice w = submit_to_all alice w

module _ (C : Crypto) (draw : ℕ → ℕ → ℕ) (depth rounds : ℕ)
    (raw : Option (Dict String Settings)) where
  unfoldable pub run_t1 : Outcome World
  unfolding scenario_config network_config_from create_network create_nodes with_alice run_timeline
      report_state assert_unanimous flushed
  run_t1 = do
    let cfg = scenario_config raw "T1"
    let network = create_network (network_config_from cfg (("stabilized", flag true) ∷ []))
    let node_lookup = with_alice C (create_nodes C (count_of "num_nodes" cfg) network)
    w ← run_timeline C draw depth rounds ((time_of "duration" cfg, none) ∷ []) node_lookup
    assert_unanimous (report_state C w.nodes)
    done (flushed w)

  unfoldable pub run_t2 : Outcome World
  unfolding scenario_config network_config_from create_network create_nodes with_alice run_timeline
      report_state assert_no_conflicting_finalization assert_quorum_agreement flushed
      Network.set_seed
  run_t2 = do
    let cfg = scenario_config raw "T2"
    let config = network_config_from cfg (("reorder_list", series descending) ∷ [])
    let network = Network.set_seed 42 (create_network config)
    let node_lookup = with_alice C (create_nodes C (count_of "num_nodes" cfg) network)
    w ← run_timeline C draw depth rounds ((2_000_000_000, none) ∷ []) node_lookup
    let last_hashes = report_state C w.nodes
    assert_no_conflicting_finalization C w.nodes []
    assert_quorum_agreement last_hashes (count_of "num_nodes" cfg)
    done (flushed w)

  -- The transaction that T3 submits: its sender is changed after it was signed.
  abbrev tampered : Transaction
  tampered = record (alice C) { sender = "fff" <> drop_text 3 (alice C).sender }

  unfoldable pub run_t3 : Outcome World
  unfolding create_network create_tamper_nodes submit_to_all run_timeline report_state
      assert_unanimous flushed Network.set_seed reset_mempool each_node
  run_t3 = do
    let network = Network.set_seed 42 (create_network steady)
    let node_lookup = submit_to_all tampered (create_tamper_nodes C 4 network 1)
    w ←
        run_timeline C draw depth rounds
          ((100_000_000, some (each_node reset_mempool)) ∷ (1_900_000_000, none) ∷ []) node_lookup
    assert_unanimous (report_state C w.nodes)
    done (flushed w)

  unfoldable pub run_t4 : Outcome World
  unfolding create_network create_nodes each_node submit_tx run_timeline report_state
      assert_unanimous flushed
  run_t4 = do
    let submit = λ (n : Node).
        submit_tx (bob C) (submit_tx (alice C) (submit_tx (bob C) (submit_tx (alice C) n)))
    let node_lookup = each_node submit (create_nodes C 4 (create_network steady))
    w ← run_timeline C draw depth rounds ((4_000_000_000, none) ∷ []) node_lookup
    assert_unanimous (report_state C w.nodes)
    done (flushed w)
