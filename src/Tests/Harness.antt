-- ===== src/Tests/Harness.antt =====
-- The theorems on src/main.py at concrete inputs.
use blockchain_application.Prelude.{
  ◌≤◌, ◌⊎◌, ◌≡◌, ◌↔◌, refl, String, true, Option, none, some, [], ◌∷◌, arith, All, string_eq,
  nat_eq,
}
use blockchain_application.Prelude.Dict
use blockchain_application.Network
use blockchain_application.Engine.Certificates.Locks.{Backed}
use blockchain_application.Messages.Vote.{Phase, Vote}
use blockchain_application.Engine.Replay.Executed.{Executed}
use blockchain_application.World.Nodes.{EveryNode}
use blockchain_application.Harness.Outcome.{done}
use blockchain_application.Harness.Setup.{quorum_for, create_nodes, create_byzantine_nodes}
use blockchain_application.Harness.Setup.Identities.{validator_ids, create_nodes_lem}
use blockchain_application.Harness.Settings.{Settings, num, builtin_defaults, scenario_config}
use blockchain_application.Harness.Settings.Precedence.{set_by, or_else, scenario_config-lookup}
use blockchain_application.Harness.Report.{
  assert_no_conflicting_finalization, assert_quorum_agreement,
}
use blockchain_application.Harness.Report.Rows.{Agrees, HasBlock}
use blockchain_application.Harness.Report.Conflicts.{assert_no_conflicting_finalization_iff}
use blockchain_application.Harness.Report.Agreement.{reporting, assert_quorum_agreement_iff}
use blockchain_application.Harness.Runs.{run_timeline-Backed, run_timeline-Executed}
use blockchain_application.Harness.Scenarios
use blockchain_application.Harness.Main.{scenarios, run_everything}
use blockchain_application.Harness.Main.ExitCode.{Passes, Succeeds, run_everything_iff}
use blockchain_application.Tests.Toy.{toy, toy-IsLawful}
use blockchain_application.Tests.Scenario.{no_luck, config, vote_of}
use blockchain_application.Tests.Simulation.{
  simulate, four_nodes, timeline, ending, ending_lem, t7_ending, t7_ending-DistinctNames,
}

-- The votes that the messages bring.
abbrev Said : Phase → Vote → Type 0
Said phase v = (v ≡ vote_of 1 phase) ⊎ (v ≡ vote_of 2 phase)

run_timeline-Backed_example : EveryNode (Backed toy (validator_ids toy 4)) ending
unfolding quorum_for
run_timeline-Backed_example =
    run_timeline-Backed toy 4 1 (Network.create config) (Scenarios.alice toy) no_luck 6 2000
      toy-IsLawful (omega arith) timeline ending (λ P. ((λ u every. every), tt)) ending_lem

run_timeline-Executed_example : EveryNode (Executed toy (validator_ids toy 4)) ending
run_timeline-Executed_example =
    run_timeline-Executed toy 4 1 (Network.create config) (Scenarios.alice toy) no_luck 6 2000
      timeline ending ((λ u every. every), tt) ending_lem

assert_no_conflicting_finalization_iff_example :
    (assert_no_conflicting_finalization toy t7_ending.nodes [] ≡ done tt)
    ↔ (Agrees toy t7_ending.nodes [] × HasBlock toy t7_ending.nodes [])
assert_no_conflicting_finalization_iff_example =
    assert_no_conflicting_finalization_iff toy t7_ending.nodes [] t7_ending-DistinctNames

abbrev heads : Dict.Dict String (Option String)
heads = ("a", some "x") ∷ ("b", some "x") ∷ ("c", none) ∷ ("d", some "x") ∷ []

assert_quorum_agreement_iff_example :
    (assert_quorum_agreement heads 4 ≡ done tt)
    ↔ ((h : Option String) × (quorum_for 4 ≤ reporting h heads))
assert_quorum_agreement_iff_example = assert_quorum_agreement_iff heads 4

abbrev file : Dict.Dict String Settings
file =
    ("default", ("num_nodes", num 7_000_000_000) ∷ ("_note", num 0) ∷ [])
    ∷ ("T5", ("num_nodes", num 4_000_000_000) ∷ [])
    ∷ []

scenario_config-lookup_example :
    Dict.lookup "num_nodes" (scenario_config (some file) "T5")
    ≡ or_else (set_by (Dict.get_or "T5" [] file) "num_nodes") (
        or_else
          (set_by (Dict.get_or "default" [] file) "num_nodes")
          (Dict.lookup "num_nodes" builtin_defaults))
unfolding simulate
scenario_config-lookup_example =
    scenario_config-lookup file "T5" "num_nodes" (refl, tt) (refl, (refl, tt))

create_nodes_lem_example :
    create_nodes toy 4 (Network.create config)
    ≡ (create_byzantine_nodes toy 4 (Network.create config) 0).0
create_nodes_lem_example = create_nodes_lem toy 4 (Network.create config)

run_everything_iff_example :
    (run_everything toy no_luck 6 2000 four_nodes (λ log. "") (("test_crypto", true) ∷ []) ≡ done 0)
    ↔ (All Passes (("test_crypto", true) ∷ [])
        × All Succeeds (scenarios toy no_luck 6 2000 four_nodes (λ log. "")))
run_everything_iff_example =
    run_everything_iff toy no_luck 6 2000 four_nodes (λ log. "") (("test_crypto", true) ∷ [])
