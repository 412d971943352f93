-- ===== src/Tests/Simulation.antt =====
-- Simulations of src/main.py at concrete inputs.
use blockchain_application.Harness.Report.Table.{DistinctNames}
use blockchain_application.Prelude.{
  Bool, false, not, all, ◌&&◌, ◌==◌, arith, ℕ, ◌≡◌, refl, String, true, Option, none, some, List,
  [], ◌∷◌, string_eq, nat_eq, map, length,
}
use blockchain_application.Prelude.Dict
use blockchain_application.Prelude.Dict.{Dict}
use blockchain_application.Crypto.Text.{decimal, lex_ltb}
use blockchain_application.Crypto.Encoding.{insert_key}
use blockchain_application.Crypto.Signing
use blockchain_application.Clock
use blockchain_application.Network
use blockchain_application.Engine.Votes
use blockchain_application.Engine.Proposals
use blockchain_application.Engine.Handlers
use blockchain_application.World
use blockchain_application.World.{World}
use blockchain_application.Harness.Outcome.{Outcome, done, failed, unfinished}
use blockchain_application.Harness.Setup
use blockchain_application.Harness.Faults
use blockchain_application.Harness.Settings
use blockchain_application.Harness.Report
use blockchain_application.Messages.Address
use blockchain_application.Harness.Timeline
use blockchain_application.Harness.Scenarios
use blockchain_application.Harness.Runs.{prepared}
use blockchain_application.Tests.Toy.{toy}
use blockchain_application.Tests.Scenario.{run_toy, no_luck, config}

unfoldable pub simulate : ℕ → ℕ → List Timeline.TimelineStep → World → Outcome World
unfolding run_toy Network.create Timeline.run_timeline Timeline.start_all Timeline.walk
    Timeline.run_clock World.run World.advance World.call World.start_node World.deliver_message
    World.handle World.run_engine Clock.pop Handlers.start Handlers.on_body_request Handlers.retry
    Handlers.on_body_response Handlers.absorb Setup.create_byzantine_nodes Setup.add_some_byzantine
    World.add_node World.new_node Network.register Signing.keypair_from_seed decimal insert_key
    lex_ltb Scenarios.submit_to_all Scenarios.each_node World.submit_tx Setup.make_transaction
    Votes.equivocate_vote Votes.peer_halves Votes.peers Votes.conflicting_hash
    Proposals.equivocate_proposal
simulate depth rounds = Timeline.run_timeline toy no_luck depth rounds

-- T7 with four nodes.
unfoldable pub play : Option (Dict String Settings.Settings) → Outcome World
unfolding simulate Faults.run_t7 Setup.create_network Settings.scenario_config
    Settings.network_config_from Settings.overlay Settings.update Settings.config_of
    Settings.is_setting Scenarios.with_alice Report.report_state
    Report.assert_no_conflicting_finalization Report.record_nodes Report.record_ledger
    Report.is_single Report.distinct Address.short_addr Scenarios.flushed Network.set_seed
    Network.flush_log Setup.quorum_for
play raw = Faults.run_t7 toy no_luck 6 2000 raw

abbrev pub four_nodes : Option (Dict String Settings.Settings)
four_nodes = some (("default", ("num_nodes", Settings.num 4_000_000_000) ∷ []) ∷ [])

module _ {A : Type 0} where
  abbrev pub value_of : Outcome A → A → A
  value_of (done w) v = w
  value_of (failed e) v = v
  value_of unfinished v = v

  abbrev pub is_done : Outcome A → Bool
  is_done (done w) = true
  is_done (failed e) = false
  is_done unfinished = false

  returned : (o : Outcome A) (v : A) → is_done o ≡ true → o ≡ done (value_of o v)
  returned (done w) v e = refl
  returned (failed r) v e = cc
  returned unfinished v e = cc

-- Four nodes, one of which equivocates, before they start.
abbrev pub beginning : World
beginning = prepared toy 4 1 (Network.create config) (Scenarios.alice toy)

abbrev pub heights : World → List ℕ
heights w = map (λ n. length n.engine.ledger) (Dict.values w.nodes)

-- The first round, of the equivocating proposer, and the second, in which a block is finalized.
abbrev pub timeline : List Timeline.TimelineStep
timeline = (500_000_100, none) ∷ []

abbrev pub ending : World
ending = value_of (Timeline.run_timeline toy no_luck 6 2000 timeline beginning) beginning

pub ending_lem : Timeline.run_timeline toy no_luck 6 2000 timeline beginning ≡ done ending
unfolding simulate
ending_lem = returned _ beginning refl

ending_heights : heights ending ≡ 1 ∷ 1 ∷ 1 ∷ 1 ∷ []
unfolding simulate
ending_heights = refl

abbrev pub t7_ending : World
t7_ending = value_of (Faults.run_t7 toy no_luck 6 2000 four_nodes) beginning

t7_ending_lem : Faults.run_t7 toy no_luck 6 2000 four_nodes ≡ done t7_ending
unfolding play
t7_ending_lem = returned _ beginning refl

t7_heights : heights t7_ending ≡ 20 ∷ 20 ∷ 20 ∷ 20 ∷ []
unfolding play
t7_heights = refl

-- Whether the short names of the nodes differ.
abbrev apart : List String → Bool
apart [] = true
apart (i ∷ node_ids) =
    all (λ j. not (Address.short_addr i == Address.short_addr j)) node_ids && apart node_ids

all-has :
    (i : String) (nodes : Dict String World.Node) (j : String)
    → all (λ k. not (Address.short_addr i == Address.short_addr k)) (Dict.keys nodes) ≡ true
    → Dict.has j nodes ≡ true
    → (Address.short_addr i == Address.short_addr j) ≡ false
unfolding Dict.has Dict.lookup
all-has i [] j e h = absurd (ground arith)
all-has i ((k, n) ∷ nodes) j e h = ground (arith, all-has i nodes j)

apart-DistinctNames :
    (nodes : Dict String World.Node) → apart (Dict.keys nodes) ≡ true → DistinctNames nodes
apart-DistinctNames [] e = tt
apart-DistinctNames ((i, n) ∷ nodes) e =
    (λ j. all-has i nodes j (ground arith), apart-DistinctNames nodes (ground arith))

pub t7_ending-DistinctNames : DistinctNames t7_ending.nodes
unfolding play
t7_ending-DistinctNames = apart-DistinctNames t7_ending.nodes refl

-- A run of T8.
unfoldable pub rerun : ℕ → Outcome (String × String × World)
unfolding simulate Faults.t8_single_run Setup.create_network Setup.create_deterministic_nodes
    Setup.node_lookup_from Setup.add_nodes Setup.node_id_for Settings.config_of Network.set_seed
    Scenarios.with_alice Timeline.run_until_height Timeline.reached
rerun rounds = Faults.t8_single_run toy no_luck 6 rounds

abbrev t8_ending : String × String × World
t8_ending = value_of (Faults.t8_single_run toy no_luck 6 2000) ("", "", beginning)

t8_ending_lem : Faults.t8_single_run toy no_luck 6 2000 ≡ done t8_ending
unfolding rerun
t8_ending_lem = returned _ ("", "", beginning) refl
