-- ===== src/Harness/Timeline.antt =====
-- `run_timeline` and `run_until_height` of src/main.py. Times are nanoseconds; each call of the
-- clock's loop is given a number of rounds.
pub mod Nodes
use blockchain_application.Prelude.{
  ℕ, ◌+◌, String, Bool, false, Option, none, some, List, [], ◌∷◌, leb, all, length,
}
use blockchain_application.Prelude.Dict
use blockchain_application.Crypto.Signing.{Crypto}
use blockchain_application.World
use blockchain_application.World.{Node, World, Progress, going, finished, raised, start_node}
use blockchain_application.Harness.Outcome.{
  Outcome, done, failed, unfinished, ◌>>=◌, ◌>>◌, check, too_deep, no_nodes, liveness_failure,
}

-- A time to sleep, and what to call after it.
abbrev pub TimelineStep : Type 0
TimelineStep = ℕ × Option (World → World)

abbrev pub call_back : Option (World → World) → World → World
call_back none w = w
call_back (some callback) w = callback w

abbrev pub outcome_of : Progress → Outcome World
outcome_of (going w) = unfinished
outcome_of (finished w) = done w
outcome_of raised = failed too_deep

-- `next(iter(node_lookup.values()))` raises when there is no node.
abbrev pub some_node : List String → Outcome (Unit {0})
some_node [] = failed no_nodes
some_node (node_id ∷ node_ids) = done tt

-- `reached`
unfoldable pub reached : ℕ → World → Bool
reached target_height w =
    all (λ n. leb target_height (length n.engine.ledger)) (Dict.values w.nodes)

module _ (C : Crypto) (draw : ℕ → ℕ → ℕ) (depth rounds : ℕ) where
  -- `await node.start()` for each node.
  unfoldable pub start_all : List String → World → Outcome World
  start_all [] w = done w
  start_all (node_id ∷ node_ids) w = elim (start_node C draw depth node_id w) [
    | none ↦ failed too_deep
    | some w' ↦ start_all node_ids w'
  ]

  -- `clock.run`
  unfoldable pub run_clock : Option ℕ → (World → Bool) → World → Outcome World
  run_clock until stop w = outcome_of (World.run C draw depth rounds until stop w)

  -- The loop over the timeline.
  unfoldable pub walk : ℕ → List TimelineStep → World → Outcome World
  unfolding run_clock
  walk deadline [] w = done w
  walk deadline ((duration, callback) ∷ timeline) w =
      run_clock (some (deadline + duration)) (λ _. false) w >>= λ w'.
      walk (deadline + duration) timeline (call_back callback w')

  unfoldable pub run_timeline : List TimelineStep → World → Outcome World
  unfolding start_all walk
  run_timeline timeline w =
      some_node (Dict.keys w.nodes)
      >> (start_all (Dict.keys w.nodes) w >>= λ started.
          walk started.network.clock.now timeline started)

  unfoldable pub run_until_height : ℕ → ℕ → World → Outcome World
  unfolding start_all run_clock reached
  run_until_height target_height timeout w = do
    some_node (Dict.keys w.nodes)
    started ← start_all (Dict.keys w.nodes) w
    w' ← run_clock (some (started.network.clock.now + timeout)) (reached target_height) started
    check (reached target_height w') liveness_failure
    done w'
