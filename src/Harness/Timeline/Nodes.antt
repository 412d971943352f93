-- ===== src/Harness/Timeline/Nodes.antt =====
-- What `run_timeline` of src/main.py keeps of every node.
use blockchain_application.Prelude.{
  ℕ, ◌+◌, ◌≡◌, refl, String, true, false, Option, none, some, List, [], ◌∷◌, arith, ◌==◌, contains,
  All, string_eq, Bool-cases, inl, inr,
}
use blockchain_application.Prelude.Dict
use blockchain_application.Prelude.Dict.{Dict, NodupKeys}
use blockchain_application.Crypto.Signing.{Crypto}
use blockchain_application.Engine.Types.{Engine}
use blockchain_application.Engine.Induction.{Anything, Invariant}
use blockchain_application.World.{Node, World, Progress, going, finished, raised, start_node}
use blockchain_application.World.Nodes.{
  EveryNode, Ending, Upon, SameBut, run-EveryNode, start_node-EveryNode, start_node-SameBut,
}
use blockchain_application.Harness.Outcome.{
  Outcome, done, failed, unfinished, too_deep, ◌>>◌, ◌>>=◌, Results, Results-bind,
}
use blockchain_application.Harness.Timeline.{
  TimelineStep, call_back, outcome_of, some_node, start_all, run_clock, walk, run_timeline,
}

abbrev Distinct : List String → Type 0
Distinct [] = Unit
Distinct (x ∷ xs) = (contains xs x ≡ false) × Distinct xs

contains-keys :
    (d : Dict String Node) (k : String) → Dict.lookup k d ≡ none → contains (Dict.keys d) k ≡ false
unfolding Dict.lookup
contains-keys [] k h = refl
contains-keys ((j, n) ∷ d) k h = ground (arith, contains-keys d k)

keys-Distinct : (d : Dict String Node) → NodupKeys d → Distinct (Dict.keys d)
keys-Distinct [] h = tt
keys-Distinct ((k, n) ∷ d) (new, rest) = (contains-keys d k new, keys-Distinct d rest)

-- The nodes of the list are in round 0, as before `start`.
abbrev InRoundZero : List String → World → Type 0
InRoundZero node_ids w =
    (node_id : String) (n : Node)
    → contains node_ids node_id ≡ true
    → Dict.lookup node_id w.nodes ≡ some n
    → n.engine.cs.round ≡ 0

module _ {C : Crypto} {draw : ℕ → ℕ → ℕ} {vs : List String} (P : Engine → Type 0)
    (K : Invariant C draw vs Anything (λ s. P s.engine)) (depth rounds : ℕ) where
  start_all-EveryNode :
      (node_ids : List String) (w : World)
      → Distinct node_ids
      → InRoundZero node_ids w
      → EveryNode P w
      → Results (EveryNode P) (start_all C draw depth rounds node_ids w)
  unfolding start_all
  start_all-EveryNode [] w once zero every = every
  start_all-EveryNode (node_id ∷ node_ids) w (new, once) zero every =
      next (start_node C draw depth node_id w)
        (start_node-EveryNode P K depth node_id w every
          (λ n found. zero node_id n (ground arith) found))
        (start_node-SameBut C draw depth node_id w) (start_all-EveryNode node_ids)
    where
      next :
          (o : Option World)
          → Upon (EveryNode P) o
          → Upon (SameBut node_id w) o
          → ((u : World)
              → Distinct node_ids
              → InRoundZero node_ids u
              → EveryNode P u
              → Results (EveryNode P) (start_all C draw depth rounds node_ids u))
          → Results (EveryNode P) (elim o [
            | none ↦ failed too_deep
            | some w' ↦ start_all C draw depth rounds node_ids w'
          ])
      next none h same rest = tt
      next (some u) h same rest =
          rest u once
            (λ i n waits found. elim (Bool-cases (i == node_id)) [
              | inl is ↦ ground arith
              | inr other ↦ zero i n (ground arith) (ground (arith, same i other))
            ])
            h

  outcome_of-Results : (Q : World → Type 0) (p : Progress) → Ending Q p → Results Q (outcome_of p)
  outcome_of-Results Q (going w) h = tt
  outcome_of-Results Q (finished w) h = h
  outcome_of-Results Q raised h = tt

  walk-EveryNode :
      (deadline : ℕ) (timeline : List TimelineStep) (w : World)
      → All
          (λ (_, callback). (u : World) → EveryNode P u → EveryNode P (call_back callback u))
          timeline
      → EveryNode P w
      → Results (EveryNode P) (walk C draw depth rounds deadline timeline w)
  unfolding walk run_clock
  walk-EveryNode deadline [] w calm every = every
  walk-EveryNode deadline ((duration, callback) ∷ timeline) w (keeps, calm) every =
      Results-bind (EveryNode P) (EveryNode P)
        (run_clock C draw depth rounds (some (deadline + duration)) (λ _. false) w) _
        (outcome_of-Results (EveryNode P) _
          (run-EveryNode P K depth rounds (some (deadline + duration)) (λ _. false) w every))
        (λ u kept.
          walk-EveryNode (deadline + duration) timeline (call_back callback u) calm (keeps u kept))

  any : (o : Outcome (Unit {0})) → Results (λ _. Unit {0}) o
  any (done a) = tt
  any (failed e) = tt
  any unfinished = tt

  -- What follows the start of all nodes, for a network that has not started.
  started-EveryNode :
      (Q : World → Type 0) (w : World) (next : World → Outcome World)
      → NodupKeys w.nodes
      → EveryNode (λ e. e.cs.round ≡ 0) w
      → EveryNode P w
      → ((u : World) → EveryNode P u → Results Q (next u))
      → Results Q (
          some_node (Dict.keys w.nodes)
          >> (start_all C draw depth rounds (Dict.keys w.nodes) w >>= next))
  started-EveryNode Q w next once zero every then =
      Results-bind (λ _. Unit {0}) Q (some_node (Dict.keys w.nodes)) _ (any _)
        (λ _ _.
          Results-bind (EveryNode P) Q (start_all C draw depth rounds (Dict.keys w.nodes) w) _
            (start_all-EveryNode (Dict.keys w.nodes) w (keys-Distinct w.nodes once)
              (λ i n _ found. zero i n found) every)
            then)

  -- A property of engines that the elementary changes keep, at every node of a network that has
  -- not started: each node has it at the end of a timeline whose callbacks keep it.
  pub run_timeline-EveryNode :
      (timeline : List TimelineStep) (w : World)
      → All
          (λ (_, callback). (u : World) → EveryNode P u → EveryNode P (call_back callback u))
          timeline
      → NodupKeys w.nodes
      → EveryNode (λ e. e.cs.round ≡ 0) w
      → EveryNode P w
      → Results (EveryNode P) (run_timeline C draw depth rounds timeline w)
  unfolding run_timeline
  run_timeline-EveryNode timeline w calm once zero every =
      started-EveryNode (EveryNode P) w _ once zero every
        (λ u kept. walk-EveryNode u.network.clock.now timeline u calm kept)
