-- ===== src/Harness/Main.antt =====
-- `run_scenarios` and `run_everything` of src/main.py. The unit tests are a parameter: whether each
-- of them passed.
pub mod ExitCode
use blockchain_application.Prelude.{
  ℕ, String, Bool, true, false, not, Option, List, [], ◌∷◌, ◌++◌, keep, if◌then◌else◌, length, ltb,
}
use blockchain_application.Prelude.Dict.{Dict}
use blockchain_application.Crypto.Signing.{Crypto}
use blockchain_application.Network.Types.{LogEntry}
use blockchain_application.World.{World}
use blockchain_application.Harness.Outcome.{Outcome, done, failed, unfinished, ◌>>=◌}
use blockchain_application.Harness.Settings.{Settings}
use blockchain_application.Harness.Scenarios.{run_t1, run_t2, run_t3, run_t4}
use blockchain_application.Harness.Faults.{run_t5, run_t6, run_t7, run_t8}

-- A label, and whether it passed; the text of the error is left out.
abbrev pub Result : Type 0
Result = String × Bool

-- `try`: every exception of a scenario is caught. A scenario without an end has no result.
abbrev pub passed : Outcome World → Outcome Bool
passed (done w) = done true
passed (failed e) = done false
passed unfinished = unfinished

unfoldable pub results_of : List (String × Outcome World) → Outcome (List Result)
results_of [] = done []
results_of ((label, outcome) ∷ scenarios) =
    passed outcome >>= λ ok. results_of scenarios >>= λ results. done ((label, ok) ∷ results)

-- The exit code of `run_everything`.
unfoldable pub exit_code : List Result → ℕ
exit_code results = if ltb 0 (length (keep (λ (_, ok). not ok) results)) then 1 else 0

module _ (C : Crypto) (draw : ℕ → ℕ → ℕ) (depth rounds : ℕ) (raw : Option (Dict String Settings))
    (read_log : List LogEntry → String) where
  -- `SCENARIOS`
  unfoldable pub scenarios : List (String × Outcome World)
  unfolding run_t1 run_t2 run_t3 run_t4 run_t5 run_t6 run_t7 run_t8
  scenarios =
      ("T1", run_t1 C draw depth rounds raw)
      ∷ ("T2", run_t2 C draw depth rounds raw)
      ∷ ("T3", run_t3 C draw depth rounds raw)
      ∷ ("T4", run_t4 C draw depth rounds raw)
      ∷ ("T5", run_t5 C draw depth rounds raw)
      ∷ ("T6", run_t6 C draw depth rounds raw)
      ∷ ("T7", run_t7 C draw depth rounds raw)
      ∷ ("T8", run_t8 C draw depth rounds read_log)
      ∷ []

  unfoldable pub run_scenarios : Outcome (List Result)
  unfolding results_of scenarios
  run_scenarios = results_of scenarios

  unfoldable pub run_everything : List Result → Outcome ℕ
  unfolding run_scenarios exit_code
  run_everything unit_tests = run_scenarios >>= λ results. done (exit_code (unit_tests ++ results))
