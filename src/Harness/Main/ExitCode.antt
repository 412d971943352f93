-- ===== src/Harness/Main/ExitCode.antt =====
-- What the exit code of `run_everything` of src/main.py says.
use blockchain_application.Prelude.{
  ℕ, ◌≡◌, ◌↔◌, refl, String, true, false, Option, List, [], ◌∷◌, ◌++◌, arith, All, All-append, ap,
}
use blockchain_application.Prelude.Dict.{Dict}
use blockchain_application.Crypto.Signing.{Crypto}
use blockchain_application.Network.Types.{LogEntry}
use blockchain_application.World.{World}
use blockchain_application.Harness.Outcome.{Outcome, done, failed, unfinished, >>=-eq-done}
use blockchain_application.Harness.Settings.{Settings}
use blockchain_application.Harness.Main.{
  Result, results_of, exit_code, scenarios, run_scenarios, run_everything,
}

abbrev pub Passes : Result → Type 0
Passes (label, ok) = ok ≡ true

-- The scenario comes to its end, with no exception.
abbrev pub Succeeds : String × Outcome World → Type 0
Succeeds (label, outcome) = (w : World) × (outcome ≡ done w)

exit_code-All : (results : List Result) → exit_code results ≡ 0 → All Passes results
unfolding exit_code
exit_code-All [] e = tt
exit_code-All ((label, true) ∷ results) e = (refl, exit_code-All results e)
exit_code-All ((label, false) ∷ results) e = absurd (ground arith)

All-exit_code : (results : List Result) → All Passes results → exit_code results ≡ 0
unfolding exit_code
All-exit_code [] all = refl
All-exit_code ((label, true) ∷ results) (ok, all) = All-exit_code results all
All-exit_code ((label, false) ∷ results) (ok, all) = absurd (ground arith)

All-left : (xs ys : List Result) → All Passes (xs ++ ys) → All Passes xs
All-left [] ys all = tt
All-left (x ∷ xs) ys (first, all) = (first, All-left xs ys all)

All-right : (xs ys : List Result) → All Passes (xs ++ ys) → All Passes ys
All-right [] ys all = all
All-right (x ∷ xs) ys (first, all) = All-right xs ys all

results_of-All :
    (runs : List (String × Outcome World)) (results : List Result)
    → results_of runs ≡ done results
    → All Passes results
    → All Succeeds runs
unfolding results_of
results_of-All [] results e all = tt
results_of-All ((label, done w) ∷ runs) results e all =
    let (rest, later, is) = >>=-eq-done (results_of runs) _ e in
    let whole : results ≡ (label, true) ∷ rest = ground arith in
    ((w, refl), results_of-All runs rest later (rw whole at all).1)
results_of-All ((label, failed r) ∷ runs) results e all =
    let (rest, later, is) = >>=-eq-done (results_of runs) _ e in
    let whole : results ≡ (label, false) ∷ rest = ground arith in
    let first : false ≡ true = (rw whole at all).0 in absurd (ground arith)
results_of-All ((label, unfinished) ∷ runs) results e all = absurd (ground arith)

All-results_of :
    (runs : List (String × Outcome World))
    → All Succeeds runs
    → (results : List Result) × (results_of runs ≡ done results) × All Passes results
unfolding results_of
All-results_of [] all = ([], refl, tt)
All-results_of ((label, outcome) ∷ runs) ((w, e), all) =
    let (rest, later, ok) = All-results_of runs all in
    ((label, true) ∷ rest, rw (e, later) refl, (refl, ok))

module _ (C : Crypto) (draw : ℕ → ℕ → ℕ) (depth rounds : ℕ) (raw : Option (Dict String Settings))
    (read_log : List LogEntry → String) where
  -- The program exits with 0 exactly when every unit test passed and every scenario, T1 to T8, came
  -- to its end within the rounds with no exception.
  pub run_everything_iff :
      (unit_tests : List Result)
      → (run_everything C draw depth rounds raw read_log unit_tests ≡ done 0)
        ↔ (All Passes unit_tests × All Succeeds (scenarios C draw depth rounds raw read_log))
  unfolding run_everything run_scenarios
  run_everything_iff unit_tests =
      let runs = scenarios C draw depth rounds raw read_log in
      (
        λ e.
            let (results, ran, code) = >>=-eq-done (results_of runs) _ e in
            let all = exit_code-All (unit_tests ++ results) (ground arith) in
            (
              All-left unit_tests results all,
              results_of-All runs results ran (All-right unit_tests results all),
            ),
        λ (units, all).
            let (results, ran, ok) = All-results_of runs all in
            rw ran (
              ap done (
                All-exit_code (unit_tests ++ results)
                  (All-append Passes unit_tests results units ok))),
      )
