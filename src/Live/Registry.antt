-- ===== src/Live/Registry.antt =====
-- The registry of the tests and the exit code of the program.
use nyx_darkpool.Base.{
  ℕ, ◌≡◌, ◌↔◌, refl, sym, ◌∙◌, Bool, true, false, some, none, List, [], ◌∷◌, ◌++◌, append_assoc,
  append-nil, Text, ==_iff, filter, length, map, length-filter_le, All, arith, Outcome, returned,
  threw, if◌then◌else◌,
}
use nyx_darkpool.Live.{TestResult, test, run_tests, is_passed, exit_code, Done, done}

-- What is recorded of a test.
abbrev result_of : Text × Outcome Done → TestResult
result_of (name, returned _) = record { name = name; ok = true; err = none }
result_of (name, threw e) = record { name = name; ok = false; err = some e }

run_tests-map :
    (tests : List (Text × Outcome Done)) (results : List TestResult)
    → run_tests tests results ≡ results ++ map result_of tests
unfolding test
run_tests-map [] results = sym (append-nil results)
run_tests-map ((name, returned d) ∷ tests) results =
    run_tests-map tests (results ++ result_of (name, returned d) ∷ [])
    ∙ append_assoc results (result_of (name, returned d) ∷ []) (map result_of tests)
run_tests-map ((name, threw e) ∷ tests) results =
    run_tests-map tests (results ++ result_of (name, threw e) ∷ [])
    ∙ append_assoc results (result_of (name, threw e) ∷ []) (map result_of tests)

abbrev pub Passes : Text × Outcome Done → Type 0
Passes t = t.1 ≡ returned done

passed-length :
    (tests : List (Text × Outcome Done))
    → (length (filter is_passed (map result_of tests)) ≡ length (map result_of tests))
      ↔ All Passes tests
passed-length [] = (λ h. tt, λ h. refl)
passed-length ((name, returned done) ∷ tests) =
    let (there, back) = passed-length tests in
    (λ h. (refl, there (omega (arith, h))), λ (p, h). omega (arith, back h))
passed-length ((name, threw e) ∷ tests) =
    let le = length-filter_le is_passed (map result_of tests) in
    (λ h. absurd (omega (arith, h, le)), λ (p, h). absurd (cc))

-- The program exits with 0 exactly when none of its tests has thrown.
pub exit_code-zero_iff :
    (tests : List (Text × Outcome Done)) → (exit_code (run_tests tests []) ≡ 0) ↔ All Passes tests
unfolding exit_code
exit_code-zero_iff tests =
    let (there, back) = passed-length tests in
    let same = run_tests-map tests [] in
    let counts =
      ==_iff (length (filter is_passed (map result_of tests))) (length (map result_of tests)) in
    (λ h. there (counts.0 (zero-of _ (rw same at h))), λ h. rw (same, counts.1 (back h)) refl)
  where
    zero-of : (b : Bool) → ◌≡◌ {A = ℕ} (if b then 0 else 1) 0 → b ≡ true
    zero-of true e = refl
    zero-of false e = absurd (omega (arith, e))
