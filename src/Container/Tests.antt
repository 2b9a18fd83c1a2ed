-- ===== src/Container/Tests.antt =====
-- Runs of include/coro/detail/container.hpp, and its theorems at them.
use tiny_coro_lab.Prelude.{ℕ, ◌≡◌, refl, none, some, List, [], ◌∷◌}
use tiny_coro_lab.Container.{
  never_set, Storage, unset_return_value, exception_ptr, Write, writes, fails, result, value_ready,
  value_exception, value_unset, made, pod_set_exception, pod_return_value, pod_write,
}
use tiny_coro_lab.Container.Last.{write_all, last_outcome, result-last, tests_of, tests-result}
use tiny_coro_lab.Container.Plain.{
  pod_write_all, pod_read, values, plain-agrees, set_exception-undefined,
}

abbrev some_writes : List (Write ℕ ℕ)
some_writes = writes 3 ∷ fails 9 ∷ writes 4 ∷ []

last_wins : result (write_all some_writes unset_return_value) ≡ last_outcome never_set some_writes
last_wins = result-last some_writes

abbrev failed : Storage ℕ ℕ
failed = exception_ptr 9

failed_tests :
    (value_ready failed, value_exception failed, value_unset failed) ≡ tests_of (result failed)
failed_tests = tests-result failed

plain-agrees_run :
    pod_read {V = ℕ} {E = ℕ} 0 (pod_write_all (values (3 ∷ 4 ∷ [])) made)
    ≡ some (result (write_all (values (3 ∷ 4 ∷ [])) unset_return_value))
plain-agrees_run = plain-agrees {V = ℕ} {E = ℕ} 0 3 (4 ∷ [])

set_exception-undefined_example :
    pod_set_exception 9 (pod_return_value {V = ℕ} {E = ℕ} 3 made) ≡ none
unfolding pod_write_all pod_write
set_exception-undefined_example =
    set_exception-undefined {V = ℕ} {E = ℕ} 9 (writes 3 ∷ []) (pod_return_value 3 made) refl
