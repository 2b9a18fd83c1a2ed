-- ===== src/Container/Last.antt =====
-- What the general container of include/coro/detail/container.hpp gives after any writes.
use tiny_coro_lab.Prelude.{◌≡◌, refl, Bool, true, false, List, [], ◌∷◌}
use tiny_coro_lab.Container.{
  Outcome, returns, rethrows, never_set, terminates, Storage, unset_return_value, stored,
  exception_ptr, Write, writes, fails, result, write, return_value, set_exception, value_ready,
  value_exception, value_unset,
}

module _ {V E : Type 0} where
  unfoldable pub write_all : List (Write V E) → Storage V E → Storage V E
  write_all [] s = s
  write_all (w ∷ l) s = write_all l (write w s)

  -- What the last of the writes says, or `o` if there is none.
  abbrev pub last_outcome : Outcome V E → List (Write V E) → Outcome V E
  last_outcome o [] = o
  last_outcome o (writes v ∷ l) = last_outcome (returns v) l
  last_outcome o (fails e ∷ l) = last_outcome (rethrows e) l

  last-from :
      (l : List (Write V E)) (s : Storage V E) → result (write_all l s) ≡ last_outcome (result s) l
  unfolding write_all write return_value set_exception result
  last-from [] s = refl
  last-from (writes v ∷ l) s = last-from l (stored v)
  last-from (fails e ∷ l) s = last-from l (exception_ptr e)

  -- However often a container is written, a read gives the last value or throws the last exception,
  -- and the error "never set" only if nothing was written.
  pub result-last :
      (l : List (Write V E)) → result (write_all l unset_return_value) ≡ last_outcome never_set l
  unfolding result
  result-last l = last-from l unset_return_value

  -- What the three tests say together.
  abbrev pub tests_of : Outcome V E → Bool × Bool × Bool
  tests_of (returns v) = (true, false, false)
  tests_of (rethrows e) = (false, true, false)
  tests_of never_set = (false, false, true)
  tests_of terminates = (false, false, false)

  -- The three tests tell beforehand how a read ends: exactly one of them holds.
  pub tests-result :
      (s : Storage V E) → (value_ready s, value_exception s, value_unset s) ≡ tests_of (result s)
  unfolding value_ready value_exception value_unset result
  tests-result unset_return_value = refl
  tests-result (stored v) = refl
  tests-result (exception_ptr e) = refl
