-- ===== src/Container/Plain.antt =====
-- The container for plain types of include/coro/detail/container.hpp, against the general one.
use tiny_coro_lab.Prelude.{
  ◌≡◌, refl, subst, Bool, true, false, Option, none, some, List, [], ◌∷◌, arith,
}
use tiny_coro_lab.Container.{
  Outcome, unset_return_value, stored, Write, writes, fails, result, write, return_value, Cell, raw,
  as_value, as_exception, Pod, made, pod_return_value, pod_set_exception, pod_result, pod_write,
  assign_exception, read_cell,
}
use tiny_coro_lab.Container.Last.{write_all}

module _ {V E : Type 0} where
  unfoldable pub pod_write_all : List (Write V E) → Pod V E → Option (Pod V E)
  pod_write_all [] p = some p
  pod_write_all (w ∷ l) p = elim (pod_write w p) [ none ↦ none | some q ↦ pod_write_all l q ]

  -- The writes that store a value.
  abbrev pub values : List V → List (Write V E)
  values [] = []
  values (v ∷ vs) = writes v ∷ values vs

  -- The read after the writes, if all of it is defined.
  abbrev pub pod_read : V → Option (Pod V E) → Option (Outcome V E)
  pod_read z none = none
  pod_read z (some p) = pod_result z p

  agrees-from :
      (z : V) (vs : List V) (v : V)
      → pod_read z (pod_write_all (values vs) (pod_return_value v made))
        ≡ some (result (write_all (values vs) (stored v)))
  unfolding pod_write_all pod_write pod_return_value write_all write return_value pod_result
      read_cell result
  agrees-from z [] v = refl
  agrees-from z (u ∷ vs) v = agrees-from z vs u

  -- Where only values are stored, and at least one, the container for plain types reads as the
  -- general one does.
  pub plain-agrees :
      (z v : V) (vs : List V)
      → pod_read z (pod_write_all (values (v ∷ vs)) made)
        ≡ some (result (write_all (values (v ∷ vs)) unset_return_value))
  unfolding pod_write_all pod_write pod_return_value write_all write return_value
  plain-agrees z v vs = agrees-from z vs v

  abbrev holds_exception : Cell V E → Bool
  holds_exception (as_exception _) = true
  holds_exception raw = false
  holds_exception (as_value _) = false

  assign-undefined :
      (e : E) (c : Cell V E) → holds_exception c ≡ false → assign_exception e c ≡ none
  unfolding assign_exception
  assign-undefined e raw h = refl
  assign-undefined e (as_value v) h = refl
  assign-undefined e (as_exception x) h = absurd (ground arith)

  abbrev NoException : Option (Pod V E) → Type 0
  NoException none = Unit {0}
  NoException (some p) = holds_exception p.cell ≡ false

  write_all-NoException :
      (l : List (Write V E)) (p : Pod V E)
      → holds_exception p.cell ≡ false
      → NoException (pod_write_all l p)
  unfolding pod_write_all pod_write pod_set_exception pod_return_value
  write_all-NoException [] p h = h
  write_all-NoException (writes v ∷ l) p h = write_all-NoException l (pod_return_value v p) refl
  write_all-NoException (fails x ∷ l) p h =
      rw (pod_write_all, pod_write, pod_set_exception, assign-undefined x p.cell h) tt

  -- A container for plain types never comes to hold an exception in a defined run: whatever was
  -- written since its construction, `set_exception` assigns to a pointer that is not alive.
  pub set_exception-undefined :
      (e : E) (l : List (Write V E)) (p : Pod V E)
      → pod_write_all l made ≡ some p
      → pod_set_exception e p ≡ none
  unfolding pod_set_exception
  set_exception-undefined e l p eq =
      rw
        (
          pod_set_exception,
          assign-undefined e p.cell (subst NoException eq (write_all-NoException l made refl)),
        )
        refl
