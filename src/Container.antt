-- ===== src/Container.antt =====
-- include/coro/detail/container.hpp: where a coroutine or an event keeps its result. The general
-- container is a variant; that for plain types is a union with a tag, whose exception pointer has no
-- lifetime until one is made in it. A step that C++ leaves undefined is `none`.
pub mod Last
pub mod Plain
mod Tests
use tiny_coro_lab.Prelude.{Bool, true, false, not, ◌&&◌, Option, none, some, List, [], ◌∷◌}

-- What a read ends in: the value, the stored exception thrown again, the error "never set", or the end
-- of the program, as an exception that leaves a `noexcept` function.
pub data Outcome (V E : Type 0) : Type 0 where
  returns : V → Outcome V E
  rethrows : E → Outcome V E
  never_set : Outcome V E
  terminates : Outcome V E

-- `variant_type`.
pub data Storage (V E : Type 0) : Type 0 where
  unset_return_value : Storage V E
  stored : V → Storage V E
  exception_ptr : E → Storage V E

pub data Write (V E : Type 0) : Type 0 where
  writes : V → Write V E
  fails : E → Write V E

module _ {V E : Type 0} where
  -- Both overloads of `return_value`.
  pub return_value : V → Storage V E → Storage V E
  return_value v s = stored v

  -- A new variant is made in the place of the old.
  pub set_exception : E → Storage V E → Storage V E
  set_exception e s = exception_ptr e

  -- The three overloads of `result`, which differ in how they hand the value out.
  pub result : Storage V E → Outcome V E
  result (stored v) = returns v
  result (exception_ptr e) = rethrows e
  result unset_return_value = never_set

  pub value_ready : Storage V E → Bool
  value_ready (stored _) = true
  value_ready unset_return_value = false
  value_ready (exception_ptr _) = false

  pub value_exception : Storage V E → Bool
  value_exception (exception_ptr _) = true
  value_exception unset_return_value = false
  value_exception (stored _) = false

  pub value_unset : Storage V E → Bool
  unfolding value_ready value_exception
  value_unset s = not (value_ready s) && not (value_exception s)

  pub write : Write V E → Storage V E → Storage V E
  unfolding return_value set_exception
  write (writes v) s = return_value v s
  write (fails e) s = set_exception e s

-- `value_state`.
pub data ValueState : Type 0 where
  no_value : ValueState
  value : ValueState
  exception : ValueState

-- What stands in the union.
pub data Cell (V E : Type 0) : Type 0 where
  raw : Cell V E
  as_value : V → Cell V E
  as_exception : E → Cell V E

pub record Pod (V E : Type 0) : Type 0 where
  pub cell : Cell V E
  pub state : ValueState

module _ {V E : Type 0} where
  -- The constructor sets the tag, and nothing in the union.
  abbrev pub made : Pod V E
  made = record { cell = raw; state = no_value }

  pub pod_return_value : V → Pod V E → Pod V E
  pod_return_value v p = record { cell = as_value v; state = value }

  -- An assignment to the exception pointer of the union: it must be alive, since the assignment
  -- releases what it held.
  pub assign_exception : E → Cell V E → Option (Cell V E)
  assign_exception e (as_exception _) = some (as_exception e)
  assign_exception e raw = none
  assign_exception e (as_value _) = none

  pub pod_set_exception : E → Pod V E → Option (Pod V E)
  unfolding assign_exception
  pod_set_exception e p = elim (assign_exception e p.cell) [
    | none ↦ none
    | some c ↦ some (record { cell = c; state = exception })
  ]

  -- `T{}` if there is no value; `result` is `noexcept`, so that to throw the exception again ends the
  -- program; `none` if the tag speaks of what does not stand in the union.
  pub read_cell : V → ValueState → Cell V E → Option (Outcome V E)
  read_cell zero_value value (as_value v) = some (returns v)
  read_cell zero_value exception (as_exception e) = some terminates
  read_cell zero_value no_value c = some (returns zero_value)
  read_cell zero_value _ c = none

  pub pod_result : V → Pod V E → Option (Outcome V E)
  unfolding read_cell
  pod_result zero_value p = read_cell zero_value p.state p.cell

  pub pod_write : Write V E → Pod V E → Option (Pod V E)
  unfolding pod_return_value pod_set_exception
  pod_write (writes v) p = some (pod_return_value v p)
  pod_write (fails e) p = pod_set_exception e p
