-- ===== src/Event/Invariant.antt =====
-- What the words of src/comp/event.cpp stand for. `xs` are the suspended coroutines that hang on
-- `m_state`, newest first; `ys` those that a call of `resume_all_awaiters` has still to submit, and
-- `w` is the coroutine that makes that call.
use tiny_coro_lab.Prelude.{
  ℕ, ◌+◌, ◌≡◌, ◌≢◌, Bool, true, false, List, [], Option, none, some, count, ◌==◌,
}
use tiny_coro_lab.Waiters.{Chain}
use tiny_coro_lab.Event.{Pc, idle, linked, returned, setting, walking, waiting, walks}

abbrev pub is_walker : Option ℕ → ℕ → Bool
is_walker none i = false
is_walker (some w) i = w == i

abbrev pub given : {V : Type 0} → Option V → Bool
given none = false
given (some _) = true

-- What `m_state` says, before and after the event is set.
abbrev pub Word : ℕ → Bool → (ℕ → ℕ) → ℕ → Option ℕ → (xs ys : List ℕ) → Type 0
Word ev true next state w xs ys = (state ≡ ev) × (xs ≡ [])
Word ev false next state w xs ys = (state ≢ ev) × Chain next state xs × (w ≡ none) × (ys ≡ [])

module _ {V : Type 0} where
  abbrev pub Remaining : (ℕ → ℕ) → Pc V → List ℕ → Type 0
  Remaining next idle ys = Unit {0}
  Remaining next (walking p) ys = Chain next p ys
  Remaining next _ ys = Unit {0}

  abbrev pub Walk : (ℕ → ℕ) → (ℕ → Pc V) → Option ℕ → List ℕ → Type 0
  Walk next pc none ys = ys ≡ []
  Walk next pc (some w) ys = Remaining next (pc w) ys

  -- What a coroutine's own place says: its link before the compare-exchange; that the event is set,
  -- if its wait is over; that a value is stored, if it is in `set`, or has a result.
  abbrev pub Own :
      (ev : ℕ) (initial_set is_set : Bool) (value : Option V) (next : ℕ → ℕ) (i : ℕ) → Pc V → Type 0
  Own ev b set v next i (linked old) = (next i ≡ old) × (old ≢ ev)
  Own ev b set v next i Pc.resuming = set ≡ true
  Own ev b set v next i (returned r) = (set ≡ true) × (b ≡ false → given r ≡ true)
  Own ev b set v next i setting = given v ≡ true
  Own ev b set v next i _ = Unit {0}

  pub record Inv (ev : ℕ) (b set : Bool) (state : ℕ) (value : Option V) (next : ℕ → ℕ)
      (pc : ℕ → Pc V) (w : Option ℕ) (xs ys : List ℕ) : Type 0 where
    pub members : (i : ℕ) → count i xs + count i ys ≡ waiting (pc i)
    pub walkers : (i : ℕ) → walks (pc i) ≡ is_walker w i
    pub own : (i : ℕ) → Own ev b set value next i (pc i)
    pub word : Word ev set next state w xs ys
    pub walk : Walk next pc w ys
    pub valued : b ≡ false → set ≡ true → given value ≡ true
