-- ===== src/WaitGroup/Invariant.antt =====
-- What the words of src/comp/wait_group.cpp stand for. `xs` are the coroutines that hang on
-- `m_state`, newest first; `left i` those that coroutine `i` has taken in `done` and has still to
-- submit; `place` says for each coroutine which of these lists it is in.
use tiny_coro_lab.Prelude.{ℕ, ◌≡◌, refl, false, List, [], count, arith, ◌==◌, if◌then◌else◌, update}
use tiny_coro_lab.Waiters.{Chain, Chain-update}
use tiny_coro_lab.WaitGroup.{Pc, idle, linked, walking, waiting, walks}

pub data Place : Type 0 where
  out : Place
  hung : Place
  taken : (by : ℕ) → Place

abbrev pub on_state : Place → ℕ
on_state hung = 1
on_state _ = 0

abbrev pub on_left : ℕ → Place → ℕ
on_left i (taken k) = if k == i then 1 else 0
on_left i _ = 0

abbrev pub placed : Place → ℕ
placed out = 0
placed _ = 1

abbrev pub Remaining : (ℕ → ℕ) → Pc → List ℕ → Type 0
Remaining next idle ys = ys ≡ []
Remaining next (walking p) ys = Chain next p ys
Remaining next _ ys = ys ≡ []

abbrev pub Own : (ℕ → ℕ) → ℕ → Pc → Type 0
Own next i (linked old) = next i ≡ old
Own next i _ = Unit {0}

-- Coroutine `i` takes all that hang on the word.
abbrev pub take : ℕ → Place → Place
take i hung = taken i
take i q = q

pub record Inv (state : ℕ) (next : ℕ → ℕ) (pc : ℕ → Pc) (place : ℕ → Place) (xs : List ℕ)
    (left : ℕ → List ℕ) : Type 0 where
  pub at_state : (j : ℕ) → count j xs ≡ on_state (place j)
  pub at_left : (i j : ℕ) → count j (left i) ≡ on_left i (place j)
  pub suspended : (j : ℕ) → waiting (pc j) ≡ placed (place j)
  pub word : Chain next state xs
  pub remaining : (i : ℕ) → Remaining next (pc i) (left i)
  pub own : (i : ℕ) → Own next i (pc i)

-- A coroutine that walks no list has none left.
pub Remaining-none :
    (next : ℕ → ℕ) (p : Pc) (ys : List ℕ) → walks p ≡ false → Remaining next p ys → ys ≡ []
Remaining-none next (walking p) ys h r = absurd (ground arith)
Remaining-none next idle ys h r = r
Remaining-none next _ ys h r = r

pub none-Remaining :
    (next : ℕ → ℕ) (p : Pc) (ys : List ℕ) → walks p ≡ false → ys ≡ [] → Remaining next p ys
none-Remaining next (walking p) ys h r = absurd (ground arith)
none-Remaining next idle ys h r = r
none-Remaining next _ ys h r = r

pub Remaining-update :
    (next : ℕ → ℕ) (p : Pc) (a v : ℕ) (ys : List ℕ)
    → count a ys ≡ 0
    → Remaining next p ys
    → Remaining (update next a v) p ys
Remaining-update next (walking p) a v ys n r = Chain-update next p a v ys n r
Remaining-update next idle a v ys n r = r
Remaining-update next _ a v ys n r = r

pub placed-out : (p : Place) → placed p ≡ 0 → p ≡ out
placed-out out e = refl
placed-out hung e = absurd (omega arith)
placed-out (taken k) e = absurd (omega arith)
