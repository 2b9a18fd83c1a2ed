-- ===== src/Await/Run.antt =====
-- What it is for a coroutine of include/coro/task.hpp to run to its end: its result, its moves, and the
-- machine before and after.
use tiny_coro_lab.Prelude.{
  ℕ, zero, suc, ◌+◌, ◌≡◌, ◌≢◌, refl, sym, ◌∙◌, ap, ◌<◌, ◌≤◌, arith, some, eqb_ne, update_self,
  update_ne, ◌⊎◌,
}
use tiny_coro_lab.Await.{
  Result, value, exception, Body, co_returns, throws, awaits, yields, Code, runs, finished, gone,
  Machine, finish, move, step, exec,
}

-- What a body gives when a `co_await` is a call, and a suspension nothing.
abbrev pub eval : Body → Result
eval (co_returns v) = value v
eval (throws e) = exception e
eval (awaits child k) = eval (k (eval child))
eval (yields rest) = eval rest

-- The moves that the coroutine and the tasks that it awaits make, if none of them suspends.
abbrev pub moves : Body → ℕ
moves (co_returns v) = 1
moves (throws e) = 1
moves (awaits child k) = suc (moves child + suc (moves (k (eval child))))
moves (yields rest) = suc (moves rest)

-- A body that never suspends, however deep it awaits tasks.
abbrev pub Quiet : Body → Type 0
Quiet (co_returns v) = Unit {0}
Quiet (throws e) = Unit {0}
Quiet (awaits child k) = Quiet child × Quiet (k (eval child))
Quiet (yields rest) = ⊥

-- Between `m` and `n` the coroutine `h` has run `b` to its end: it has the result, its continuation
-- is next, no older frame but its own has changed, and every newer one is destroyed.
pub record Ran (b : Body) (h : ℕ) (m n : Machine) : Type 0 where
  pub at : n.current ≡ (m.frame h).continuation
  pub idle : n.submitted ≡ 0
  pub done : n.frame h ≡ record (m.frame h) { code = finished; outcome = some (eval b) }
  pub grows : m.next_handle ≤ n.next_handle
  pub others : (g : ℕ) → g < m.next_handle → g ≢ h → n.frame g ≡ m.frame g
  pub freed : (g : ℕ) → m.next_handle ≤ g → g < n.next_handle → (n.frame g).code ≡ gone

-- A coroutine that runs at the start of `b`.
pub record At (b : Body) (h : ℕ) (m : Machine) : Type 0 where
  pub current : m.current ≡ h
  pub code : (m.frame h).code ≡ runs b
  pub real : h ≢ 0
  pub known : h < m.next_handle
  pub idle : m.submitted ≡ 0

pub lt_or_le : (a b : ℕ) → (a < b) ⊎ (b ≤ a)
lt_or_le a b = ground arith

pub exec-add : (a b : ℕ) (m : Machine) → exec (a + b) m ≡ exec b (exec a m)
unfolding exec
exec-add zero b m = ap (λ n. exec n m) (zero_plus b)
  where
    zero_plus : (b : ℕ) → 0 + b ≡ b
    zero_plus b = omega arith
exec-add (suc a) b m = ap (λ n. exec n m) (suc_plus a b) ∙ exec-add a b (step m)
  where
    suc_plus : (a b : ℕ) → suc a + b ≡ suc (a + b)
    suc_plus a b = omega arith

pub step-move :
    (m : Machine) (h : ℕ) (c : Code)
    → m.current ≡ h
    → h ≢ 0
    → (m.frame h).code ≡ c
    → step m ≡ move h c m
unfolding step
step-move m h c at real code = rw (at, eqb_ne real, code) refl

pub finish-Ran :
    (r : Result) (b : Body) (h : ℕ) (m : Machine) → eval b ≡ r → At b h m → Ran b h m (finish h r m)
unfolding finish
finish-Ran r b h m e a = record {
  at = refl;
  idle = a.idle;
  done =
      update_self m.frame h _
      ∙ ap (λ x. record (m.frame h) { code = finished; outcome = some x }) (sym e);
  grows = omega arith;
  others = λ g small differs. update_ne m.frame _ (λ x. differs (sym x));
  freed = λ g low high. absurd (omega (arith, low, high));
}
