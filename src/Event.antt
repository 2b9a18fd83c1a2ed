-- ===== src/Event.antt =====
-- include/coro/comp/event.hpp and src/comp/event.cpp: the event that is set once and wakes all who
-- wait. A coroutine is named by the address of its awaiter; a step makes at most one access to the
-- atomic word `m_state`, and the steps of all coroutines interleave (sequentially consistent). The
-- value that `set` stores is an option: what a container keeps. For `event<>` the type is `Unit`,
-- and the step that stores it is no step of the code.
pub mod Invariant
pub mod Moves
pub mod Kept
pub mod Preserved
pub mod Safety
pub mod Waking
pub mod Opening
mod Tests
use tiny_coro_lab.Prelude.{
  ℕ, zero, suc, ◌≡◌, ◌≢◌, ◌<◌, Bool, true, false, Option, none, some, update, ◌==◌, if◌then◌else◌,
}
use tiny_coro_lab.Contexts.{Contexts}

-- `event_base`, its container, the fields of every awaiter, and the contexts.
pub record Mem (V W : Type 0) : Type 0 where
  pub state : ℕ
  pub value : Option V
  pub ctx : ℕ → ℕ
  pub next : ℕ → ℕ
  pub await_coro : ℕ → ℕ
  pub world : W

pub data Pc (V : Type 0) : Type 0 where
  idle : Pc V
  checking : (handle : ℕ) → Pc V  -- in `await_ready`, the wait registered
  loading : Pc V  -- head of the loop in `register_awaiters`
  linked : (old : ℕ) → Pc V  -- `m_next` is written, before the compare-exchange
  parked : Pc V  -- suspended
  resuming : Pc V  -- before `await_resume`
  returned : (result : Option V) → Pc V  -- `co_await ev.wait()` has this result
  setting : Pc V  -- in `set`, the value stored, before the exchange
  walking : (waiter : ℕ) → Pc V  -- head of the loop in `resume_all_awaiters`

pub data Call (V : Type 0) : Type 0 where
  wait : (ctx handle : ℕ) → Call V
  set : V → Call V

pub record Choice (V : Type 0) : Type 0 where
  pub call : Call V
  pub spurious : Bool

-- `ev` is the address of the event: `m_state` holds it once the event is set.
module _ (C : Contexts) {V : Type 0} (ev : ℕ) where
  open C use {World, register_wait, unregister_wait, submit_task}

  -- `wait` makes the awaiter and `await_ready` registers the wait; `set` stores the value.
  begin : Call V → ℕ → Mem V World → Mem V World × Pc V
  begin (wait c handle) me m = (
    record m {
      ctx = update m.ctx me c;
      next = update m.next me 0;
      await_coro = update m.await_coro me 0;
      world = register_wait c 1 m.world;
    },
    checking handle,
  )
  begin (set v) me m = (record m { value = some v }, setting)

  pub is_set : Mem V World → Bool
  is_set m = m.state == ev

  -- The answer of `await_ready`; if it is no, `await_suspend` saves the handle.
  await_ready : ℕ → ℕ → Mem V World → Mem V World × Pc V
  unfolding is_set
  await_ready handle me m =
      if is_set m
      then (m, resuming)
      else (record m { await_coro = update m.await_coro me handle }, loading)

  -- The load in `register_awaiters`, up to the compare-exchange. A set event resumes the caller.
  load_state : ℕ → Mem V World → Mem V World × Pc V
  load_state me m =
      if m.state == ev
      then (record m { next = update m.next me 0 }, resuming)
      else (record m { next = update m.next me m.state }, linked m.state)

  cas_push : Bool → ℕ → ℕ → Mem V World → Mem V World × Pc V
  cas_push true old me m = (m, loading)
  cas_push false old me m =
      if m.state == old then (record m { state = me }, parked) else (m, loading)

  -- The wait is over: the count goes down, and the container gives its value.
  await_resume : ℕ → Mem V World → Mem V World × Pc V
  await_resume me m = (record m { world = unregister_wait (m.ctx me) 1 m.world }, returned m.value)

  -- The exchange of `set_state`.
  set_state : Mem V World → Mem V World × Pc V
  set_state m =
      let flag = m.state in (record m { state = ev }, if flag == ev then idle else walking flag)

  -- One round of `resume_all_awaiters`: the link is read before the coroutine is submitted.
  resume_round : ℕ → Mem V World → Mem V World × Pc V
  resume_round waiter m = if waiter == 0 then (m, idle) else (
    record m { world = submit_task (m.ctx waiter) (m.await_coro waiter) m.world },
    walking (m.next waiter),
  )

  -- One step of one coroutine. A coroutine that has its result may call again.
  unfoldable pub act : Choice V → ℕ → Pc V → Mem V World → Mem V World × Pc V
  unfolding begin await_ready load_state cas_push await_resume set_state resume_round
  act c me idle m = begin c.call me m
  act c me (checking h) m = await_ready h me m
  act c me loading m = load_state me m
  act c me (linked old) m = cas_push c.spurious old me m
  act c me parked m = (m, parked)
  act c me resuming m = await_resume me m
  act c me (returned r) m = (m, idle)
  act c me setting m = set_state m
  act c me (walking p) m = resume_round p m

-- The coroutine that a round submits stands before `await_resume` when its context runs it.
abbrev pub wake : {V : Type 0} → Pc V → (ℕ → Pc V) → ℕ → Pc V
wake (walking p) pc = if p == 0 then pc else update pc p resuming
wake _ pc = pc

pub record System (V W : Type 0) : Type 0 where
  pub mem : Mem V W
  pub pc : ℕ → Pc V

module _ (C : Contexts) {V : Type 0} (ev : ℕ) where
  open C use {World}

  unfoldable pub exec : System V World → ℕ → Choice V → System V World
  exec s i c =
      let (m, p) = act C ev c i (s.pc i) s.mem in
      record { mem = m; pc = wake (s.pc i) (update s.pc i p) }

  -- The constructor `event_base(initial_set)`.
  unfoldable pub init : Bool → World → System V World
  init initial_set w = record {
    mem = record {
      state = if initial_set then ev else 0;
      value = none;
      ctx = λ _. 0;
      next = λ _. 0;
      await_coro = λ _. 0;
      world = w;
    };
    pc = λ _. idle;
  }

  -- What any interleaving reaches of coroutines whose addresses are not the event's.
  pub data Reach (initial_set : Bool) (w : World) : System V World → Type 0 where
    start : Reach initial_set w (init initial_set w)
    later :
        {s : System V World} (i : ℕ) (c : Choice V)
        → 1 < i
        → i ≢ ev
        → Reach initial_set w s
        → Reach initial_set w (exec s i c)

module _ {V : Type 0} where
  abbrev pub waiting : Pc V → ℕ
  waiting parked = 1
  waiting _ = 0

  abbrev pub walks : Pc V → Bool
  walks (walking _) = true
  walks _ = false
