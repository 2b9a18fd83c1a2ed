-- ===== src/Scheduler.antt =====
-- include/coro/scheduler.hpp, src/scheduler.cpp and the round robin of include/coro/dispatcher.hpp: which
-- context a task goes to, and how the scheduler learns that all contexts are idle. A step of a thread
-- makes at most one access to an atomic variable, and the steps interleave. The stop token is the
-- 32-bit word of an `std::atomic<int>`.
pub mod Sum
pub mod Counts
pub mod Token
mod Tests
use tiny_coro_lab.Prelude.{
  ℕ, suc, ◌+◌, ◌-◌, ◌%◌, ◌^◌, ◌≡◌, ◌<◌, Bool, true, false, update, ltb, ◌==◌, if◌then◌else◌,
}
use tiny_coro_lab.Contexts.{Contexts, size_mod}

abbrev pub int_mod : ℕ
int_mod = 2 ^ 32

-- `m_cur` of the dispatcher, the two members of the scheduler, and the contexts.
pub record Mem (W : Type 0) : Type 0 where
  pub cur : ℕ
  pub stop_token : ℕ
  pub ctx_stop_flag : ℕ → ℕ
  pub world : W

pub data Pc : Type 0 where
  idle : Pc
  aborted : Pc  -- by the assertion in `submit_task_impl`
  dispatching : (handle : ℕ) → Pc  -- before `dispatch`
  marking : (ctx_id handle : ℕ) → Pc  -- before the flag is set
  adding : (ctx_id handle old : ℕ) → Pc  -- before the stop token goes up
  handing : (ctx_id handle : ℕ) → Pc  -- before the context gets the task
  clearing : (ctx_id : ℕ) → Pc  -- in the callback, before the flag is cleared
  subtracting : (cnt : ℕ) → Pc  -- before the stop token goes down
  stopping : (i : ℕ) → Pc  -- head of the loop in `stop_impl`

-- A thread submits a task, or it is that of an idle context and calls the callback.
pub data Call : Type 0 where
  submit : (handle : ℕ) → Call
  report : (ctx_id : ℕ) → Call

-- `fetch_or(1)` writes this.
abbrev pub or_one : ℕ → ℕ
or_one v = v + 1 - v % 2

module _ (C : Contexts) (notify_stop : ℕ → C.World → C.World) (ctx_cnt : ℕ) where
  open C use {World, submit_task}

  begin : Call → Mem World → Mem World × Pc
  begin (submit h) m = (m, if m.stop_token == 0 then aborted else dispatching h)
  begin (report i) m = (m, clearing i)

  -- Round robin: `fetch_add`, and the old value modulo the number of contexts.
  dispatch : ℕ → Mem World → Mem World × Pc
  dispatch h m = (record m { cur = (m.cur + 1) % size_mod }, marking (m.cur % ctx_cnt) h)

  mark : ℕ → ℕ → Mem World → Mem World × Pc
  mark i h m =
      let old = m.ctx_stop_flag i in
      (record m { ctx_stop_flag = update m.ctx_stop_flag i (or_one old) }, adding i h old)

  add_token : ℕ → ℕ → ℕ → Mem World → Mem World × Pc
  add_token i h old m =
      (record m { stop_token = (m.stop_token + 1 + int_mod - old) % int_mod }, handing i h)

  hand : ℕ → ℕ → Mem World → Mem World × Pc
  hand i h m = (record m { world = submit_task i h m.world }, idle)

  clear : ℕ → Mem World → Mem World × Pc
  clear i m =
      let cnt = m.ctx_stop_flag i in
      (record m { ctx_stop_flag = update m.ctx_stop_flag i 0 }, subtracting cnt)

  subtract : ℕ → Mem World → Mem World × Pc
  subtract cnt m = (
    record m { stop_token = (m.stop_token + int_mod - cnt) % int_mod },
    if m.stop_token == cnt then stopping 0 else idle,
  )

  -- One round of `stop_impl`.
  stop_round : ℕ → Mem World → Mem World × Pc
  stop_round i m =
      if ltb i ctx_cnt
      then (record m { world = notify_stop i m.world }, stopping (i + 1))
      else (m, idle)

  pub act : Call → Pc → Mem World → Mem World × Pc
  unfolding begin dispatch mark add_token hand clear subtract stop_round
  act c idle m = begin c m
  act c aborted m = (m, aborted)
  act c (dispatching h) m = dispatch h m
  act c (marking i h) m = mark i h m
  act c (adding i h old) m = add_token i h old m
  act c (handing i h) m = hand i h m
  act c (clearing i) m = clear i m
  act c (subtracting cnt) m = subtract cnt m
  act c (stopping i) m = stop_round i m

pub record System (W : Type 0) : Type 0 where
  pub mem : Mem W
  pub pc : ℕ → Pc

-- A callback is that of a context of the scheduler.
abbrev pub call_ok : ℕ → Call → Bool
call_ok n (submit h) = true
call_ok n (report i) = ltb i n

module _ (C : Contexts) (notify_stop : ℕ → C.World → C.World) (ctx_cnt : ℕ) where
  open C use {World}

  pub exec : System World → ℕ → Call → System World
  exec s t c =
      let (m, p) = act C notify_stop ctx_cnt c (s.pc t) s.mem in
      record { mem = m; pc = update s.pc t p }

  -- `init_impl`: every context counts as busy.
  pub init : World → System World
  init w = record {
    mem = record { cur = 0; stop_token = ctx_cnt % int_mod; ctx_stop_flag = λ _. 1; world = w };
    pc = λ _. idle;
  }

  -- What any interleaving of `threads` threads reaches.
  pub data Reach (threads : ℕ) (w : World) : System World → Type 0 where
    start : Reach threads w (init w)
    later :
        {s : System World} (t : ℕ) (c : Call)
        → t < threads
        → call_ok ctx_cnt c ≡ true
        → Reach threads w s
        → Reach threads w (exec s t c)
