-- ===== src/Latch.antt =====
-- include/coro/comp/latch.hpp: a counter and an `event<>` that the last `count_down` sets. The
-- counter is the 64-bit word of an `std::int64_t`. A step is the fetch-and-subtract of `count_down`,
-- or a step of the event (Event.antt); the steps of all coroutines interleave.
pub mod Opens
mod Tests
use tiny_coro_lab.Prelude.{
  ℕ, ◌+◌, ◌-◌, ◌%◌, ◌^◌, ◌≢◌, ◌<◌, Bool, true, false, ◌||◌, ltb, leb, ◌==◌, if◌then◌else◌,
}
use tiny_coro_lab.Contexts.{Contexts}
use tiny_coro_lab.Event
use tiny_coro_lab.Event.{Pc, idle}

abbrev pub word_mod : ℕ
word_mod = 2 ^ 64

abbrev pub sign_bit : ℕ
sign_bit = 2 ^ 63

-- `latch`, whose member `m_ev` is a whole event.
pub record System (W : Type 0) : Type 0 where
  pub count : ℕ
  pub event : Event.System (Unit {0}) W

pub data Call : Type 0 where
  wait : (ctx handle : ℕ) → Call
  count_down : Call

pub record Choice : Type 0 where
  pub call : Call
  pub spurious : Bool

-- The word is at most 1 as a signed number.
abbrev pub at_most_one : ℕ → Bool
at_most_one x = ltb x 2 || leb sign_bit x

abbrev pub event_call : Call → Event.Call (Unit {0})
event_call (wait c h) = Event.wait c h
event_call count_down = Event.set tt

abbrev pub event_choice : Choice → Event.Choice (Unit {0})
event_choice c = record { call = event_call c.call; spurious = c.spurious }

-- How many calls of `count_down` a step begins.
abbrev pub counts : Pc (Unit {0}) → Call → ℕ
counts idle count_down = 1
counts _ _ = 0

module _ (C : Contexts) (ev : ℕ) where
  open C use {World}

  -- The fetch-and-subtract of `count_down`, and the call of `m_ev.set()`.
  pub count_down_step : System World → ℕ → Choice → System World
  count_down_step s i c = record {
    count = (s.count + word_mod - 1) % word_mod;
    event = if at_most_one s.count then Event.exec C ev s.event i (event_choice c) else s.event;
  }

  -- `wait` is that of the event, and so are all steps within a call.
  pub step : Pc (Unit {0}) → Call → System World → ℕ → Choice → System World
  step idle count_down s i c = count_down_step s i c
  step _ _ s i c = record s { event = Event.exec C ev s.event i (event_choice c) }

  pub exec : System World → ℕ → Choice → System World
  exec s i c = step (s.event.pc i) c.call s i c

  -- The constructor `latch(count)`.
  pub init : ℕ → World → System World
  init n w = record { count = n % word_mod; event = Event.init C ev (n == 0) w }

  -- What any interleaving reaches, `k` calls of `count_down` begun.
  pub data Reach (n : ℕ) (w : World) : ℕ → System World → Type 0 where
    start : Reach n w 0 (init n w)
    later :
        {k : ℕ} {s : System World} (i : ℕ) (c : Choice)
        → 1 < i
        → i ≢ ev
        → Reach n w k s
        → Reach n w (k + counts (s.event.pc i) c.call) (exec s i c)
