-- ===== src/Task.antt =====
-- include/coro/task.hpp: who owns the frame of a coroutine, and who destroys it. A frame is named by
-- its handle, a `task` object by a number; the null handle is 0. What would touch a frame that is not
-- there is `none`.
pub mod Owned
mod Tests
use tiny_coro_lab.Prelude.{
  ℕ, ◌≡◌, ◌≢◌, Bool, true, false, ◌||◌, Option, none, some, update, ◌==◌, if◌then◌else◌,
}

pub data Life : Type 0 where
  absent : Life
  suspended : Life
  finished : Life  -- at its final suspension
  destroyed : Life

abbrev pub alive : Life → Bool
alive suspended = true
alive finished = true
alive absent = false
alive destroyed = false

pub data CoroState : Type 0 where
  normal : CoroState
  detached : CoroState
  none_state : CoroState  -- `none`, which nothing sets

-- The frames, the fields of their promises, and `m_coroutine` of every task.
pub record Frames : Type 0 where
  pub life : ℕ → Life
  pub state : ℕ → CoroState
  pub continuation : ℕ → ℕ
  pub task : ℕ → ℕ

pub data Op : Type 0 where
  creates : (t h : ℕ) → Op  -- the call of a coroutine, and `get_return_object`
  moves : (source target : ℕ) → Op
  assigns : (source target : ℕ) → Op
  drops : (t : ℕ) → Op
  destroys : (t : ℕ) → Op
  detaches : (t : ℕ) → Op
  awaits : (t awaiting : ℕ) → Op
  finishes : (h : ℕ) → Op
  cleans : (h : ℕ) → Op

-- `coroutine_handle::destroy`.
pub destroy_frame : ℕ → Frames → Option Frames
destroy_frame h m =
    if alive (m.life h) then some (record m { life = update m.life h destroyed }) else none

pub create : (t h : ℕ) → Frames → Frames
create t h m = record {
  life = update m.life h suspended;
  state = update m.state h normal;
  continuation = update m.continuation h 0;
  task = update m.task t h;
}

-- The move constructor: `std::exchange` with null.
pub move : (source target : ℕ) → Frames → Frames
move s t m = record m { task = update (update m.task s 0) t (m.task s) }

-- The destructor; the object holds nothing any more.
pub drop : ℕ → Frames → Option Frames
unfolding destroy_frame
drop t m =
    let gone = record m { task = update m.task t 0 } in
    if m.task t == 0 then some gone else destroy_frame (m.task t) gone

-- `operator=` from another task, which destroys what the target held.
pub assign : (source target : ℕ) → Frames → Option Frames
unfolding drop move
assign s t m =
    if s == t then some m else elim (drop t m) [ none ↦ none | some k ↦ some (move s t k) ]

-- The assertion wants a handle; the frame belongs to nobody then.
pub detach : ℕ → Frames → Option Frames
detach t m =
    if m.task t == 0
    then none
    else some (record m { state = update m.state (m.task t) detached; task = update m.task t 0 })

-- `co_await` of a task. One that is at its end is ready, and one without a handle too: `await_resume`
-- asks its promise at once, which the null handle has not. Another gets the continuation.
pub await_suspend : (t awaiting : ℕ) → Frames → Option Frames
await_suspend t k m = if m.task t == 0 then none else elim (m.life (m.task t)) [
  | suspended ↦ some (record m { continuation = update m.continuation (m.task t) k })
  | finished ↦ some m
  | absent ↦ none
  | destroyed ↦ none
]

-- The final suspension goes to the continuation, whose frame has to be there, or nowhere (0).
pub final_suspend : ℕ → Frames → Option (ℕ × Frames)
final_suspend h m =
    let ended = record m { life = update m.life h finished } in
    if (m.continuation h == 0) || alive (ended.life (m.continuation h))
    then some (m.continuation h, ended)
    else none

-- `clean` reads the state of the frame; a detached one is destroyed.
pub clean : ℕ → Frames → Option Frames
unfolding destroy_frame
clean h m =
    if alive (m.life h)
    then elim (m.state h) [ detached ↦ destroy_frame h m | normal ↦ some m | none_state ↦ some m ]
    else none

pub step : Op → Frames → Option Frames
unfolding create move drop assign detach await_suspend final_suspend clean
step (creates t h) m = some (create t h m)
step (moves s t) m = some (move s t m)
step (assigns s t) m = assign s t m
step (drops t) m = drop t m
step (destroys t) m = drop t m
step (detaches t) m = detach t m
step (awaits t k) m = await_suspend t k m
step (finishes h) m = elim (final_suspend h m) [ none ↦ none | some x ↦ some x.1 ]
step (cleans h) m = clean h m

-- When an operation may be called: a coroutine gets a new frame and a new task; a task is moved into a
-- new one; a suspended coroutine comes to its end.
abbrev pub Allowed : Op → Frames → Type 0
Allowed (creates t h) m = (m.task t ≡ 0) × (h ≢ 0) × (m.life h ≡ absent)
Allowed (moves s t) m = (s ≢ t) × (m.task t ≡ 0)
Allowed (assigns s t) m = Unit {0}
Allowed (drops t) m = Unit {0}
Allowed (destroys t) m = Unit {0}
Allowed (detaches t) m = Unit {0}
Allowed (awaits t k) m = Unit {0}
Allowed (finishes h) m = m.life h ≡ suspended
Allowed (cleans h) m = Unit {0}

abbrev pub nothing : Frames
nothing = record { life = λ _. absent; state = λ _. normal; continuation = λ _. 0; task = λ _. 0 }

pub data Reach : Frames → Type 0 where
  start : Reach nothing
  later : {m m2 : Frames} (o : Op) → Allowed o m → step o m ≡ some m2 → Reach m → Reach m2
