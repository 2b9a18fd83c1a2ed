-- ===== src/Contexts.antt =====
-- What the synchronisation components use of the contexts (include/coro/context.hpp): three
-- operations on the state of all contexts, what can be observed of that state, and the laws. A
-- context is named by a number, a coroutine by its handle.
pub mod Plain
use tiny_coro_lab.Prelude.{ℕ, ◌+◌, ◌-◌, ◌%◌, ◌^◌, ◌≡◌, List, [], ◌∷◌, ◌++◌, ◌==◌, if◌then◌else◌}

-- `std::atomic<size_t>` wraps at this number.
abbrev pub size_mod : ℕ
size_mod = 2 ^ 64

pub record Contexts : Type 1 where
  pub World : Type 0
  pub register_wait : ℕ → ℕ → World → World
  pub unregister_wait : ℕ → ℕ → World → World
  pub submit_task : ℕ → ℕ → World → World
  pub waits : World → ℕ → ℕ
  pub tasks : World → ℕ → List ℕ
  pub waits-register :
      (c n : ℕ) (w : World) (d : ℕ)
      → waits (register_wait c n w) d ≡ (if c == d then (waits w d + n) % size_mod else waits w d)
  pub waits-unregister :
      (c n : ℕ) (w : World) (d : ℕ)
      → waits (unregister_wait c n w) d
        ≡ (if c == d then (waits w d + size_mod - n) % size_mod else waits w d)
  pub waits-submit : (c h : ℕ) (w : World) (d : ℕ) → waits (submit_task c h w) d ≡ waits w d
  pub tasks-register : (c n : ℕ) (w : World) (d : ℕ) → tasks (register_wait c n w) d ≡ tasks w d
  pub tasks-unregister : (c n : ℕ) (w : World) (d : ℕ) → tasks (unregister_wait c n w) d ≡ tasks w d
  pub tasks-submit :
      (c h : ℕ) (w : World) (d : ℕ)
      → tasks (submit_task c h w) d ≡ (if c == d then tasks w d ++ h ∷ [] else tasks w d)
