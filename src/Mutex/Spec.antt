-- ===== src/Mutex/Spec.antt =====
-- What the mutex of src/comp/mutex.cpp promises: an owner, and a first-in first-out queue of the
-- coroutines that wait. A step is labelled by the coroutine that makes it.
use tiny_coro_lab.Prelude.{ℕ, ◌≡◌, ◌≢◌, List, [], ◌∷◌, ◌++◌, Option, none, some}

pub record Spec : Type 0 where
  pub owner : Option ℕ
  pub queue : List ℕ

-- The lock is taken only while it is free; whoever waits gets it from the owner, in order of
-- arrival; it becomes free only when nobody waits.
pub data SpecStep (i : ℕ) (σ τ : Spec) : Type 0 where
  stay : τ ≡ σ → SpecStep i σ τ
  acquire :
      σ.owner ≡ none → σ.queue ≡ [] → τ ≡ record { owner = some i; queue = [] } → SpecStep i σ τ
  enqueue :
      (o : ℕ)
      → σ.owner ≡ some o
      → o ≢ i
      → τ ≡ record { owner = some o; queue = σ.queue ++ i ∷ [] }
      → SpecStep i σ τ
  release :
      σ.owner ≡ some i → σ.queue ≡ [] → τ ≡ record { owner = none; queue = [] } → SpecStep i σ τ
  hand_over :
      (t : ℕ) (ts : List ℕ)
      → σ.owner ≡ some i
      → σ.queue ≡ t ∷ ts
      → t ≢ i
      → τ ≡ record { owner = some t; queue = ts }
      → SpecStep i σ τ

pub data SpecReach : Spec → Type 0 where
  start : SpecReach (record { owner = none; queue = [] })
  later : {σ τ : Spec} (i : ℕ) → SpecReach σ → SpecStep i σ τ → SpecReach τ
