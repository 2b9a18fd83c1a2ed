-- ===== src/Mutex/Implements.antt =====
-- src/comp/mutex.cpp implements its specification: every step of every coroutine, one by one, and
-- every interleaving.
use tiny_coro_lab.Prelude.{ℕ, ◌≡◌, refl, ◌<◌, [], none}
use tiny_coro_lab.Contexts.{Contexts}
use tiny_coro_lab.Mutex.Spec.{Spec, SpecReach}
use tiny_coro_lab.Mutex.{
  Pc, idle, loading, try_free, linked, parked, acquired, owner, unlock_cas, unlock_take, reversing,
  popping, handing, System, Choice, exec, init, Reach, start, later,
}
use tiny_coro_lab.Mutex.Refinement.{Refines, Stepped}
use tiny_coro_lab.Mutex.Steps.{
  next_state, begin-Stepped, load-Stepped, try-Stepped, push-Stepped, parked-Stepped, here,
  resume-Stepped, unlock-Stepped, cas-Stepped, take-Stepped, reverse-Stepped, pop-Stepped,
  handing-Stepped,
}

module _ (C : Contexts) {s : System C.World} {σ : Spec} (i : ℕ) (c : Choice) (r : Refines s σ) where
  step-Stepped : (p : Pc) → s.pc i ≡ p → 1 < i → Stepped i σ (next_state C s i c p)
  step-Stepped idle e big = begin-Stepped C i c r c.call refl e
  step-Stepped loading e big = load-Stepped C i c r e
  step-Stepped try_free e big = try-Stepped C i c r c.spurious refl e
  step-Stepped (linked old) e big = push-Stepped C i c r old c.spurious refl big e
  step-Stepped parked e big = parked-Stepped C i c r e
  step-Stepped acquired e big = resume-Stepped C i c r e
  step-Stepped owner e big = unlock-Stepped C i c r e
  step-Stepped unlock_cas e big = cas-Stepped C i c r e
  step-Stepped unlock_take e big = take-Stepped C i c r e
  step-Stepped (reversing a t) e big =
      let shape = here C i c r e (rw e refl) in
      reverse-Stepped C i c r a t shape.1 shape.1.ps refl e shape.0
  step-Stepped (popping t) e big = pop-Stepped C i c r t e
  step-Stepped (handing t) e big = handing-Stepped C i c r t e

-- Every atomic step of every coroutine, from a state that stands for an owner and a queue, leads to a
-- state that stands for the owner and the queue after one step of the specification by the same
-- coroutine; the coroutine's number is the address of an awaiter, so neither 0 nor 1.
pub exec-Stepped :
    (C : Contexts) (s : System C.World) (σ : Spec) (i : ℕ) (c : Choice)
    → 1 < i
    → Refines s σ
    → Stepped i σ (exec C s i c)
unfolding exec
exec-Stepped C s σ i c big r = step-Stepped C i c r (s.pc i) refl big

pub record Simulated {W : Type 0} (s : System W) : Type 0 where
  pub spec : Spec
  pub reach : SpecReach spec
  pub refines : Refines s spec

pub init-Simulated : (C : Contexts) (w : C.World) → Simulated (init C w)
unfolding init
init-Simulated C w = record {
  spec = record { owner = none; queue = [] };
  reach = SpecReach.start;
  refines = record {
    arrivals = [];
    fifo = [];
    queue = refl;
    inv = record {
      members = λ j. refl;
      owners = λ j. refl;
      links = λ j. tt;
      word = (refl, refl);
      private = (refl, refl);
    };
  };
}

-- Every interleaving of coroutines, from the constructor on, is at each moment at a state that stands
-- for an owner and a queue which the specification reaches.
pub Reach-Simulated : (C : Contexts) {w : C.World} {s : System C.World} → Reach C w s → Simulated s
Reach-Simulated C {w} start = init-Simulated C w
Reach-Simulated C (later {s} i c big r) =
    let before = Reach-Simulated C r in
    let stepped = exec-Stepped C s before.spec i c big before.refines in
    record {
      spec = stepped.after;
      reach = SpecReach.later i before.reach stepped.step;
      refines = stepped.refines;
    }
