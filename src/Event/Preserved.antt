-- ===== src/Event/Preserved.antt =====
-- The invariant of src/comp/event.cpp holds in every interleaving.
use tiny_coro_lab.Prelude.{ℕ, refl, sym, ◌≢◌, ◌<◌, Bool, true, false, [], none}
use tiny_coro_lab.Contexts.{Contexts}
use tiny_coro_lab.Event.{Choice, System, exec, init, Reach, start, later}
use tiny_coro_lab.Event.Kept.{IsGood, step-IsGood}

module _ (C : Contexts) {V : Type 0} (ev : ℕ) where
  open C use {World}

  pub exec-IsGood :
      {b : Bool} {s : System V World} (i : ℕ) (c : Choice V)
      → 1 < i
      → i ≢ ev
      → IsGood ev b s
      → IsGood ev b (exec C ev s i c)
  unfolding exec
  exec-IsGood {s} i c big ne g = step-IsGood C ev i c g (s.pc i) refl big ne

  init-IsGood : (b : Bool) (w : World) → ev ≢ 0 → IsGood ev b (init C {V = V} ev b w)
  unfolding init
  init-IsGood true w pos = record {
    is_set = true;
    walker = none;
    hung = [];
    left = [];
    inv = record {
      members = λ j. refl;
      walkers = λ j. refl;
      own = λ j. tt;
      word = (refl, refl);
      walk = refl;
      valued = λ h. cc;
    };
  }
  init-IsGood false w pos = record {
    is_set = false;
    walker = none;
    hung = [];
    left = [];
    inv = record {
      members = λ j. refl;
      walkers = λ j. refl;
      own = λ j. tt;
      word = (λ e. pos (sym e), refl, refl, refl);
      walk = refl;
      valued = λ _ h. cc;
    };
  }

  -- The lists of the invariant explain every state that any interleaving reaches.
  pub Reach-IsGood :
      {b : Bool} {w : World} {s : System V World} → ev ≢ 0 → Reach C ev b w s → IsGood ev b s
  Reach-IsGood {b} {w} pos start = init-IsGood b w pos
  Reach-IsGood pos (later i c big ne r) = exec-IsGood i c big ne (Reach-IsGood pos r)
