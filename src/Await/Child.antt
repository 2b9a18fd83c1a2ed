-- ===== src/Await/Child.antt =====
-- A coroutine of include/coro/task.hpp stands by while the task that it awaits runs.
use tiny_coro_lab.Prelude.{
  ℕ, ◌≡◌, ◌≢◌, refl, sym, ◌∙◌, ap, ◌<◌, ◌≤◌, arith, false, inl, inr, none, some, eq_or_ne, update,
  update_self, update_ne,
}
use tiny_coro_lab.Await.{
  Result, Body, awaits, runs, waits, finished, gone, Frame, Machine, co_await, result, await_resume,
  move, step,
}
use tiny_coro_lab.Await.Run.{eval, Ran, At, step-move, lt_or_le}

-- A coroutine `h` awaits a task: `m` before, `m2` after the task has run.
module _ (child : Body) (k : Result → Body) (h : ℕ) (m m2 : Machine)
    (a : At (awaits child k) h m) where
  abbrev pub starts : Machine
  starts = co_await h child k m

  abbrev pub ends : Machine
  ends = await_resume h m.next_handle k m2

  abbrev task : Frame
  task = record { code = runs child; continuation = h; detached = false; outcome = none }

  abbrev standing : Frame
  standing = record (m.frame h) { code = waits m.next_handle k }

  -- The frames while `h` stands by, and after the task is destroyed.
  abbrev behind : ℕ → Frame
  behind = update m.frame h standing

  abbrev released : ℕ → Frame
  released = update m2.frame m.next_handle (record (m2.frame m.next_handle) { code = gone })

  abbrev going_on : Frame
  going_on = record (m2.frame h) { code = runs (k (result (m2.frame m.next_handle).outcome)) }

  new : m.next_handle ≢ h
  new e = absurd (omega (arith, e, a.known))

  older : {g : ℕ} → g < m.next_handle → m.next_handle ≢ g
  older small e = absurd (omega (arith, e, small))

  pub child-At : At child m.next_handle starts
  unfolding co_await
  child-At = record {
    current = refl;
    code = ap (λ (f : Frame). f.code) (update_self behind m.next_handle task);
    real = λ e. absurd (omega (arith, e, a.known));
    known = omega arith;
    idle = a.idle;
  }

  module _ (r : Ran child m.next_handle starts m2) where
    -- The frame of `h` stands by while the task runs.
    stands_by : m2.frame h ≡ standing
    unfolding co_await
    stands_by =
        r.others h (omega (arith, a.known)) (λ e. new (sym e))
        ∙ update_ne behind task new
        ∙ update_self m.frame h standing

    returns : m2.current ≡ h
    unfolding co_await
    returns = r.at ∙ ap (λ (f : Frame). f.continuation) (update_self behind m.next_handle task)

    held : result (m2.frame m.next_handle).outcome ≡ eval child
    held = ap (λ (f : Frame). result f.outcome) r.done

    goes_on : ends.frame h ≡ record (m.frame h) { code = runs (k (eval child)) }
    unfolding await_resume
    goes_on =
        update_self released h going_on
        ∙ ap (λ (f : Frame). record f { code = runs (k (result (m2.frame m.next_handle).outcome)) })
            stands_by
        ∙ ap (λ x. record (m.frame h) { code = runs (k x) }) held

    pub wakes : step m2 ≡ ends
    unfolding move
    wakes =
        step-move m2 h (waits m.next_handle k) returns a.real (ap (λ (f : Frame). f.code) stands_by)

    pub rest-At : At (k (eval child)) h ends
    unfolding await_resume co_await
    rest-At = record {
      current = returns;
      code = ap (λ (f : Frame). f.code) goes_on;
      real = a.real;
      known = omega (arith, a.known, r.grows);
      idle = r.idle;
    }

    untouched : (g : ℕ) → g ≢ h → g ≢ m.next_handle → ends.frame g ≡ m2.frame g
    unfolding await_resume
    untouched g ne_h ne_child =
        update_ne released going_on (λ e. ne_h (sym e))
        ∙ update_ne m2.frame (record (m2.frame m.next_handle) { code = gone })
            (λ e. ne_child (sym e))

    -- The frame of the task is destroyed, and so are those that the task and the rest have made.
    destroyed :
        (g : ℕ) (n : Machine)
        → Ran (k (eval child)) h ends n
        → g ≡ m.next_handle
        → (n.frame g).code ≡ gone
    unfolding await_resume co_await
    destroyed g n s e =
        let kept = s.others g (omega (arith, e, r.grows)) (λ x. new (sym e ∙ x)) in
        let at_end : ends.frame m.next_handle ≡ record (m2.frame m.next_handle) { code = gone } =
          update_ne released going_on (λ x. new (sym x))
          ∙ update_self m2.frame m.next_handle (record (m2.frame m.next_handle) { code = gone }) in
        ap (λ (f : Frame). f.code) (kept ∙ ap ends.frame e ∙ at_end)

    newer :
        (g : ℕ) (n : Machine)
        → Ran (k (eval child)) h ends n
        → m.next_handle ≢ g
        → m.next_handle ≤ g
        → g < n.next_handle
        → (n.frame g).code ≡ gone
    unfolding await_resume co_await
    newer g n s differs low high =
        let apart : g ≢ h = λ e. absurd (omega (arith, e, low, a.known)) in
        elim (lt_or_le g m2.next_handle) [
          | inl inner ↦
              ap (λ (f : Frame). f.code)
                (s.others g inner apart ∙ untouched g apart (λ e. differs (sym e)))
              ∙ r.freed g (omega (arith, low, differs)) inner
          | inr outer ↦ s.freed g outer high
        ]

    pub await-Ran : (n : Machine) → Ran (k (eval child)) h ends n → Ran (awaits child k) h m n
    unfolding await_resume co_await
    await-Ran n s = record {
      at = s.at ∙ ap (λ (f : Frame). f.continuation) goes_on;
      idle = s.idle;
      done =
          s.done
          ∙ ap (λ (f : Frame). record f { code = finished; outcome = some (eval (k (eval child))) })
              goes_on;
      grows = omega (arith, r.grows, s.grows);
      others = λ g small differs.
          s.others g (omega (arith, small, r.grows)) differs
          ∙ untouched g differs (λ e. older small (sym e))
          ∙ r.others g (omega (arith, small)) (λ e. older small (sym e))
          ∙ update_ne behind task (older small)
          ∙ update_ne m.frame standing (λ e. differs (sym e));
      freed = λ g low high. elim (eq_or_ne m.next_handle g) [
        | inl e ↦ destroyed g n s (sym e)
        | inr differs ↦ newer g n s differs low high
      ];
    }
