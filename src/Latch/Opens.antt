-- ===== src/Latch/Opens.antt =====
-- The latch of include/coro/comp/latch.hpp opens at the last `count_down`.
use tiny_coro_lab.Prelude.{
  ℕ, ◌+◌, ◌-◌, ◌%◌, ◌≡◌, refl, sym, ◌∙◌, ◌≢◌, ◌<◌, ◌≤◌, ap, Bool, true, false, arith, ◌==◌, inl,
  inr, Bool-cases, Option,
}
use tiny_coro_lab.Contexts.{Contexts}
use tiny_coro_lab.Event
use tiny_coro_lab.Event.{Pc, idle, parked, returned, setting, walking, walks}
use tiny_coro_lab.Event.Opening.{
  Opening, Opening-kept, Opening-from, set-Opening, init-Opening, no_set,
}
use tiny_coro_lab.Event.Safety.{wakeup_owed, result_after_set}
use tiny_coro_lab.Latch.{
  word_mod, sign_bit, at_most_one, System, Call, wait, count_down, Choice, event_call, event_choice,
  counts, count_down_step, step, exec, init, Reach, start, later,
}

-- The word that `k` calls leave of `n`.
abbrev remains : ℕ → ℕ → ℕ
remains n k = (n + word_mod - k) % word_mod

remains-last :
    (n k : ℕ) → n < sign_bit → k < n + sign_bit → at_most_one (remains n k) ≡ true → n ≤ k + 1
remains-last n k small le h = ground arith

remains-more :
    (n k : ℕ) → n < sign_bit → k < n + sign_bit → at_most_one (remains n k) ≡ false → k + 1 < n
remains-more n k small le h = ground arith

remains-next :
    (n k : ℕ)
    → n < sign_bit
    → k < n + sign_bit
    → (remains n k + word_mod - 1) % word_mod ≡ remains n (k + 1)
remains-next n k small le = omega arith

module _ (C : Contexts) (ev : ℕ) (i : ℕ) (c : Choice) (s : System C.World) where
  step-event :
      (b : Bool) (w : C.World) (p : Pc (Unit {0})) (x : Call)
      → 1 < i
      → i ≢ ev
      → Event.Reach C ev b w s.event
      → Event.Reach C ev b w (step C ev p x s i c).event
  unfolding step count_down_step
  step-event b w idle count_down big ne r = elim (Bool-cases (at_most_one s.count)) [
    | inl last ↦ rw last (Event.later i (event_choice c) big ne r)
    | inr more ↦ rw more r
  ]
  step-event b w idle (wait d h) big ne r = Event.later i (event_choice c) big ne r
  step-event b w _ x big ne r = Event.later i (event_choice c) big ne r

  step-count :
      (n k : ℕ) (p : Pc (Unit {0})) (x : Call)
      → n < sign_bit
      → k + counts p x ≤ n + sign_bit
      → s.count ≡ remains n k
      → (step C ev p x s i c).count ≡ remains n (k + counts p x)
  unfolding step count_down_step
  step-count n k idle count_down small le e = rw e (remains-next n k small (omega arith))
  step-count n k idle (wait d h) small le e = omega (arith, e)
  step-count n k _ x small le e = omega (arith, e)

  Opens : ℕ → ℕ → Event.System (Unit {0}) C.World → Type 0
  Opens n k e = (Opening ev e → n ≤ k) × (n ≤ k → Opening ev e)

  module _ {b : Bool} {w : C.World} (pos : ev ≢ 0) (ne : i ≢ ev)
      (r : Event.Reach C ev b w s.event) where
    kept :
        (n k : ℕ)
        → no_set (s.event.pc i) (event_call c.call) ≡ true
        → Opens n k s.event
        → Opens n (k + 0) (Event.exec C ev s.event i (event_choice c))
    unfolding Opens
    kept n k quiet o = (
      λ h. omega (arith, o.0 (Opening-from C pos r i (event_choice c) ne quiet h)),
      λ le. Opening-kept C pos r i (event_choice c) (o.1 (omega arith)),
    )

    step-Opens :
        (n k : ℕ) (p : Pc (Unit {0})) (x : Call)
        → s.event.pc i ≡ p
        → c.call ≡ x
        → n < sign_bit
        → k + counts p x ≤ n + sign_bit
        → s.count ≡ remains n k
        → Opens n k s.event
        → Opens n (k + counts p x) (step C ev p x s i c).event
    unfolding step count_down_step Opens
    step-Opens n k idle count_down e d small le counted o =
        elim (Bool-cases (at_most_one s.count)) [
          | inl last ↦ rw last (
            λ _. remains-last n k small (omega arith) (ap at_most_one (sym counted) ∙ last),
            λ _. set-Opening C ev s.event i (event_choice c) tt e (ap event_call d),
          )
          | inr more ↦
              let left =
                remains-more n k small (omega arith) (ap at_most_one (sym counted) ∙ more) in
              rw more (λ h. omega (arith, o.0 h), λ h. absurd (omega (arith, left)))
        ]
    step-Opens n k idle (wait d h) e q small le counted o = kept n k (rw (e, q) refl) o
    step-Opens n k _ x e q small le counted o = kept n k (rw e refl) o

module _ (C : Contexts) {ev n : ℕ} {w : C.World} where
  -- The event of a latch is an event: what a latch does to it is what coroutines do that call `wait`
  -- and `set`, so that every theorem about reachable events holds of it.
  pub Reach-event :
      {k : ℕ} {s : System C.World} → Reach C ev n w k s → Event.Reach C ev (n == 0) w s.event
  unfolding init exec
  Reach-event start = Event.start
  Reach-event (later {k} {s} i c big ne r) =
      step-event C ev i c s (n == 0) w (s.event.pc i) c.call big ne (Reach-event r)

  Reach-count :
      {k : ℕ} {s : System C.World}
      → n < sign_bit
      → k ≤ n + sign_bit
      → Reach C ev n w k s
      → s.count ≡ remains n k
  unfolding init exec
  Reach-count small le start = omega arith
  Reach-count small le (later {k} {s} i c big ne r) =
      step-count C ev i c s n k (s.event.pc i) c.call small le (Reach-count small (omega arith) r)

  -- A latch made for `n` opens at the `n`th `count_down`: its event is set, or a coroutine is about to
  -- set it, exactly when at least `n` calls have made their subtraction. The counter is a signed word:
  -- `n` is below 2 ^ 63, and at most 2 ^ 63 calls more are made.
  pub opens_at_last :
      {k : ℕ} {s : System C.World}
      → ev ≢ 0
      → n < sign_bit
      → k ≤ n + sign_bit
      → Reach C ev n w k s
      → (Opening ev s.event → n ≤ k) × (n ≤ k → Opening ev s.event)
  unfolding init exec Opens
  opens_at_last pos small le start =
      let o = init-Opening C {V = Unit {0}} ev (n == 0) w pos in
      (λ h. let z = o.0 h in ground arith, λ z. o.1 (ground arith))
  opens_at_last pos small le (later {k} {s} i c big ne r) =
      step-Opens C ev i c s pos ne (Reach-event r) n k (s.event.pc i) c.call refl refl small le
        (Reach-count small (omega arith) r) (opens_at_last pos small (omega arith) r)

  -- No coroutine comes out of `wait` before `n` calls of `count_down`.
  pub none_early :
      {k : ℕ} {s : System C.World}
      → ev ≢ 0
      → n < sign_bit
      → k ≤ n + sign_bit
      → Reach C ev n w k s
      → (i : ℕ) (x : Option (Unit {0})) → s.event.pc i ≡ returned x
      → n ≤ k
  none_early pos small le r i x e =
      (opens_at_last pos small le r).0 (inl (result_after_set C pos (Reach-event r) i x e).0)

  -- No coroutine is forgotten: after `n` calls of `count_down`, when no coroutine is within `set` any
  -- more, no coroutine is suspended.
  pub none_forgotten :
      {k : ℕ} {s : System C.World}
      → ev ≢ 0
      → n < sign_bit
      → k ≤ n + sign_bit
      → Reach C ev n w k s
      → n ≤ k
      → ((j : ℕ) → (s.event.pc j ≢ setting) × (walks (s.event.pc j) ≡ false))
      → (i : ℕ) → s.event.pc i ≢ parked
  none_forgotten pos small le r enough settled i e = elim (wakeup_owed C pos (Reach-event r) i e) [
    | inl shut ↦ elim ((opens_at_last pos small le r).1 enough) [
      | inl open_now ↦ shut open_now
      | inr x ↦ (settled x.0).0 x.1
    ]
    | inr x ↦ cc ((settled x.0).1, ap walks x.2)
  ]
