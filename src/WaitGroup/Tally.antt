-- ===== src/WaitGroup/Tally.antt =====
-- A wait group that counts down: nobody calls `add`, and `k` calls of `done` have been made.
use tiny_coro_lab.Prelude.{
  ℕ, ◌+◌, ◌-◌, ◌%◌, ◌≡◌, refl, ◌<◌, ◌≤◌, ap, Bool, true, false, arith, update, ◌==◌, inl, inr,
  Bool-cases,
}
use tiny_coro_lab.Contexts.{Contexts}
use tiny_coro_lab.WaitGroup.{
  count_mod, Mem, Pc, Call, Choice, wait, add, done, idle, checking, linked, resuming, draining,
  walking, wake, System, act, exec, init,
}
use tiny_coro_lab.WaitGroup.Moves.{at-update}

-- How many calls of `done` a step begins, and whether it is no call of `add`.
abbrev pub finishes : Pc → Call → ℕ
finishes idle done = 1
finishes _ _ = 0

abbrev pub no_add : Pc → Call → Bool
no_add idle (add n) = false
no_add _ _ = true

module _ (C : Contexts) where
  open C use {World}

  -- The runs from `wait_group(n)` without `add`, and the calls of `done` in them.
  pub data Countdown (n : ℕ) (w : World) : ℕ → System World → Type 0 where
    start : Countdown n w 0 (init C n w)
    later :
        {k : ℕ} {s : System World} (i : ℕ) (c : Choice)
        → no_add (s.pc i) c.call ≡ true
        → Countdown n w k s
        → Countdown n w (k + finishes (s.pc i) c.call) (exec C s i c)

-- A coroutine at such a place goes on, or lets others go on.
abbrev pub goes_on : Pc → Bool
goes_on resuming = true
goes_on draining = true
goes_on (walking _) = true
goes_on _ = false

record Tally {W : Type 0} (n k : ℕ) (s : System W) : Type 0 where
  counted : s.mem.count + k ≡ n
  late : (i : ℕ) → goes_on (s.pc i) ≡ true → k ≡ n

module _ (C : Contexts) (c : Choice) (i : ℕ) (m : Mem C.World) (n k : ℕ) (small : n < count_mod)
    (counted : m.count + k ≡ n) where
  Tallied : Pc → Type 0
  Tallied p =
      ((act C c i p m).0.count + (k + finishes p c.call) ≡ n)
      × (goes_on (act C c i p m).1 ≡ true → k + finishes p c.call ≡ n)

  down : 0 < m.count → (m.count + count_mod - 1) % count_mod + (k + 1) ≡ n
  down pos = omega arith

  begin-Tallied :
      (x : Call) → c.call ≡ x → no_add idle x ≡ true → k + finishes idle x ≤ n → Tallied idle
  unfolding act Tallied
  begin-Tallied (wait d h) e quiet le = rw e (omega arith, λ h. ground arith)
  begin-Tallied (add a) e quiet le = absurd (ground arith)
  begin-Tallied done e quiet le = elim (Bool-cases (m.count == 1)) [
    | inl last ↦ rw (e, last) (down (omega arith), λ _. ground arith)
    | inr more ↦ rw (e, more) (down (omega arith), λ h. ground arith)
  ]

  check-Tallied : Tallied checking
  unfolding act Tallied
  check-Tallied = elim (Bool-cases (m.count == 0)) [
    | inl none ↦ rw none (omega arith, λ _. ground arith)
    | inr some ↦ rw some (omega arith, λ h. ground arith)
  ]

  push-Tallied : (old : ℕ) (x : Bool) → c.spurious ≡ x → Tallied (linked old)
  unfolding act Tallied
  push-Tallied old true d = rw d (omega arith, λ h. ground arith)
  push-Tallied old false d = elim (Bool-cases (m.state == old)) [
    | inl same ↦ rw (d, same) (omega arith, λ h. ground arith)
    | inr other ↦ rw (d, other) (omega arith, λ h. ground arith)
  ]

  walk-Tallied : (q : ℕ) → k ≡ n → Tallied (walking q)
  unfolding act Tallied
  walk-Tallied q now = elim (Bool-cases (q == 0)) [
    | inl end ↦ rw end (omega arith, λ _. omega arith)
    | inr more ↦ rw more (omega arith, λ _. omega arith)
  ]

  act-Tallied :
      (p : Pc)
      → no_add p c.call ≡ true
      → k + finishes p c.call ≤ n
      → (goes_on p ≡ true → k ≡ n)
      → Tallied p
  unfolding act Tallied
  act-Tallied idle quiet le late = begin-Tallied c.call refl quiet le
  act-Tallied checking quiet le late = check-Tallied
  act-Tallied (linked old) quiet le late = push-Tallied old c.spurious refl
  act-Tallied resuming quiet le late = (omega arith, λ h. omega (arith, late refl))
  act-Tallied draining quiet le late = (omega arith, λ h. omega (arith, late refl))
  act-Tallied (walking q) quiet le late = walk-Tallied q (late refl)
  act-Tallied _ quiet le late = (omega arith, λ h. ground arith)

wake-late :
    (p : Pc) (pc : ℕ → Pc) (j k n : ℕ)
    → (goes_on p ≡ true → k ≡ n)
    → (goes_on (pc j) ≡ true → k ≡ n)
    → goes_on (wake p pc j) ≡ true
    → k ≡ n
wake-late (walking q) pc j k n a b h = a refl
wake-late idle pc j k n a b h = b h
wake-late _ pc j k n a b h = b h

module _ (C : Contexts) {n : ℕ} {w : C.World} (small : n < count_mod) where
  Countdown-Tally : {k : ℕ} {s : System C.World} → Countdown C n w k s → k ≤ n → Tally n k s
  unfolding init exec Tallied
  Countdown-Tally start le = record { counted = omega arith; late = λ i h. ground arith }
  Countdown-Tally (later {k} {s} i c quiet r) le =
      let before = Countdown-Tally r (omega arith) in
      let now =
        act-Tallied C c i s.mem n k small before.counted (s.pc i) quiet le (before.late i) in
      let still : k ≡ n → k + finishes (s.pc i) c.call ≡ n = λ e. omega arith in
      record {
        counted = now.0;
        late = λ j h.
            wake-late (s.pc i) (update s.pc i (act C c i (s.pc i) s.mem).1) j _ n
              (λ g. still (before.late i g))
              (at-update (λ _ p. goes_on p ≡ true → k + finishes (s.pc i) c.call ≡ n) s.pc i
                (act C c i (s.pc i) s.mem).1 now.1 (λ x _ g. still (before.late x g)) j)
              h;
      }

  -- In a wait group made for fewer than 2 ^ 32, without calls of `add` and with no more calls of
  -- `done` than it was made for, the counter is what those calls have left, and no coroutine comes
  -- out of its wait before the last of them.
  pub waits_for_all :
      {k : ℕ} {s : System C.World}
      → Countdown C n w k s
      → k ≤ n
      → (s.mem.count ≡ n - k) × ((i : ℕ) → s.pc i ≡ resuming → s.mem.count ≡ 0)
  waits_for_all r le =
      let t = Countdown-Tally r le in
      (omega (arith, t.counted), λ i e. omega (arith, t.counted, t.late i (ap goes_on e)))
