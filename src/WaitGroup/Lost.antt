-- ===== src/WaitGroup/Lost.antt =====
-- The wakeup that src/comp/wait_group.cpp loses: between the load of the counter and the
-- compare-exchange of a coroutine that waits, the last `done` finds the word empty.
use tiny_coro_lab.Prelude.{
  ℕ, suc, ◌<◌, ◌≡◌, refl, ◌∙◌, ap, Bool, true, false, arith, update, ◌==◌, inl, inr, Bool-cases,
}
use tiny_coro_lab.Contexts.{Contexts}
use tiny_coro_lab.WaitGroup.{
  Mem, Pc, Call, Choice, wait, add, done, idle, checking, linked, parked, draining, walking, wake,
  System, act, exec, init,
}
use tiny_coro_lab.WaitGroup.Moves.{at-update}

abbrev pub in_done : Pc → Bool
in_done draining = true
in_done (walking _) = true
in_done _ = false

abbrev pub is_wait : Call → Bool
is_wait (wait c h) = true
is_wait _ = false

-- What is reached without new calls of `add` and `done`.
pub data Still (C : Contexts) (s : System C.World) : System C.World → Type 0 where
  here : Still C s s
  on :
      {t : System C.World} (i : ℕ) (c : Choice)
      → is_wait c.call ≡ true
      → Still C s t
      → Still C s (exec C t i c)

record Stranded {W : Type 0} (i : ℕ) (s : System W) : Type 0 where
  suspended : s.pc i ≡ parked
  zero_count : s.mem.count ≡ 0
  nobody : (j : ℕ) → in_done (s.pc j) ≡ false

module _ (C : Contexts) (c : Choice) (quiet : is_wait c.call ≡ true) (i : ℕ) (m : Mem C.World) where
  begin-quiet :
      (x : Call)
      → c.call ≡ x
      → ((act C c i idle m).0.count ≡ m.count) × (in_done (act C c i idle m).1 ≡ false)
  unfolding act
  begin-quiet (wait d h) e = rw e (refl, refl)
  begin-quiet (add n) e = absurd (cc (ap is_wait e, quiet))
  begin-quiet done e = absurd (cc (ap is_wait e, quiet))

  push-quiet :
      (old : ℕ) (x : Bool)
      → c.spurious ≡ x
      → ((act C c i (linked old) m).0.count ≡ m.count)
        × (in_done (act C c i (linked old) m).1 ≡ false)
  unfolding act
  push-quiet old true d = rw d (refl, refl)
  push-quiet old false d = elim (Bool-cases (m.state == old)) [
    | inl same ↦ rw (d, same) (refl, refl)
    | inr other ↦ rw (d, other) (refl, refl)
  ]

  act-quiet :
      (p : Pc)
      → in_done p ≡ false
      → ((act C c i p m).0.count ≡ m.count) × (in_done (act C c i p m).1 ≡ false)
  unfolding act
  act-quiet idle n = begin-quiet c.call refl
  act-quiet checking n = elim (Bool-cases (m.count == 0)) [
    | inl none ↦ rw none (refl, refl)
    | inr some ↦ rw some (refl, refl)
  ]
  act-quiet (linked old) n = push-quiet old c.spurious refl
  act-quiet draining n = absurd (ground arith)
  act-quiet (walking q) n = absurd (ground arith)
  act-quiet _ n = (refl, refl)

wake-quiet : (p : Pc) (pc : ℕ → Pc) → in_done p ≡ false → wake p pc ≡ pc
wake-quiet (walking q) pc n = absurd (ground arith)
wake-quiet idle pc n = refl
wake-quiet _ pc n = refl

act-parked :
    (C : Contexts) (c : Choice) (i : ℕ) (p : Pc) (m : Mem C.World)
    → p ≡ parked
    → (act C c i p m).1 ≡ parked
unfolding act
act-parked C c i p m e = rw e refl

Stranded-exec :
    (C : Contexts) (s : System C.World) (i j : ℕ) (c : Choice)
    → is_wait c.call ≡ true
    → Stranded i s
    → Stranded i (exec C s j c)
unfolding exec
Stranded-exec C s i j c quiet t =
    let q = act-quiet C c quiet j s.mem (s.pc j) (t.nobody j) in
    rw (wake-quiet (s.pc j) (update s.pc j (act C c j (s.pc j) s.mem).1) (t.nobody j)) (record {
      suspended =
          at-update (λ k p. s.pc k ≡ parked → p ≡ parked) s.pc j (act C c j (s.pc j) s.mem).1
            (act-parked C c j (s.pc j) s.mem) (λ k _ e. e) i t.suspended;
      zero_count = q.0 ∙ t.zero_count;
      nobody =
          at-update (λ _ p. in_done p ≡ false) s.pc j (act C c j (s.pc j) s.mem).1 q.1
            λ k _. t.nobody k;
    })

Still-Stranded :
    (C : Contexts) (i : ℕ) {s t : System C.World} → Stranded i s → Still C s t → Stranded i t
Still-Stranded C i h here = h
Still-Stranded C i h (on {t} j c quiet r) = Stranded-exec C t i j c quiet (Still-Stranded C i h r)

abbrev pub is_idle : Pc → Bool
is_idle idle = true
is_idle _ = false

abbrev pub is_done : Call → Bool
is_done done = true
is_done _ = false

-- What an interleaving of so many calls of `wait` and of `done`, and of no other, reaches from
-- `wait_group(1)`. A coroutine that is idle makes a call; another goes on with its own.
pub data Calls (C : Contexts) (w : C.World) : (waits dones : ℕ) → System C.World → Type 0 where
  none_yet : Calls C w 0 0 (init C 1 w)
  calls_wait :
      {a b : ℕ} {s : System C.World} (i : ℕ) (c : Choice)
      → 1 < i
      → is_idle (s.pc i) ≡ true
      → is_wait c.call ≡ true
      → Calls C w a b s
      → Calls C w (suc a) b (exec C s i c)
  calls_done :
      {a b : ℕ} {s : System C.World} (i : ℕ) (c : Choice)
      → 1 < i
      → is_idle (s.pc i) ≡ true
      → is_done c.call ≡ true
      → Calls C w a b s
      → Calls C w a (suc b) (exec C s i c)
  continues :
      {a b : ℕ} {s : System C.World} (i : ℕ) (c : Choice)
      → is_idle (s.pc i) ≡ false
      → Calls C w a b s
      → Calls C w a b (exec C s i c)

abbrev waits : Choice
waits = record { call = wait 0 70; spurious = false }

abbrev dones : Choice
dones = record { call = done; spurious = false }

module _ (C : Contexts) (w : C.World) where
  -- Coroutine 2 has loaded the counter and the word, coroutine 3 has run `done`, and coroutine 2 has
  -- made its compare-exchange.
  abbrev registers : System C.World
  registers = exec C (exec C (exec C (init C 1 w) 2 waits) 2 waits) 2 waits

  abbrev drained : System C.World
  drained = exec C (exec C (exec C registers 3 dones) 3 dones) 3 dones

  late_registration : Calls C w 1 1 (exec C drained 2 waits)
  unfolding exec init act
  late_registration = continues 2 waits refl (
      continues 3 dones refl (
        continues 3 dones refl (
          calls_done 3 dones (omega arith) refl refl (
            continues 2 waits refl
              (continues 2 waits refl (calls_wait 2 waits (omega arith) refl refl none_yet))))))

-- A wakeup can be lost. From `wait_group(1)`, whatever the contexts are, an interleaving of one
-- `wait` and one `done`, and of no other call, reaches a state in which the counter is zero and the
-- coroutine is suspended, while `done` is over; it stays suspended however the run goes on without
-- further calls of `add` and `done`.
pub lost_wakeup :
    (C : Contexts) (w : C.World)
    → (s : System C.World) × Calls C w 1 1 s
      × (s.mem.count ≡ 0)
      × ((j : ℕ) → in_done (s.pc j) ≡ false)
      × ((t : System C.World) → Still C s t → t.pc 2 ≡ parked)
unfolding exec init act
lost_wakeup C w =
    let s = exec C (drained C w) 2 waits in
    let stuck : Stranded 2 s = record {
      suspended = refl;
      zero_count = refl;
      nobody = λ j. ground arith;
    } in
    (s, late_registration C w, refl, stuck.nobody, λ t r. (Still-Stranded C 2 stuck r).suspended)
