-- ===== src/Task/Owned.antt =====
-- The frames of include/coro/task.hpp are destroyed once, and never lost.
use tiny_coro_lab.Prelude.{
  ℕ, ◌≡◌, refl, sym, ◌∙◌, ◌≢◌, ap, subst, Bool, true, false, if◌then◌else◌, arith, none, some,
  update, update_self, ◌==◌, eq_or_ne, eqb_refl, eqb_ne, inl, inr, ◌||◌, Bool-cases, ◌⊎◌,
}
use mathlib.Core.Bool.{false≢true}
use mathlib.Core.Option.{none-ne-some}
use tiny_coro_lab.Task.{
  Life, absent, none_state, suspended, finished, destroyed, alive, CoroState, normal, detached,
  Frames, Op, creates, moves, assigns, drops, destroys, detaches, awaits, finishes, cleans,
  destroy_frame, create, move, drop, assign, detach, await_suspend, final_suspend, clean, step,
  Allowed, Reach, start, later,
}

pub record Inv (m : Frames) : Type 0 where
  pub held :
      (t : ℕ) → m.task t ≢ 0 → (alive (m.life (m.task t)) ≡ true) × (m.state (m.task t) ≡ normal)
  pub sole : (t u : ℕ) → m.task t ≢ 0 → m.task t ≡ m.task u → t ≡ u

module _ (m : Frames) (inv : Inv m) where
  -- A frame that is not alive is held by no task, and neither is a detached one.
  not-held : (u h : ℕ) → h ≢ 0 → alive (m.life h) ≡ false → m.task u ≢ h
  not-held u h n dead e =
      cc (dead, (inv.held u (λ z. n (sym e ∙ z))).0, ap (λ k. alive (m.life k)) e)

  create-Inv : (t h : ℕ) → Allowed (creates t h) m → Inv (create t h m)
  unfolding create
  create-Inv t h ok =
      let dead : alive (m.life h) ≡ false = ap alive ok.2 in
      record {
        held = λ u n. ground (arith, inv.held u, not-held u h ok.1 dead);
        sole =
            λ u v n e. ground (arith, inv.sole u v, not-held u h ok.1 dead, not-held v h ok.1 dead);
      }

  move-Inv : (s t : ℕ) → s ≢ t → m.task t ≡ 0 → Inv (move s t m)
  unfolding move
  move-Inv s t ne free = record {
    held = λ u n. ground (arith, inv.held s, inv.held u);
    sole = λ u v n e. ground (arith, inv.sole s u, inv.sole s v, inv.sole u v, inv.sole u s);
  }

  -- A task that gives up its handle.
  forget-Inv : (t : ℕ) → Inv (record m { task = update m.task t 0 })
  forget-Inv t = record {
    held = λ u n. ground (arith, inv.held u);
    sole = λ u v n e. ground (arith, inv.sole u v);
  }

  -- What no task holds may be destroyed or detached.
  destroy-Inv :
      (h : ℕ)
      → ((u : ℕ) → m.task u ≢ 0 → m.task u ≢ h)
      → Inv (record m { life = update m.life h destroyed })
  destroy-Inv h free = record { held = λ u n. ground (arith, inv.held u, free u); sole = inv.sole }

  detach-Inv :
      (h : ℕ)
      → ((u : ℕ) → m.task u ≢ 0 → m.task u ≢ h)
      → Inv (record m { state = update m.state h detached })
  detach-Inv h free = record { held = λ u n. ground (arith, inv.held u, free u); sole = inv.sole }

  finish-Inv : (h : ℕ) → m.life h ≡ suspended → Inv (record m { life = update m.life h finished })
  finish-Inv h e = record { held = λ u n. ground (arith, inv.held u, e); sole = inv.sole }

  alone : (t u : ℕ) → m.task t ≢ 0 → update m.task t 0 u ≢ 0 → update m.task t 0 u ≢ m.task t
  alone t u n k e = ground (arith, inv.sole t u)

drop-Good :
    (m : Frames) (inv : Inv m) (t : ℕ)
    → (m2 : Frames) × (drop t m ≡ some m2) × Inv m2 × (m2.task ≡ update m.task t 0)
unfolding drop destroy_frame
drop-Good m inv t = elim (eq_or_ne (m.task t) 0) [
  | inl none_held ↦
      let test : (m.task t == 0) ≡ true = ground arith in
      rw test (_, refl, forget-Inv m inv t, refl)
  | inr some_held ↦
      let live = (inv.held t some_held).0 in
      rw (eqb_ne some_held, live)
        (
          _,
          refl,
          destroy-Inv (record m { task = update m.task t 0 }) (forget-Inv m inv t) (m.task t)
              (λ u k. alone m inv t u some_held k),
          refl,
        )
]

assign-Good :
    (m : Frames) (inv : Inv m) (s t : ℕ) → (m2 : Frames) × (assign s t m ≡ some m2) × Inv m2
unfolding assign
assign-Good m inv s t = elim (eq_or_ne s t) [
  | inl same ↦ rw (same, eqb_refl t) (m, refl, inv)
  | inr ne ↦
      let (k, dropped, good, tasks) = drop-Good m inv t in
      rw (eqb_ne ne, dropped)
        (_, refl, move-Inv k good s t ne (ap (λ f. f t) tasks ∙ update_self m.task t 0))
]

-- What a step that is undefined would touch: the promise of the null handle, or a frame that is not
-- there, by a continuation or by `clean`.
abbrev pub Dangling : Op → Frames → Type 0
Dangling (creates t h) m = ⊥
Dangling (moves s t) m = ⊥
Dangling (assigns s t) m = ⊥
Dangling (drops t) m = ⊥
Dangling (destroys t) m = ⊥
Dangling (detaches t) m = m.task t ≡ 0
Dangling (awaits t k) m = m.task t ≡ 0
Dangling (finishes h) m = (m.continuation h ≢ 0) × (alive (m.life (m.continuation h)) ≡ false)
Dangling (cleans h) m = alive (m.life h) ≡ false

-- Either the step is undefined, for one of these reasons, or it keeps the invariant.
Steps : Op → Frames → Type 0
Steps o m =
    (Dangling o m × (step o m ≡ none))
    ⊎ ((Dangling o m → ⊥) × (m2 : Frames) × (step o m ≡ some m2) × Inv m2)

keeps :
    (o : Op) (m : Frames)
    → (Dangling o m → ⊥)
    → (m2 : Frames) × (step o m ≡ some m2) × Inv m2
    → Steps o m
unfolding Steps
keeps o m fine (m2, e, good) = inr (fine, m2, e, good)

clean-Steps :
    (m : Frames) (inv : Inv m) (h : ℕ) (c : CoroState) → m.state h ≡ c → Steps (cleans h) m
unfolding Steps step clean destroy_frame
clean-Steps m inv h c d = elim (Bool-cases (alive (m.life h))) [
  | inr dead ↦ inl (dead, rw dead refl)
  | inl live ↦ keeps (cleans h) m (λ dead. false≢true (sym dead ∙ live)) (clean-alive c d live)
]
  where
    clean-alive :
        (c : CoroState)
        → m.state h ≡ c
        → alive (m.life h) ≡ true
        → (m2 : Frames) × (step (cleans h) m ≡ some m2) × Inv m2
    clean-alive normal d live = rw (live, d) (m, refl, inv)
    clean-alive none_state d live = rw (live, d) (m, refl, inv)
    clean-alive detached d live =
        rw (live, d, destroy_frame, live)
          (_, refl, destroy-Inv m inv h (λ u n x. cc ((inv.held u n).1, ap m.state x, d)))

await-Steps :
    (m : Frames) (inv : Inv m) (t k : ℕ) (l : Life)
    → m.task t ≢ 0
    → m.life (m.task t) ≡ l
    → (m2 : Frames) × (step (awaits t k) m ≡ some m2) × Inv m2
unfolding step await_suspend
await-Steps m inv t k suspended n e =
    rw (eqb_ne n, e) (_, refl, record { held = inv.held; sole = inv.sole })
await-Steps m inv t k finished n e = rw (eqb_ne n, e) (m, refl, inv)
await-Steps m inv t k absent n e = absurd (false≢true (sym (ap alive e) ∙ (inv.held t n).0))
await-Steps m inv t k destroyed n e = absurd (false≢true (sym (ap alive e) ∙ (inv.held t n).0))

-- The step follows the test of the continuation.
finish-step :
    (m : Frames) (h : ℕ) (b : Bool)
    → ((m.continuation h == 0) || alive (update m.life h finished (m.continuation h))) ≡ b
    → step (finishes h) m
      ≡ (if b then some (record m { life = update m.life h finished }) else none)
unfolding step final_suspend
finish-step m h true e = rw (step, final_suspend, e) refl
finish-step m h false e = rw (step, final_suspend, e) refl

finish-Steps : (m : Frames) (inv : Inv m) (h : ℕ) → m.life h ≡ suspended → Steps (finishes h) m
unfolding Steps step final_suspend
finish-Steps m inv h e =
    let k = m.continuation h in
    let same : alive (update m.life h finished k) ≡ alive (m.life k) = ground (arith, e) in
    elim (eq_or_ne k 0) [
      | inl nowhere ↦
          let test : ((k == 0) || alive (update m.life h finished k)) ≡ true =
            ap (λ x. (x == 0) || alive (update m.life h finished k)) nowhere in
          keeps (finishes h) m (λ d. d.0 nowhere)
            (_, finish-step m h true test, finish-Inv m inv h e)
      | inr somewhere ↦ elim (Bool-cases (alive (m.life k))) [
        | inl live ↦
            let test : ((k == 0) || alive (update m.life h finished k)) ≡ true =
              ap (λ b. b || alive (update m.life h finished k)) (eqb_ne somewhere) ∙ same ∙ live in
            keeps (finishes h) m (λ d. false≢true (sym d.1 ∙ live))
              (_, finish-step m h true test, finish-Inv m inv h e)
        | inr dead ↦
            let test : ((k == 0) || alive (update m.life h finished k)) ≡ false =
              ap (λ b. b || alive (update m.life h finished k)) (eqb_ne somewhere) ∙ same ∙ dead in
            inl ((somewhere, dead), finish-step m h false test)
      ]
    ]

step-Steps : (m : Frames) (inv : Inv m) (o : Op) → Allowed o m → Steps o m
unfolding Steps step detach
step-Steps m inv (creates t h) ok = inr ((λ d. d), _, refl, create-Inv m inv t h ok)
step-Steps m inv (moves s t) ok = inr ((λ d. d), _, refl, move-Inv m inv s t ok.0 ok.1)
step-Steps m inv (assigns s t) ok = keeps (assigns s t) m (λ d. d) (assign-Good m inv s t)
step-Steps m inv (drops t) ok =
    let (k, e, good, tasks) = drop-Good m inv t in inr ((λ d. d), k, e, good)
step-Steps m inv (destroys t) ok =
    let (k, e, good, tasks) = drop-Good m inv t in inr ((λ d. d), k, e, good)
step-Steps m inv (detaches t) ok = elim (eq_or_ne (m.task t) 0) [
  | inl none_held ↦
      let test : (m.task t == 0) ≡ true = ap (λ x. x == 0) none_held in
      inl (none_held, rw test refl)
  | inr some_held ↦ keeps (detaches t) m some_held (
      rw (eqb_ne some_held) (
        _,
        refl,
        detach-Inv (record m { task = update m.task t 0 }) (forget-Inv m inv t) (m.task t)
            (λ u k. alone m inv t u some_held k),
      ))
]
step-Steps m inv (awaits t k) ok = elim (eq_or_ne (m.task t) 0) [
  | inl none_held ↦
      let test : (m.task t == 0) ≡ true = ap (λ x. x == 0) none_held in
      inl (none_held, rw (await_suspend, test) refl)
  | inr some_held ↦
      keeps (awaits t k) m some_held (await-Steps m inv t k (m.life (m.task t)) some_held refl)
]
step-Steps m inv (finishes h) ok = finish-Steps m inv h ok
step-Steps m inv (cleans h) ok = clean-Steps m inv h (m.state h) refl

same-some : (m k : Frames) → some m ≡ some k → m ≡ k
same-some m k e = ap (λ o. elim o [ none ↦ m | some x ↦ x ]) e

Reach-Inv : {m : Frames} → Reach m → Inv m
unfolding Steps
Reach-Inv start = record { held = λ t n. absurd (n refl); sole = λ t u n e. absurd (n refl) }
Reach-Inv (later {m} {m2} o ok e r) = elim (step-Steps m (Reach-Inv r) o ok) [
  | inl faults ↦ absurd (none-ne-some m2 (sym faults.1 ∙ e))
  | inr (sound, k, d, good) ↦ subst Inv (same-some k m2 (sym d ∙ e)) good
]

-- A task that has a handle is the only one that has it, and the frame is there and not detached.
pub sole_owner :
    {m : Frames}
    → Reach m
    → (t : ℕ) → m.task t ≢ 0
    → (alive (m.life (m.task t)) ≡ true)
      × (m.state (m.task t) ≡ normal)
      × ((u : ℕ) → m.task t ≡ m.task u → t ≡ u)
sole_owner r t n =
    let inv = Reach-Inv r in ((inv.held t n).0, (inv.held t n).1, λ u e. inv.sole t u n e)
