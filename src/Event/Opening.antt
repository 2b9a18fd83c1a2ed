-- ===== src/Event/Opening.antt =====
-- When an event of src/comp/event.cpp is open or about to open: it is set, or a coroutine stands before
-- the exchange that sets it. For the clients of the event.
use tiny_coro_lab.Prelude.{
  ℕ, ◌≡◌, refl, sym, ◌∙◌, ◌≢◌, ◌≤◌, ap, Bool, true, false, List, [], ◌∷◌, arith, count, update,
  update_self, update_ne, ◌==◌, eq_or_ne, eqb_refl, ◌⊎◌, inl, inr,
}
use tiny_coro_lab.Contexts.{Contexts}
use tiny_coro_lab.Waiters.{Chain}
use tiny_coro_lab.Event.{
  Mem, Pc, Call, wait, set, Choice, idle, checking, loading, linked, parked, resuming, setting,
  walking, waiting, System, act, exec, init, wake, Reach,
}
use tiny_coro_lab.Event.Kept.{walker-here}
use tiny_coro_lab.Event.Preserved.{Reach-IsGood}
use tiny_coro_lab.Event.Safety.{stays_set}

is-parked : {V : Type 0} (p : Pc V) → 1 ≤ waiting p → p ≡ parked
is-parked parked e = refl
is-parked _ e = absurd (omega arith)

head-counted : (next : ℕ → ℕ) (p : ℕ) (ys : List ℕ) → p ≢ 0 → Chain next p ys → 1 ≤ count p ys
head-counted next p [] n c = absurd (n c)
head-counted next p (y ∷ ys) n c = ground (arith, eqb_refl p)

-- The loop of `resume_all_awaiters` reads only awaiters whose coroutine is still suspended, so none
-- that is destroyed.
pub walk_reads_suspended :
    (C : Contexts) {V : Type 0} {ev : ℕ} {b : Bool} {w : C.World} {s : System V C.World} (i p : ℕ)
    → ev ≢ 0
    → Reach C ev b w s
    → s.pc i ≡ walking p
    → p ≢ 0
    → s.pc p ≡ parked
walk_reads_suspended C {ev = ev} {s = s} i p pos r e n =
    let g = Reach-IsGood C ev pos r in
    let chain = (walker-here C ev i (record { call = wait 0 0; spurious = false }) g p e).1 in
    is-parked (s.pc p) (omega (arith, g.inv.members p, head-counted s.mem.next p g.left n chain))

module _ {V : Type 0} where
  wake-keep :
      (p : Pc V) (f : ℕ → Pc V) (j : ℕ)
      → ((q : ℕ) → p ≡ walking q → q ≢ 0 → q ≢ j)
      → wake p f j ≡ f j
  wake-keep (walking q) f j other = elim (eq_or_ne q 0) [
    | inl z ↦ rw z refl
    | inr n ↦
        let m : (q == 0) ≡ false = ground arith in
        rw m (update_ne f {i = q} {j = j} resuming (other q refl n))
  ]
  wake-keep idle f j other = refl
  wake-keep _ f j other = refl

  wake-setting : (p : Pc V) (f : ℕ → Pc V) (j : ℕ) → wake p f j ≡ setting → f j ≡ setting
  wake-setting (walking q) f j h = ground arith
  wake-setting idle f j h = h
  wake-setting _ f j h = h

  abbrev pub is_set_call : Call V → Bool
  is_set_call (set _) = true
  is_set_call _ = false

  -- The step does not begin a call of `set`.
  abbrev pub no_set : Pc V → Call V → Bool
  no_set idle (set _) = false
  no_set _ _ = true

  abbrev pub Opening : {W : Type 0} → ℕ → System V W → Type 0
  Opening ev s = (s.mem.state ≡ ev) ⊎ ((i : ℕ) × (s.pc i ≡ setting))

module _ (C : Contexts) {V : Type 0} (ev : ℕ) (c : Choice V) (i : ℕ) (m : Mem V C.World) where
  act-sets : (p : Pc V) → i ≢ ev → (act C ev c i p m).0.state ≡ ev → (m.state ≡ ev) ⊎ (p ≡ setting)
  unfolding act
  act-sets setting ne h = inr refl
  act-sets idle ne h = inl (begin-sets c.call h)
    where
      begin-sets :
          (x : Call V) → (act C ev (record c { call = x }) i idle m).0.state ≡ ev → m.state ≡ ev
      begin-sets (wait d k) h = h
      begin-sets (set v) h = h
  act-sets (checking k) ne h = inl (ground arith)
  act-sets loading ne h = inl (ground arith)
  act-sets (linked old) ne h = inl (push-sets c.spurious h)
    where
      push-sets :
          (x : Bool)
          → (act C ev (record c { spurious = x }) i (linked old) m).0.state ≡ ev
          → m.state ≡ ev
      push-sets true h = h
      push-sets false h = ground arith
  act-sets (walking p) ne h = inl (ground arith)
  act-sets _ ne h = inl h

  act-setting : (p : Pc V) → no_set p c.call ≡ true → (act C ev c i p m).1 ≢ setting
  unfolding act
  act-setting idle quiet h = begin-setting c.call quiet h
    where
      begin-setting :
          (x : Call V)
          → no_set idle x ≡ true
          → (act C ev (record c { call = x }) i idle m).1 ≢ setting
      begin-setting (wait d k) quiet h = ground arith
      begin-setting (set v) quiet h = ground arith
  act-setting (checking k) quiet h = ground arith
  act-setting loading quiet h = ground arith
  act-setting (linked old) quiet h = push-setting c.spurious h
    where
      push-setting :
          (x : Bool) → (act C ev (record c { spurious = x }) i (linked old) m).1 ≢ setting
      push-setting true h = ground arith
      push-setting false h = ground arith
  act-setting setting quiet h = ground arith
  act-setting (walking p) quiet h = ground arith
  act-setting _ quiet h = ground arith

module _ (C : Contexts) {V : Type 0} {ev : ℕ} {b : Bool} {w : C.World} {s : System V C.World}
    (pos : ev ≢ 0) (r : Reach C ev b w s) (i : ℕ) (c : Choice V) where
  -- An event that is open or about to open stays so.
  pub Opening-kept : Opening ev s → Opening ev (exec C ev s i c)
  unfolding exec act
  Opening-kept (inl e) = inl (stays_set C pos r i c e)
  Opening-kept (inr (j, e)) = elim (eq_or_ne i j) [
    | inl same ↦ inl (rw (ap s.pc same ∙ e) refl)
    | inr other ↦ inr (
      j,
      wake-keep (s.pc i) (update s.pc i (act C ev c i (s.pc i) s.mem).1) j
            (λ q at n same. cc (walk_reads_suspended C i q pos r at n, ap s.pc same, e))
          ∙ update_ne s.pc (act C ev c i (s.pc i) s.mem).1 other
          ∙ e,
    )
  ]

  -- Nothing but a call of `set` opens it.
  pub Opening-from :
      i ≢ ev → no_set (s.pc i) c.call ≡ true → Opening ev (exec C ev s i c) → Opening ev s
  unfolding exec
  Opening-from ne quiet (inl h) = elim (act-sets C ev c i s.mem (s.pc i) ne h) [
    | inl e ↦ inl e
    | inr e ↦ inr (i, e)
  ]
  Opening-from ne quiet (inr (j, h)) =
      let before = wake-setting (s.pc i) (update s.pc i (act C ev c i (s.pc i) s.mem).1) j h in
      elim (eq_or_ne i j) [
        | inl same ↦ absurd (
            act-setting C ev c i s.mem (s.pc i) quiet (
              sym (update_self s.pc i (act C ev c i (s.pc i) s.mem).1)
              ∙ ap (update s.pc i (act C ev c i (s.pc i) s.mem).1) same
              ∙ before))
        | inr other ↦ inr (j, sym (update_ne s.pc (act C ev c i (s.pc i) s.mem).1 other) ∙ before)
      ]

-- A call of `set` opens it.
pub set-Opening :
    (C : Contexts) {V : Type 0} (ev : ℕ) (s : System V C.World) (i : ℕ) (c : Choice V) (v : V)
    → s.pc i ≡ idle
    → c.call ≡ set v
    → Opening ev (exec C ev s i c)
unfolding exec act
set-Opening C ev s i c v e d = inr (i, rw (e, d) (update_self s.pc i setting))

-- An event is open from the start exactly when it is made so.
pub init-Opening :
    (C : Contexts) {V : Type 0} (ev : ℕ) (b : Bool) (w : C.World)
    → ev ≢ 0
    → (Opening ev (init C {V = V} ev b w) → b ≡ true)
      × (b ≡ true → Opening ev (init C {V = V} ev b w))
unfolding init
init-Opening C ev true w pos = (λ _. refl, λ _. inl refl)
init-Opening C ev false w pos = (
  λ h. elim h [ inl e ↦ absurd (pos (sym e)) | inr x ↦ absurd (ground arith) ],
  λ e. absurd (ground arith),
)
