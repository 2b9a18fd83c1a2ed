-- ===== src/Event/Safety.antt =====
-- What holds of the event of src/comp/event.cpp in every interleaving.
use tiny_coro_lab.Prelude.{
  ℕ, ◌≡◌, refl, sym, ◌∙◌, ◌≢◌, subst, ap, Bool, true, false, List, [], Option, none, some, arith,
  count, eqb_refl, ◌⊎◌, inl, inr,
}
use tiny_coro_lab.Contexts.{Contexts}
use tiny_coro_lab.Waiters.{Chain-ne_zero}
use tiny_coro_lab.Event.{
  Mem, Pc, Choice, idle, linked, parked, returned, walking, waiting, walks, System, act, exec,
  Reach,
}
use tiny_coro_lab.Event.Invariant.{is_walker, given, Word, Remaining, Walk, Own, Inv}
use tiny_coro_lab.Event.Kept.{IsGood}
use tiny_coro_lab.Event.Preserved.{Reach-IsGood}

same_walker : (w : Option ℕ) (i j : ℕ) → is_walker w i ≡ true → is_walker w j ≡ true → i ≡ j
same_walker none i j h k = cc
same_walker (some w) i j h k = ground arith

module _ {V : Type 0} where
  walking-at :
      (next : ℕ → ℕ) (p : Pc V) (ys : List ℕ)
      → walks p ≡ true
      → ys ≢ []
      → Remaining next p ys
      → (q : ℕ) × (p ≡ walking q) × (q ≢ 0)
  walking-at next idle ys h n r = absurd (ground arith)
  walking-at next (walking q) ys h n r = (q, refl, Chain-ne_zero next q ys n r)
  walking-at next _ ys h n r = absurd (ground arith)

  owed :
      {ev : ℕ} {b : Bool} {state : ℕ} {value : Option V} {next : ℕ → ℕ} {pc : ℕ → Pc V}
      {xs ys : List ℕ} (w : Option ℕ) (i : ℕ)
      → Inv ev b true state value next pc w xs ys
      → pc i ≡ parked
      → (j : ℕ) × (q : ℕ) × (pc j ≡ walking q) × (q ≢ 0)
  owed {next = next} {pc = pc} {ys = ys} w i inv e = go w inv.walkers inv.walk
    where
      some_left : ys ≢ []
      some_left n =
          omega (arith, inv.members i, ap waiting e, ap (count i) inv.word.1, ap (count i) n)

      go :
          (w : Option ℕ)
          → ((j : ℕ) → walks (pc j) ≡ is_walker w j)
          → Walk next pc w ys
          → (j : ℕ) × (q : ℕ) × (pc j ≡ walking q) × (q ≢ 0)
      go none walkers walk = absurd (some_left walk)
      go (some j) walkers walk =
          let (q, at, pos) = walking-at next (pc j) ys (walkers j ∙ eqb_refl j) some_left walk in
          (j, q, at, pos)

act-stays :
    (C : Contexts) {V : Type 0} {ev : ℕ} (b : Bool) (c : Choice V) (x : Bool) (i : ℕ) (p : Pc V)
    (m : Mem V C.World)
    → m.state ≡ ev
    → Own ev b x m.value m.next i p
    → (act C ev c i p m).0.state ≡ ev
unfolding act
act-stays C b c x i idle m e o = ground arith
act-stays C b c x i (linked old) m e o = ground arith
act-stays C b c x i _ m e o = ground arith

module _ (C : Contexts) {V : Type 0} {ev : ℕ} {b : Bool} {w : C.World} {s : System V C.World}
    (pos : ev ≢ 0) (r : Reach C ev b w s) where
  -- No wakeup is lost: while a coroutine is suspended, either the event is not set, or some coroutine
  -- is in `resume_all_awaiters` with awaiters still before it.
  pub wakeup_owed :
      (i : ℕ)
      → s.pc i ≡ parked
      → (s.mem.state ≢ ev) ⊎ ((j : ℕ) × (q : ℕ) × (s.pc j ≡ walking q) × (q ≢ 0))
  wakeup_owed i e = let g = Reach-IsGood C ev pos r in go g g.is_set refl
    where
      go :
          (g : IsGood ev b s) (x : Bool)
          → g.is_set ≡ x
          → (s.mem.state ≢ ev) ⊎ ((j : ℕ) × (q : ℕ) × (s.pc j ≡ walking q) × (q ≢ 0))
      go g true d = inr (
          owed g.walker i
            (subst (λ x. Inv ev b x s.mem.state s.mem.value s.mem.next s.pc g.walker g.hung g.left)
              d g.inv)
            e)
      go g false d =
          inl (subst (λ x. Word ev x s.mem.next s.mem.state g.walker g.hung g.left) d g.inv.word).0

  -- A wait never ends before the event is set, and if the event was made unset, the wait's result is
  -- a value that `set` has stored.
  pub result_after_set :
      (i : ℕ) (x : Option V)
      → s.pc i ≡ returned x
      → (s.mem.state ≡ ev) × (b ≡ false → given x ≡ true)
  result_after_set i x e =
      let g = Reach-IsGood C ev pos r in
      let own = subst (Own ev b g.is_set s.mem.value s.mem.next i) e (g.inv.own i) in
      (
        (subst (λ z. Word ev z s.mem.next s.mem.state g.walker g.hung g.left) own.0 g.inv.word).0,
        own.1,
      )

  -- However many call `set`, at most one of them walks the list, so no coroutine is woken twice.
  pub one_waker : (i j : ℕ) → walks (s.pc i) ≡ true → walks (s.pc j) ≡ true → i ≡ j
  one_waker i j h k =
      let g = Reach-IsGood C ev pos r in
      same_walker g.walker i j (sym (g.inv.walkers i) ∙ h) (sym (g.inv.walkers j) ∙ k)

  -- A set event stays set, whoever makes the next step.
  pub stays_set : (i : ℕ) (c : Choice V) → s.mem.state ≡ ev → (exec C ev s i c).mem.state ≡ ev
  unfolding exec
  stays_set i c e =
      let g = Reach-IsGood C ev pos r in act-stays C b c g.is_set i (s.pc i) s.mem e (g.inv.own i)
