-- ===== src/WaitGroup/Safety.antt =====
-- What holds of the wait group of src/comp/wait_group.cpp in every interleaving.
use tiny_coro_lab.Prelude.{
  ℕ, ◌≡◌, refl, sym, ◌∙◌, ◌≢◌, subst, ap, List, [], ◌∷◌, arith, count, eqb_refl, ◌⊎◌, inl, inr,
}
use tiny_coro_lab.Contexts.{Contexts}
use tiny_coro_lab.Waiters.{Chain}
use tiny_coro_lab.WaitGroup.{Pc, idle, parked, walking, waiting, System, Reach}
use tiny_coro_lab.WaitGroup.Invariant.{
  Place, out, hung, taken, on_state, on_left, placed, Remaining,
}
use tiny_coro_lab.WaitGroup.Preserved.{Reach-IsGood}

head-placed :
    (next : ℕ → ℕ) (i p : ℕ) (ys : List ℕ) (q : Place)
    → p ≢ 0
    → Chain next p ys
    → count p ys ≡ on_left i q
    → q ≡ taken i
head-placed next i p [] q n c h = absurd (n c)
head-placed next i p (y ∷ ys) (taken k) n c h = ground (arith, eqb_refl p)
head-placed next i p (y ∷ ys) out n c h = absurd (ground (arith, eqb_refl p))
head-placed next i p (y ∷ ys) hung n c h = absurd (ground (arith, eqb_refl p))

is-parked : (p : Pc) → waiting p ≡ 1 → p ≡ parked
is-parked parked e = refl
is-parked _ e = absurd (omega arith)

on_own : (k : ℕ) → on_left k (taken k) ≡ 1
on_own k = ground (arith, eqb_refl k)

has-left :
    (next : ℕ → ℕ) (p : Pc) (ys : List ℕ)
    → ys ≢ []
    → Remaining next p ys
    → (q : ℕ) × (p ≡ walking q) × Chain next q ys
has-left next idle ys n r = absurd (n r)
has-left next (walking q) ys n r = (q, refl, r)
has-left next _ ys n r = absurd (n r)

module _ (C : Contexts) {n : ℕ} {w : C.World} {s : System C.World} (r : Reach C n w s) where
  ahead : (i p : ℕ) → s.pc i ≡ walking p → p ≢ 0 → (Reach-IsGood C r).place p ≡ taken i
  ahead i p e pos =
      let g = Reach-IsGood C r in
      head-placed s.mem.next i p (g.left i) (g.place p) pos
        (subst (λ q. Remaining s.mem.next q (g.left i)) e (g.inv.remaining i)) (g.inv.at_left i p)

  -- The loop of `done` reads only awaiters whose coroutine is still suspended, so none that is
  -- destroyed.
  pub reads_suspended : (i p : ℕ) → s.pc i ≡ walking p → p ≢ 0 → s.pc p ≡ parked
  reads_suspended i p e pos =
      let g = Reach-IsGood C r in
      is-parked (s.pc p) (g.inv.suspended p ∙ ap placed (ahead i p e pos))

  -- Two calls of `done` never come to the same awaiter, so none is resumed twice.
  pub resumed_once : (i j p : ℕ) → s.pc i ≡ walking p → s.pc j ≡ walking p → p ≢ 0 → i ≡ j
  resumed_once i j p e f pos =
      let h : taken i ≡ taken j = sym (ahead i p e pos) ∙ ahead j p f pos in
      ap (λ q. elim q [ out ↦ 0 | hung ↦ 0 | taken k ↦ k ]) h

  -- A suspended coroutine hangs on the word, where the next exchange finds it, or is ahead of a call
  -- of `done` that resumes it.
  pub suspended_found :
      (i : ℕ)
      → s.pc i ≡ parked
      → ((xs : List ℕ) × Chain s.mem.next s.mem.state xs × (count i xs ≡ 1))
        ⊎ ((j : ℕ) × (q : ℕ) × (ys : List ℕ) × (s.pc j ≡ walking q)
            × Chain s.mem.next q ys
            × (count i ys ≡ 1))
  suspended_found i e = go ((Reach-IsGood C r).place i) refl
    where
      go :
          (q : Place)
          → (Reach-IsGood C r).place i ≡ q
          → ((xs : List ℕ) × Chain s.mem.next s.mem.state xs × (count i xs ≡ 1))
            ⊎ ((j : ℕ) × (q : ℕ) × (ys : List ℕ) × (s.pc j ≡ walking q)
                × Chain s.mem.next q ys
                × (count i ys ≡ 1))
      go out d =
          let g = Reach-IsGood C r in
          absurd (omega (arith, ap waiting e, g.inv.suspended i, ap placed d))
      go hung d =
          let g = Reach-IsGood C r in inl (g.hung, g.inv.word, g.inv.at_state i ∙ ap on_state d)
      go (taken k) d =
          let g = Reach-IsGood C r in
          let once : count i (g.left k) ≡ 1 = g.inv.at_left k i ∙ ap (on_left k) d ∙ on_own k in
          let some_left : g.left k ≢ [] = λ h. omega (arith, once, ap (count i) h) in
          let (q, at, chain) =
            has-left s.mem.next (s.pc k) (g.left k) some_left (g.inv.remaining k) in
          inr (k, q, g.left k, at, chain, once)
