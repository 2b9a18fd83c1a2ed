-- ===== src/Mutex/Safety.antt =====
-- What holds of the mutex of src/comp/mutex.cpp in every interleaving.
use tiny_coro_lab.Prelude.{
  ℕ, ◌+◌, ◌≡◌, refl, sym, ◌∙◌, ◌≢◌, subst, true, false, List, [], ◌∷◌, Option, none, some, arith,
  count, eqb_refl, ap,
}
use tiny_coro_lab.Contexts.{Contexts}
use tiny_coro_lab.Waiters.{Chain, Chain-ne_one}
use tiny_coro_lab.Mutex.{
  nolocked, locked_no_waiting, Pc, parked, owner, unlock_take, popping, holds, waiting, System,
  Reach,
}
use tiny_coro_lab.Mutex.Invariant.{is_owner, Shape, Inv}
use tiny_coro_lab.Mutex.Implements.{Simulated, Reach-Simulated}

same_owner : (o : Option ℕ) (i j : ℕ) → is_owner o i ≡ true → is_owner o j ≡ true → i ≡ j
same_owner none i j h k = cc
same_owner (some o) i j h k = ground arith

popped : (next : ℕ → ℕ) (t : ℕ) (fifo : List ℕ) → fifo ≢ [] → Chain next t fifo → t ≢ 0
popped next t [] h c = absurd (h refl)
popped next t (x ∷ xs) h c = omega arith

module _ {next : ℕ → ℕ} {state head : ℕ} {pc : ℕ → Pc} {xs fifo : List ℕ} where
  held-word :
      (o : Option ℕ) (i : ℕ)
      → Inv next state head pc o xs fifo
      → holds (pc i) ≡ true
      → (state ≢ 1) × Shape next state head (pc i) fifo
  held-word none i inv h = cc (inv.owners i)
  held-word (some o) i inv h = (
    Chain-ne_one next state xs inv.word,
    subst (λ k. Shape next state head (pc k) fifo)
        (same_owner (some o) o i (eqb_refl o) (sym (inv.owners i) ∙ h)) inv.private,
  )

  waiter-served :
      (o : Option ℕ) (i : ℕ)
      → Inv next state head pc o xs fifo
      → pc i ≡ parked
      → (j : ℕ) × (holds (pc j) ≡ true)
  waiter-served none i inv e =
      let here : count i xs + count i fifo ≡ 1 = inv.members i ∙ ap waiting e in
      let no_list : count i xs ≡ 0 = ap (count i) inv.word.1 in
      let no_fifo : count i fifo ≡ 0 = ap (count i) inv.private.1 in absurd (omega arith)
  waiter-served (some o) i inv e = (o, inv.owners o ∙ eqb_refl o)

  idle-free :
      (o : Option ℕ)
      → Inv next state head pc o xs fifo
      → ((i : ℕ) → holds (pc i) ≡ false)
      → state ≡ 1
  idle-free none inv h = inv.word.0
  idle-free (some o) inv h = cc (inv.owners o, h o, eqb_refl o)

module _ (C : Contexts) {w : C.World} {s : System C.World} (r : Reach C w s) where
  -- Two coroutines never hold the lock together, `unlock` itself included.
  pub mutual_exclusion : (i j : ℕ) → holds (s.pc i) ≡ true → holds (s.pc j) ≡ true → i ≡ j
  mutual_exclusion i j h k =
      let sim = Reach-Simulated C r in
      let owners = sim.refines.inv.owners in
      same_owner sim.spec.owner i j (sym (owners i) ∙ h) (sym (owners j) ∙ k)

  -- No wakeup is lost: while a coroutine is suspended, the lock is held, and by a coroutine whose
  -- code will hand it over.
  pub waiter_served :
      (i : ℕ) → s.pc i ≡ parked → (j : ℕ) × (holds (s.pc j) ≡ true) × (s.mem.state ≢ nolocked)
  waiter_served i e =
      let sim = Reach-Simulated C r in
      let (j, h) = waiter-served sim.spec.owner i sim.refines.inv e in
      (j, h, (held-word sim.spec.owner j sim.refines.inv h).0)

  -- When no coroutine holds the lock, the word is back at `nolocked`, so that the destructor's
  -- assertion holds and the next `lock` or `try_lock` succeeds.
  pub free_again : ((i : ℕ) → holds (s.pc i) ≡ false) → s.mem.state ≡ nolocked
  free_again h = let sim = Reach-Simulated C r in idle-free sim.spec.owner sim.refines.inv h

  -- The three assertions in `unlock`: the lock is held; what the exchange takes is a list; and
  -- there is somebody to resume.
  pub asserts_hold :
      (i : ℕ)
      → (s.pc i ≡ owner → s.mem.state ≢ nolocked)
        × (s.pc i ≡ unlock_take → (s.mem.state ≢ nolocked) × (s.mem.state ≢ locked_no_waiting))
        × ((t : ℕ) → s.pc i ≡ popping t → t ≢ 0)
  asserts_hold i =
      let sim = Reach-Simulated C r in
      let known = λ (p : Pc) (e : s.pc i ≡ p) (h : holds p ≡ true). shape_at sim p e h in
      (
        λ e. (known owner e refl).0,
        λ e. ((known unlock_take e refl).0, (known unlock_take e refl).1.2),
        λ t e.
            popped s.mem.next t sim.refines.fifo (known (popping t) e refl).1.0
              (known (popping t) e refl).1.1,
      )
    where
      shape_at :
          (sim : Simulated s) (p : Pc)
          → s.pc i ≡ p
          → holds p ≡ true
          → (s.mem.state ≢ 1)
            × Shape s.mem.next s.mem.state s.mem.resume_list_head p sim.refines.fifo
      shape_at sim p e h =
          subst
            (λ q.
              (s.mem.state ≢ 1)
              × Shape s.mem.next s.mem.state s.mem.resume_list_head q sim.refines.fifo)
            e (held-word sim.spec.owner i sim.refines.inv (ap holds e ∙ h))
