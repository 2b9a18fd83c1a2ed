-- ===== src/Mutex/Progress.antt =====
-- `unlock` and `lock` of src/comp/mutex.cpp return: a coroutine that runs alone leaves its loops.
use tiny_coro_lab.Prelude.{
  ℕ, zero, suc, ◌+◌, ◌≡◌, refl, sym, ◌∙◌, ◌≢◌, ◌≤◌, ◌<◌, subst, true, List, [], ◌∷◌, ◌++◌, some,
  arith, reverse, length, length-reverse, count, count-append, count-reverse, ◌==◌, eqb_refl, ap,
  update, update_self, update_ne, Bool-cases, inl, inr,
}
use tiny_coro_lab.Contexts.{Contexts}
use tiny_coro_lab.Waiters.{Chain, Chain-update, Chain-unique, Chain-nil}
use tiny_coro_lab.Mutex.Spec.{Spec, SpecStep, stay, acquire, enqueue, release, hand_over}
use tiny_coro_lab.Mutex.{
  nolocked, Pc, Choice, idle, acquired, owner, unlock_cas, unlock_take, popping, reversing, handing,
  holds, waiting, System, act, exec,
}
use tiny_coro_lab.Mutex.Invariant.{Shape, Inv, Reversing}
use tiny_coro_lab.Mutex.Refinement.{Refines, owner-is}
use tiny_coro_lab.Mutex.Implements.{exec-Stepped}
use tiny_coro_lab.Mutex.Steps.{next_state, Reversal-counts}

some-eq : (a b : ℕ) → some a ≡ some b → a ≡ b
some-eq a b h = ground arith

cons-ne_nil : {a : ℕ} {xs : List ℕ} → a ∷ xs ≢ []
cons-ne_nil e = cc

cons-head : {a b : ℕ} {xs ys : List ℕ} → a ∷ xs ≡ b ∷ ys → a ≡ b
cons-head e = ground arith

-- While it holds the lock before and after, a coroutine's step is not one of the specification.
inside-stay : {i : ℕ} {σ τ : Spec} → SpecStep i σ τ → σ.owner ≡ some i → τ.owner ≡ some i → τ ≡ σ
inside-stay (stay e) h k = e
inside-stay (acquire n _ _) h k = cc
inside-stay (enqueue o ho ne e) h k = absurd (ne (some-eq _ _ (sym (ap (λ ρ. ρ.owner) e) ∙ k)))
inside-stay (release _ _ e) h k = cc
inside-stay (hand_over t ts _ _ ne e) h k =
    absurd (ne (some-eq _ _ (sym (ap (λ ρ. ρ.owner) e) ∙ k)))

module _ (C : Contexts) where
  open C use {World}

  -- Coroutine `i` makes `n` steps, and no other moves.
  pub solo : ℕ → System World → ℕ → Choice → System World
  solo zero s i c = s
  solo (suc n) s i c = solo n (exec C s i c) i c

  -- `unlock` has returned, and has freed the lock or handed it to the first in line.
  pub record Unlocked (σ : Spec) (i : ℕ) (s : System World) : Type 0 where
    pub left : s.pc i ≡ idle
    pub freed : σ.queue ≡ [] → s.mem.state ≡ nolocked
    pub granted : (t : ℕ) (ts : List ℕ) → σ.queue ≡ t ∷ ts → s.pc t ≡ acquired

  pub record Finishes (n : ℕ) (σ : Spec) (i : ℕ) (c : Choice) (s : System World) : Type 0 where
    pub steps : ℕ
    pub enough : steps ≤ n
    pub done : Unlocked σ i (solo steps s i c)

  Finishes-step :
      (n m : ℕ) {σ : Spec} {i : ℕ} {c : Choice} {s : System World}
      → n < m
      → Finishes n σ i c (exec C s i c)
      → Finishes m σ i c s
  unfolding solo
  Finishes-step n m lt f = record { steps = suc f.steps; enough = omega arith; done = f.done }

  exec-at :
      (s : System World) (i : ℕ) (c : Choice) {p : Pc}
      → s.pc i ≡ p
      → exec C s i c ≡ next_state C s i c p
  unfolding exec
  exec-at s i c e = ap (next_state C s i c) e

  module _ {σ : Spec} (i : ℕ) (c : Choice) (big : 1 < i) where
    keep :
        (s : System World)
        → Refines s σ
        → holds (s.pc i) ≡ true
        → holds ((exec C s i c).pc i) ≡ true
        → Refines (exec C s i c) σ
    keep s r h h' =
        let st = exec-Stepped C s σ i c big r in
        let before : σ.owner ≡ some i = owner-is σ.owner i (sym (r.inv.owners i) ∙ h) in
        let after : st.after.owner ≡ some i =
          owner-is st.after.owner i (sym (st.refines.inv.owners i) ∙ h') in
        subst (Refines (exec C s i c)) (inside-stay st.step before after) st.refines

    here :
        (s : System World) (p : Pc)
        → Refines s σ
        → s.pc i ≡ p
        → holds p ≡ true
        → (f : List ℕ) × (xs : List ℕ) × Shape s.mem.next s.mem.state s.mem.resume_list_head p f
          × (σ.queue ≡ f ++ reverse xs)
          × Chain s.mem.next s.mem.state xs
    here s p r e h =
        let o : σ.owner ≡ some i = owner-is σ.owner i (sym (r.inv.owners i) ∙ ap holds e ∙ h) in
        let inv =
          subst (λ k. Inv s.mem.next s.mem.state s.mem.resume_list_head s.pc k r.arrivals r.fifo) o
            r.inv in
        (
          r.fifo,
          r.arrivals,
          subst (λ q. Shape s.mem.next s.mem.state s.mem.resume_list_head q r.fifo) e inv.private,
          r.queue,
          inv.word,
        )

    finish-handing :
        (s : System World) (t : ℕ) → Refines s σ → s.pc i ≡ handing t → Finishes 1 σ i c s
    unfolding solo act
    finish-handing s t r e = record {
      steps = 1;
      enough = omega arith;
      done = rw (exec-at s i c e) (record {
        left =
            rw (update_ne (update s.pc i idle) {i = t} {j = i} acquired other)
              (update_self s.pc i idle);
        freed = λ empty. absurd (cons-ne_nil (sym line ∙ empty));
        granted =
            λ u us q. rw (← cons-head (sym line ∙ q)) (update_self (update s.pc i idle) t acquired);
      });
    }
      where
        line :
            σ.queue
            ≡ t ∷ ((here s (handing t) r e refl).2.rest ++ reverse (here s (handing t) r e refl).1)
        line =
            (here s (handing t) r e refl).3
            ∙ ap (λ l. l ++ reverse (here s (handing t) r e refl).1)
                (here s (handing t) r e refl).2.first

        counted : (u : ℕ) → count u σ.queue ≡ count u r.arrivals + count u r.fifo
        counted u = omega (
          arith,
          ap (count u) r.queue,
          count-append u (reverse r.arrivals) r.fifo,
          count-reverse u r.arrivals,
        )

        other : t ≢ i
        other same =
            let queued : (u : ℕ) → count u σ.queue ≡ count u r.arrivals + count u r.fifo =
              λ u. counted u in
            let here_t : count t σ.queue
                ≡ count t (
                    (here s (handing t) r e refl).2.rest ++ reverse (here s (handing t) r e refl).1)
                  + 1 =
              ap (count t) line ∙ rw (eqb_refl t) refl in
            let not_i : waiting (s.pc i) ≡ 0 = rw e refl in
            omega (arith, here_t, queued t, r.inv.members t, not_i, ap (λ k. waiting (s.pc k)) same)

    finish-popping :
        (s : System World) (t : ℕ) → Refines s σ → s.pc i ≡ popping t → Finishes 2 σ i c s
    unfolding act
    finish-popping s t r e =
        let at : (exec C s i c).pc i ≡ handing t =
          rw (exec-at s i c e) (update_self s.pc i (handing t)) in
        Finishes-step 1 2 (omega arith)
          (finish-handing (exec C s i c) t (keep s r (rw e refl) (rw at refl)) at)

    -- `n` awaiters at most are left to turn.
    finish-reversing :
        (n : ℕ) (s : System World) (a t : ℕ) (ps : List ℕ)
        → Refines s σ
        → s.pc i ≡ reversing a t
        → length ps ≤ n
        → Chain s.mem.next a ps
        → Finishes (n + 2) σ i c s
    unfolding act here
    finish-reversing n s a t [] r e le chain =
        let v = (here s (reversing a t) r e refl).2.1 in
        absurd (v.some_left (Chain-unique s.mem.next a v.ps [] v.left chain))
    finish-reversing zero s a t (p ∷ ps) r e le chain = absurd (omega arith)
    finish-reversing (suc n) s a t (p ∷ ps) r e le chain = elim (Bool-cases (s.mem.next a == 0)) [
      | inl last ↦
          let at : (exec C s i c).pc i ≡ popping a =
            rw (exec-at s i c e) (update_self s.pc i _ ∙ rw last refl) in
          Finishes-step 2 (suc n + 2) (omega arith)
            (finish-popping (exec C s i c) a (keep s r (rw e refl) (rw at refl)) at)
      | inr more ↦
          let at : (exec C s i c).pc i ≡ reversing (s.mem.next a) a =
            rw (exec-at s i c e) (update_self s.pc i _ ∙ rw more refl) in
          Finishes-step (n + 2) (suc n + 2) (omega arith) (
            finish-reversing n (exec C s i c) (s.mem.next a) a ps
              (keep s r (rw e refl) (rw at refl)) at (omega arith) (rw (exec-at s i c e) rest))
    ]
      where
        v : Reversing s.mem.next a t r.fifo
        v = (here s (reversing a t) r e refl).2.1

        ours : v.ps ≡ a ∷ ps
        ours = Chain-unique s.mem.next a v.ps (p ∷ ps) v.left chain ∙ ap (λ y. y ∷ ps) (sym chain.0)

        counts :
            (count a r.arrivals ≡ 0)
            × (count a ps ≡ 0)
            × (count a v.qs ≡ 0)
            × (0 < waiting (s.pc a))
        counts =
            Reversal-counts s.pc a ps v.qs r.arrivals r.fifo
              (v.whole ∙ ap (λ l. reverse l ++ v.qs) ours) r.inv.members

        rest : Chain (update s.mem.next a t) (s.mem.next a) ps
        rest = Chain-update s.mem.next (s.mem.next a) a t ps counts.1 (rw chain.0 chain.2)

    finish-take :
        (s : System World)
        → Refines s σ
        → s.pc i ≡ unlock_take
        → Finishes (length σ.queue + 3) σ i c s
    unfolding act
    finish-take s r e =
        let known = here s unlock_take r e refl in
        let at : (exec C s i c).pc i ≡ reversing s.mem.state 0 =
          rw (exec-at s i c e) (update_self s.pc i _) in
        let long : length σ.queue ≡ length known.1 =
          ap length (known.3 ∙ ap (λ l. l ++ reverse known.1) known.2.1) ∙ length-reverse known.1 in
        Finishes-step (length σ.queue + 2) (length σ.queue + 3) (omega arith) (
          finish-reversing (length σ.queue) (exec C s i c) s.mem.state 0 known.1
            (keep s r (rw e refl) (rw at refl)) at (omega arith) (rw (exec-at s i c e) known.4))

    finish-cas :
        (s : System World)
        → Refines s σ
        → s.pc i ≡ unlock_cas
        → Finishes (length σ.queue + 4) σ i c s
    unfolding act solo
    finish-cas s r e = elim (Bool-cases (s.mem.state == 0)) [
      | inl z ↦ record {
        steps = 1;
        enough = omega arith;
        done =
            rw (exec-at s i c e, z)
              (record {
                left = update_self s.pc i idle;
                freed = λ _. refl;
                granted = λ t ts q. absurd (cons-ne_nil (sym q ∙ nobody z));
              });
      }
      | inr more ↦
          let at : (exec C s i c).pc i ≡ unlock_take =
            rw (exec-at s i c e) (update_self s.pc i _ ∙ rw more refl) in
          Finishes-step (length σ.queue + 3) (length σ.queue + 4) (omega arith)
            (finish-take (exec C s i c) (keep s r (rw e refl) (rw at refl)) at)
    ]
      where
        nobody : (s.mem.state == 0) ≡ true → σ.queue ≡ []
        nobody z =
            let known = here s unlock_cas r e refl in
            let zero_state : s.mem.state ≡ 0 = ground arith in
            let empty : known.1 ≡ [] =
              Chain-nil s.mem.next known.1
                (subst (λ x. Chain s.mem.next x known.1) zero_state known.4) in
            known.3 ∙ rw (known.2.1, empty) refl

    finish-owner :
        (s : System World) → Refines s σ → s.pc i ≡ owner → Finishes (length σ.queue + 5) σ i c s
    unfolding act
    finish-owner s r e = elim (Bool-cases (s.mem.resume_list_head == 0)) [
      | inl z ↦
          let at : (exec C s i c).pc i ≡ unlock_cas =
            rw (exec-at s i c e) (update_self s.pc i _ ∙ rw z refl) in
          Finishes-step (length σ.queue + 4) (length σ.queue + 5) (omega arith)
            (finish-cas (exec C s i c) (keep s r (rw e refl) (rw at refl)) at)
      | inr more ↦
          let at : (exec C s i c).pc i ≡ popping s.mem.resume_list_head =
            rw (exec-at s i c e) (update_self s.pc i _ ∙ rw more refl) in
          Finishes-step 2 (length σ.queue + 5) (omega arith) (
            finish-popping (exec C s i c) s.mem.resume_list_head (keep s r (rw e refl) (rw at refl))
              at)
    ]

-- `unlock` returns. From any state that stands for an owner and a queue, the owner that runs alone is
-- out of `unlock` after at most five steps and one for each coroutine in the queue; then the lock is
-- free if the queue was empty, and otherwise the first in the queue has it.
pub unlock_returns :
    (C : Contexts) (s : System C.World) (σ : Spec) (i : ℕ) (c : Choice)
    → 1 < i
    → Refines s σ
    → s.pc i ≡ owner
    → Finishes C (length σ.queue + 5) σ i c s
unlock_returns C s σ i c big r e = finish-owner C i c big s r e
