-- ===== src/Mutex/Steps.antt =====
-- The steps of src/comp/mutex.cpp, one by one, as steps of the specification.
use tiny_coro_lab.Prelude.{
  ℕ, ◌+◌, ◌≡◌, refl, sym, ◌∙◌, ◌≢◌, ◌<◌, ◌≤◌, subst, Bool, true, false, List, [], ◌∷◌, ◌++◌, arith,
  reverse, reverse-cons, append-nil, append_assoc, count, count-append, count-reverse, update,
  update_self, update_ne, update_id, update_const, ◌==◌, Bool-cases, ap, inl, inr,
}
use tiny_coro_lab.Contexts.{Contexts}
use tiny_coro_lab.Waiters.{Chain, Chain-update, Chain-nil, Chain-ne_nil}
use tiny_coro_lab.Mutex.Spec.{Spec, stay}
use tiny_coro_lab.Mutex.{
  Pc, idle, loading, try_free, linked, parked, acquired, owner, unlock_cas, unlock_take, reversing,
  popping, handing, holds, waiting, System, Choice, Call, lock, try_lock, act, wake,
}
use tiny_coro_lab.Mutex.Invariant.{Shape, Linked, Reversing, Handing}
use tiny_coro_lab.Mutex.Refinement.{
  Refines, Stepped, outside, take, push, owned, inside, freed, handed,
}

waiting-le : (p : Pc) → waiting p ≤ 1
waiting-le p = ground arith

pub reverse-shift : (a : ℕ) (ps qs : List ℕ) → reverse (a ∷ ps) ++ qs ≡ reverse ps ++ a ∷ qs
reverse-shift a ps qs = rw (reverse-cons a ps) (append_assoc (reverse ps) (a ∷ []) qs)

pub Reversal-counts :
    (pc : ℕ → Pc) (a : ℕ) (ps qs xs fifo : List ℕ)
    → fifo ≡ reverse (a ∷ ps) ++ qs
    → ((j : ℕ) → count j xs + count j fifo ≡ waiting (pc j))
    → (count a xs ≡ 0) × (count a ps ≡ 0) × (count a qs ≡ 0) × (0 < waiting (pc a))
Reversal-counts pc a ps qs xs fifo whole members =
    omega (arith, members a, waiting-le (pc a), split)
  where
    split : count a fifo ≡ 1 + count a ps + count a qs
    split =
        rw whole (ground (arith, count-append a qs (reverse (a ∷ ps)), count-reverse a (a ∷ ps)))

cons-ne_nil : (a : ℕ) (xs : List ℕ) → a ∷ xs ≢ []
cons-ne_nil a xs = ground arith

first_in_line :
    (next : ℕ → ℕ) (t : ℕ) (fifo : List ℕ)
    → fifo ≢ []
    → Chain next t fifo
    → Handing next (next t) t fifo
first_in_line next t [] h c = absurd (h refl)
first_in_line next t (x ∷ xs) h c = record {
  rest = xs;
  first = ap (λ y. y ∷ xs) (sym c.0);
  chain = rw c.0 c.2;
}

module _ (C : Contexts) where
  open C use {World}

  -- The state after `i`, standing at `p`, has made its step.
  abbrev pub next_state : System World → ℕ → Choice → Pc → System World
  next_state s i c p =
      let (m, q) = act C c i p s.mem in record { mem = m; pc = wake p (update s.pc i q) }

  module _ {s : System World} {σ : Spec} (i : ℕ) (c : Choice) (r : Refines s σ) where
    pub begin-Stepped :
        (call : Call) → c.call ≡ call → s.pc i ≡ idle → Stepped i σ (next_state s i c idle)
    unfolding act
    begin-Stepped (lock x h) d e =
        rw d (outside i r _ 0 loading refl refl refl (rw e refl) (rw e refl) refl refl tt)
    begin-Stepped try_lock d e = elim (Bool-cases (s.mem.state == 1)) [
      | inl free ↦
          rw (d, free)
            (take i r _ owner refl refl refl (ground arith) (rw e refl) refl refl (λ z. z))
      | inr held ↦
          rw (d, held)
            (outside i r _ (s.mem.next i) idle refl refl (update_const s.mem.next i) (rw e refl)
              (rw e refl) refl refl tt)
    ]

    pub load-Stepped : s.pc i ≡ loading → Stepped i σ (next_state s i c loading)
    unfolding act
    load-Stepped e = elim (Bool-cases (s.mem.state == 1)) [
      | inl free ↦
          rw free (outside i r _ 0 try_free refl refl refl (rw e refl) (rw e refl) refl refl tt)
      | inr held ↦ rw held (
          outside i r _ s.mem.state (linked s.mem.state) refl refl refl (rw e refl) (rw e refl) refl
            refl (update_self s.mem.next i s.mem.state, ground arith))
    ]

    -- A failed compare-exchange, or a suspended coroutine: nothing is written.
    retry :
        (p : Pc)
        → holds (s.pc i) ≡ false
        → waiting (s.pc i) ≡ 0
        → holds p ≡ false
        → waiting p ≡ 0
        → Linked (update s.mem.next i (s.mem.next i)) i p
        → Stepped i σ (record { mem = s.mem; pc = update s.pc i p })
    retry p = outside i r s.mem (s.mem.next i) p refl refl (update_const s.mem.next i)

    pub try-Stepped :
        (b : Bool) → c.spurious ≡ b → s.pc i ≡ try_free → Stepped i σ (next_state s i c try_free)
    unfolding act
    try-Stepped true d e = rw d (retry loading (rw e refl) (rw e refl) refl refl tt)
    try-Stepped false d e = elim (Bool-cases (s.mem.state == 1)) [
      | inl free ↦
          rw (d, free)
            (take i r _ acquired refl refl refl (ground arith) (rw e refl) refl refl (λ z. z))
      | inr held ↦ rw (d, held) (retry loading (rw e refl) (rw e refl) refl refl tt)
    ]

    pub push-Stepped :
        (old : ℕ) (b : Bool)
        → c.spurious ≡ b
        → 1 < i
        → s.pc i ≡ linked old
        → Stepped i σ (next_state s i c (linked old))
    unfolding act
    push-Stepped old true d big e = rw d (retry loading (rw e refl) (rw e refl) refl refl tt)
    push-Stepped old false d big e = elim (Bool-cases (s.mem.state == old)) [
      | inl same ↦ rw (d, same) (push i r _ old e (ground arith) big refl refl refl)
      | inr other ↦ rw (d, other) (retry loading (rw e refl) (rw e refl) refl refl tt)
    ]

    pub parked-Stepped : s.pc i ≡ parked → Stepped i σ (next_state s i c parked)
    unfolding act
    parked-Stepped e = record {
      after = σ;
      step = stay refl;
      refines = record {
        arrivals = r.arrivals;
        fifo = r.fifo;
        queue = r.queue;
        inv = rw (update_id s.pc i e) r.inv;
      };
    }

    -- What the owner knows of its lists where it stands.
    pub here :
        {p : Pc}
        → s.pc i ≡ p
        → holds (s.pc i) ≡ true
        → Shape s.mem.next s.mem.state s.mem.resume_list_head p r.fifo
    here e h =
        subst (λ p. Shape s.mem.next s.mem.state s.mem.resume_list_head p r.fifo) e
          (owned i r h).1.private

    chain : holds (s.pc i) ≡ true → Chain s.mem.next s.mem.state r.arrivals
    chain h = (owned i r h).1.word

    pub resume-Stepped : s.pc i ≡ acquired → Stepped i σ (next_state s i c acquired)
    unfolding act
    resume-Stepped e =
        let h : holds (s.pc i) ≡ true = rw e refl in
        inside i r _ owner r.arrivals r.fifo h (rw e refl) refl refl refl (λ j _. refl) (chain h)
          (here e h)

    pub unlock-Stepped : s.pc i ≡ owner → Stepped i σ (next_state s i c owner)
    unfolding act
    unlock-Stepped e =
        let h : holds (s.pc i) ≡ true = rw e refl in
        elim (Bool-cases (s.mem.resume_list_head == 0)) [
          | inl none_left ↦
              let z : s.mem.resume_list_head ≡ 0 = ground arith in
              rw none_left (
                inside i r s.mem unlock_cas r.arrivals r.fifo h (rw e refl) refl refl refl
                  (λ j _. refl) (chain h)
                  (
                    z,
                    Chain-nil s.mem.next r.fifo
                        (subst (λ x. Chain s.mem.next x r.fifo) z (here e h)),
                  ))
          | inr more ↦ rw more (
              inside i r s.mem (popping s.mem.resume_list_head) r.arrivals r.fifo h (rw e refl) refl
                refl refl (λ j _. refl) (chain h)
                (
                  Chain-ne_nil s.mem.next s.mem.resume_list_head r.fifo (ground arith) (here e h),
                  here e h,
                ))
        ]

    pub cas-Stepped : s.pc i ≡ unlock_cas → Stepped i σ (next_state s i c unlock_cas)
    unfolding act
    cas-Stepped e =
        let h : holds (s.pc i) ≡ true = rw e refl in
        elim (Bool-cases (s.mem.state == 0)) [
          | inl z ↦ rw z (freed i r _ (ground arith) e refl refl refl)
          | inr more ↦ rw more (
              inside i r s.mem unlock_take r.arrivals r.fifo h (rw e refl) refl refl refl
                (λ j _. refl) (chain h) ((here e h).0, (here e h).1, ground arith))
        ]

    pub take-Stepped : s.pc i ≡ unlock_take → Stepped i σ (next_state s i c unlock_take)
    unfolding act
    take-Stepped e =
        let h : holds (s.pc i) ≡ true = rw e refl in
        inside i r _ (reversing s.mem.state 0) [] (reverse r.arrivals) h (rw e refl) refl refl
          (rw ((here e h).1) (append-nil _)) (λ j _. refl) refl
          (
            (here e h).0,
            record {
              ps = r.arrivals;
              qs = [];
              left = chain h;
              some_left = Chain-ne_nil s.mem.next s.mem.state r.arrivals ((here e h).2) (chain h);
              turned = refl;
              whole = sym (append-nil _);
            },
          )

    -- One round of the reversal: `a` is the newest of those left.
    round :
        (a t : ℕ) (ps qs : List ℕ)
        → holds (s.pc i) ≡ true
        → waiting (s.pc i) ≡ 0
        → s.mem.resume_list_head ≡ 0
        → Chain s.mem.next a (a ∷ ps)
        → Chain s.mem.next t qs
        → r.fifo ≡ reverse (a ∷ ps) ++ qs
        → Stepped i σ (next_state s i c (reversing a t))
    unfolding act
    round a t ps qs h w z left turned whole = elim (Bool-cases (s.mem.next a == 0)) [
      | inl last ↦
          let zero_next : s.mem.next a ≡ 0 = ground arith in
          let empty : ps ≡ [] =
            Chain-nil s.mem.next ps (subst (λ x. Chain s.mem.next x ps) zero_next left.2) in
          let one : r.fifo ≡ a ∷ qs = sym split ∙ ap (λ l. reverse l ++ a ∷ qs) empty in
          rw last (
            inside i r _ (popping a) r.arrivals (a ∷ qs) h w refl refl
              (ap (λ l. l ++ reverse r.arrivals) (sym one)) frame arrivals
              (cons-ne_nil a qs, grown))
      | inr more ↦ rw more (
          inside i r _ (reversing (s.mem.next a) a) r.arrivals (reverse ps ++ a ∷ qs) h w refl refl
            (ap (λ l. l ++ reverse r.arrivals) split) frame arrivals
            (
              z,
              record {
                ps = ps;
                qs = a ∷ qs;
                left = rest;
                some_left = Chain-ne_nil s.mem.next (s.mem.next a) ps (ground arith) left.2;
                turned = grown;
                whole = refl;
              },
            ))
    ]
      where
        counts :
            (count a r.arrivals ≡ 0) × (count a ps ≡ 0) × (count a qs ≡ 0) × (0 < waiting (s.pc a))
        counts = Reversal-counts s.pc a ps qs r.arrivals r.fifo whole r.inv.members

        split : reverse ps ++ a ∷ qs ≡ r.fifo
        split = sym (whole ∙ reverse-shift a ps qs)

        arrivals : Chain (update s.mem.next a t) s.mem.state r.arrivals
        arrivals = Chain-update s.mem.next s.mem.state a t r.arrivals counts.0 (chain h)

        rest : Chain (update s.mem.next a t) (s.mem.next a) ps
        rest = Chain-update s.mem.next (s.mem.next a) a t ps counts.1 left.2

        grown : Chain (update s.mem.next a t) a (a ∷ qs)
        grown = (
          refl,
          left.1,
          rw (update_self s.mem.next a t) (Chain-update s.mem.next t a t qs counts.2 turned),
        )

        frame : (j : ℕ) → waiting (s.pc j) ≡ 0 → update s.mem.next a t j ≡ s.mem.next j
        frame j nw =
            update_ne s.mem.next {i = a} {j = j} t
              (λ e. absurd (omega (arith, counts.3, nw, ap (λ k. waiting (s.pc k)) e)))

    pub pop-Stepped : (t : ℕ) → s.pc i ≡ popping t → Stepped i σ (next_state s i c (popping t))
    unfolding act
    pop-Stepped t e =
        let h : holds (s.pc i) ≡ true = rw e refl in
        inside i r _ (handing t) r.arrivals r.fifo h (rw e refl) refl refl refl (λ j _. refl)
          (chain h) (first_in_line s.mem.next t r.fifo (here e h).0 (here e h).1)

    pub handing-Stepped : (t : ℕ) → s.pc i ≡ handing t → Stepped i σ (next_state s i c (handing t))
    unfolding act
    handing-Stepped t e = handed i r _ t e refl refl refl

    -- A reversal starts with somebody to turn.
    pub reverse-Stepped :
        (a t : ℕ) (v : Reversing s.mem.next a t r.fifo) (ps : List ℕ)
        → v.ps ≡ ps
        → s.pc i ≡ reversing a t
        → s.mem.resume_list_head ≡ 0
        → Stepped i σ (next_state s i c (reversing a t))
    reverse-Stepped a t v [] n e z = absurd (v.some_left n)
    reverse-Stepped a t v (p ∷ ps) n e z =
        let left : Chain s.mem.next a (p ∷ ps) = subst (Chain s.mem.next a) n v.left in
        let first : a ∷ ps ≡ p ∷ ps = ap (λ y. y ∷ ps) left.0 in
        round a t ps v.qs (rw e refl) (rw e refl) z (subst (Chain s.mem.next a) (sym first) left)
          v.turned (v.whole ∙ ap (λ l. reverse l ++ v.qs) (n ∙ sym first))
