-- ===== src/WaitGroup/Preserved.antt =====
-- The invariant of src/comp/wait_group.cpp holds in every interleaving.
use tiny_coro_lab.Prelude.{
  ℕ, ◌≡◌, refl, sym, ◌∙◌, ◌<◌, subst, ap, Bool, true, false, List, [], ◌∷◌, arith, update,
  update_self, update_const, update_id, ◌==◌, inl, inr, Bool-cases,
}
use tiny_coro_lab.Contexts.{Contexts}
use tiny_coro_lab.Waiters.{Chain}
use tiny_coro_lab.WaitGroup.{
  Mem, Pc, Call, wait, add, done, Choice, idle, checking, loading, linked, parked, resuming,
  draining, walking, waiting, walks, System, act, exec, init, wake, Reach, start, later,
}
use tiny_coro_lab.WaitGroup.Invariant.{Place, Remaining, Own, Inv}
use tiny_coro_lab.WaitGroup.Moves.{Inv-outside, Inv-enqueue, Inv-drain, Inv-round, Inv-end}

-- The state is one that the lists of the invariant explain.
pub record IsGood {W : Type 0} (s : System W) : Type 0 where
  pub place : ℕ → Place
  pub hung : List ℕ
  pub left : ℕ → List ℕ
  pub inv : Inv s.mem.state s.mem.next s.pc place hung left

module _ (C : Contexts) where
  open C use {World}

  abbrev pub next_state : System World → ℕ → Choice → Pc → System World
  next_state s i c p =
      let (m, q) = act C c i p s.mem in record { mem = m; pc = wake p (update s.pc i q) }

  module _ {s : System World} (i : ℕ) (c : Choice) (g : IsGood s) where
    outside :
        (m : Mem World) (v : ℕ) (p : Pc)
        → m.state ≡ s.mem.state
        → m.next ≡ update s.mem.next i v
        → waiting (s.pc i) ≡ 0
        → walks (s.pc i) ≡ false
        → waiting p ≡ 0
        → walks p ≡ false
        → Own (update s.mem.next i v) i p
        → IsGood (record { mem = m; pc = update s.pc i p })
    outside m v p es en q k q' k' own = record {
      place = g.place;
      hung = g.hung;
      left = g.left;
      inv = rw (es, en) (Inv-outside i g.inv v p q k q' k' own);
    }

    -- A step that leaves the word and the links as they are.
    stay :
        (m : Mem World) (p : Pc)
        → m.state ≡ s.mem.state
        → m.next ≡ s.mem.next
        → waiting (s.pc i) ≡ 0
        → walks (s.pc i) ≡ false
        → waiting p ≡ 0
        → walks p ≡ false
        → Own (update s.mem.next i (s.mem.next i)) i p
        → IsGood (record { mem = m; pc = update s.pc i p })
    stay m p es en q k q' k' own =
        outside m (s.mem.next i) p es (en ∙ update_const s.mem.next i) q k q' k' own

    begin-IsGood : (x : Call) → c.call ≡ x → s.pc i ≡ idle → IsGood (next_state s i c idle)
    unfolding act
    begin-IsGood (wait x h) d e =
        rw d (outside _ 0 checking refl refl (rw e refl) (rw e refl) refl refl tt)
    begin-IsGood (add n) d e = rw d (stay _ idle refl refl (rw e refl) (rw e refl) refl refl tt)
    begin-IsGood done d e = elim (Bool-cases (s.mem.count == 1)) [
      | inl last ↦ rw (d, last) (stay _ draining refl refl (rw e refl) (rw e refl) refl refl tt)
      | inr more ↦ rw (d, more) (stay _ idle refl refl (rw e refl) (rw e refl) refl refl tt)
    ]

    check-IsGood : s.pc i ≡ checking → IsGood (next_state s i c checking)
    unfolding act
    check-IsGood e = elim (Bool-cases (s.mem.count == 0)) [
      | inl none ↦ rw none (stay _ resuming refl refl (rw e refl) (rw e refl) refl refl tt)
      | inr some ↦ rw some (stay _ loading refl refl (rw e refl) (rw e refl) refl refl tt)
    ]

    load-IsGood : s.pc i ≡ loading → IsGood (next_state s i c loading)
    unfolding act
    load-IsGood e =
        outside _ s.mem.state (linked s.mem.state) refl refl (rw e refl) (rw e refl) refl refl
          (update_self s.mem.next i s.mem.state)

    push-IsGood :
        (old : ℕ) (x : Bool)
        → c.spurious ≡ x
        → 1 < i
        → s.pc i ≡ linked old
        → IsGood (next_state s i c (linked old))
    unfolding act
    push-IsGood old true d big e =
        rw d (stay _ checking refl refl (rw e refl) (rw e refl) refl refl tt)
    push-IsGood old false d big e = elim (Bool-cases (s.mem.state == old)) [
      | inl same ↦
          let eq : s.mem.state ≡ old = ground arith in
          rw (d, same)
            (record {
              place = update g.place i Place.hung;
              hung = i ∷ g.hung;
              left = g.left;
              inv = Inv-enqueue i g.inv (e ∙ ap linked (sym eq)) big;
            })
      | inr other ↦ rw (d, other) (stay _ checking refl refl (rw e refl) (rw e refl) refl refl tt)
    ]

    parked-IsGood : s.pc i ≡ parked → IsGood (next_state s i c parked)
    unfolding act
    parked-IsGood e = record {
      place = g.place;
      hung = g.hung;
      left = g.left;
      inv = rw (update_id s.pc i e) g.inv;
    }

    resume-IsGood : s.pc i ≡ resuming → IsGood (next_state s i c resuming)
    unfolding act
    resume-IsGood e = stay _ idle refl refl (rw e refl) (rw e refl) refl refl tt

    drain-IsGood : s.pc i ≡ draining → IsGood (next_state s i c draining)
    unfolding act
    drain-IsGood e = record {
      place = _;
      hung = [];
      left = update g.left i g.hung;
      inv = Inv-drain i g.inv e;
    }

    round-IsGood :
        (p : ℕ) (ys : List ℕ)
        → g.left i ≡ ys
        → s.pc i ≡ walking p
        → IsGood (next_state s i c (walking p))
    unfolding act
    round-IsGood p [] d e =
        let chain : Chain s.mem.next p (g.left i) =
          subst (λ q. Remaining s.mem.next q (g.left i)) e (g.inv.remaining i) in
        let last : p ≡ 0 = subst (Chain s.mem.next p) d chain in
        rw last (record {
          place = g.place;
          hung = g.hung;
          left = g.left;
          inv = Inv-end i g.inv (e ∙ ap walking last);
        })
    round-IsGood p (y ∷ ys) d e =
        let whole : Chain s.mem.next p (g.left i) =
          subst (λ q. Remaining s.mem.next q (g.left i)) e (g.inv.remaining i) in
        let chain : Chain s.mem.next p (y ∷ ys) = subst (Chain s.mem.next p) d whole in
        let more : (p == 0) ≡ false = ground arith in
        let same : y ∷ ys ≡ p ∷ ys = ap (λ z. z ∷ ys) (sym chain.0) in
        rw more (record {
          place = _;
          hung = g.hung;
          left = update g.left i ys;
          inv = Inv-round i g.inv p ys (d ∙ same) e (subst (Chain s.mem.next p) same chain);
        })

    step-IsGood : (p : Pc) → s.pc i ≡ p → 1 < i → IsGood (next_state s i c p)
    step-IsGood idle e big = begin-IsGood c.call refl e
    step-IsGood checking e big = check-IsGood e
    step-IsGood loading e big = load-IsGood e
    step-IsGood (linked old) e big = push-IsGood old c.spurious refl big e
    step-IsGood parked e big = parked-IsGood e
    step-IsGood resuming e big = resume-IsGood e
    step-IsGood draining e big = drain-IsGood e
    step-IsGood (walking p) e big = round-IsGood p (g.left i) refl e

  pub exec-IsGood :
      {s : System World} (i : ℕ) (c : Choice) → 1 < i → IsGood s → IsGood (exec C s i c)
  unfolding exec
  exec-IsGood {s} i c big g = step-IsGood i c g (s.pc i) refl big

  -- The lists of the invariant explain every state that any interleaving reaches.
  pub Reach-IsGood : {n : ℕ} {w : World} {s : System World} → Reach C n w s → IsGood s
  unfolding init
  Reach-IsGood start = record {
    place = λ _. Place.out;
    hung = [];
    left = λ _. [];
    inv = record {
      at_state = λ j. refl;
      at_left = λ i j. refl;
      suspended = λ j. refl;
      word = refl;
      remaining = λ i. refl;
      own = λ i. tt;
    };
  }
  Reach-IsGood (later i c big r) = exec-IsGood i c big (Reach-IsGood r)
