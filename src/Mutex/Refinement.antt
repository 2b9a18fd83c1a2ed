-- ===== src/Mutex/Refinement.antt =====
-- Each atomic step of src/comp/mutex.cpp is a step of the specification, or none of it.
use tiny_coro_lab.Prelude.{
  eqb_refl, ℕ, ◌+◌, ◌≡◌, refl, sym, ◌∙◌, ◌≢◌, ◌<◌, subst, true, false, List, [], ◌∷◌, ◌++◌, Option,
  none, some, arith, reverse, reverse-cons, append_assoc, count, count-append, count-reverse,
  update, ap,
}
use tiny_coro_lab.Waiters.{Chain, Chain-ne_one}
use tiny_coro_lab.Mutex.Spec.{release, hand_over, Spec, SpecStep, stay, acquire, enqueue}
use tiny_coro_lab.Mutex.{
  idle, handing, acquired, unlock_cas, Mem, Pc, linked, parked, holds, waiting, System,
}
use tiny_coro_lab.Mutex.Invariant.{is_owner, Word, Shape, Linked, Inv}
use tiny_coro_lab.Mutex.Moves.{
  Inv-release, Inv-hand_over, Inv-outside, Inv-acquire, Inv-enqueue, Inv-owner,
}

-- The state stands for an owner and a queue.
pub record Refines {W : Type 0} (s : System W) (σ : Spec) : Type 0 where
  pub arrivals : List ℕ
  pub fifo : List ℕ
  pub queue : σ.queue ≡ fifo ++ reverse arrivals
  pub inv : Inv s.mem.next s.mem.state s.mem.resume_list_head s.pc σ.owner arrivals fifo

pub record Stepped {W : Type 0} (i : ℕ) (σ : Spec) (s : System W) : Type 0 where
  pub after : Spec
  pub step : SpecStep i σ after
  pub refines : Refines s after

owner-free : (next : ℕ → ℕ) (o : Option ℕ) (xs : List ℕ) → Word next 1 o xs → o ≡ none
owner-free next none xs w = refl
owner-free next (some o) xs w = absurd (Chain-ne_one next 1 xs w refl)

owner-held :
    (next : ℕ → ℕ) (state : ℕ) (o : Option ℕ) (xs : List ℕ)
    → state ≢ 1
    → Word next state o xs
    → (j : ℕ) × (o ≡ some j)
owner-held next state none xs h w = absurd (h w.0)
owner-held next state (some j) xs h w = (j, refl)

pub owner-is : (o : Option ℕ) (i : ℕ) → is_owner o i ≡ true → o ≡ some i
owner-is none i h = cc
owner-is (some o) i h = ground arith

module _ {W : Type 0} {s : System W} {σ : Spec} (i : ℕ) (r : Refines s σ) where
  -- The cases in which the specification does not move.
  pub outside :
      (m : Mem W) (v : ℕ) (p : Pc)
      → m.state ≡ s.mem.state
      → m.resume_list_head ≡ s.mem.resume_list_head
      → m.next ≡ update s.mem.next i v
      → holds (s.pc i) ≡ false
      → waiting (s.pc i) ≡ 0
      → holds p ≡ false
      → waiting p ≡ 0
      → Linked (update s.mem.next i v) i p
      → Stepped i σ (record { mem = m; pc = update s.pc i p })
  outside m v p es eh en h w h' w' l = record {
    after = σ;
    step = stay refl;
    refines = record {
      arrivals = r.arrivals;
      fifo = r.fifo;
      queue = r.queue;
      inv = rw (es, eh, en) (Inv-outside σ.owner i v p r.inv h w h' w' l);
    };
  }

  -- `i` finds the lock free and takes it.
  pub take :
      (m : Mem W) (p : Pc)
      → m.state ≡ 0
      → m.resume_list_head ≡ s.mem.resume_list_head
      → m.next ≡ s.mem.next
      → s.mem.state ≡ 1
      → waiting (s.pc i) ≡ 0
      → holds p ≡ true
      → waiting p ≡ 0
      → (s.mem.resume_list_head ≡ 0 → Shape s.mem.next 0 s.mem.resume_list_head p [])
      → Stepped i σ (record { mem = m; pc = update s.pc i p })
  take m p es eh en free w h' w' shape = record {
    after = record { owner = some i; queue = [] };
    step = acquire nobody empty refl;
    refines = record {
      arrivals = [];
      fifo = [];
      queue = refl;
      inv = rw (es, eh, en) (Inv-acquire i p inv w h' w' (shape inv.private.0));
    };
  }
    where
      nobody : σ.owner ≡ none
      nobody =
          owner-free s.mem.next σ.owner r.arrivals
            (subst (λ x. Word s.mem.next x σ.owner r.arrivals) free r.inv.word)

      inv : Inv s.mem.next s.mem.state s.mem.resume_list_head s.pc none r.arrivals r.fifo
      inv =
          subst (λ o. Inv s.mem.next s.mem.state s.mem.resume_list_head s.pc o r.arrivals r.fifo)
            nobody r.inv

      empty : σ.queue ≡ []
      empty = r.queue ∙ rw (inv.private.1, inv.word.1) refl

  -- `i` hangs itself on the list.
  pub push :
      (m : Mem W) (old : ℕ)
      → s.pc i ≡ linked old
      → s.mem.state ≡ old
      → 1 < i
      → m.state ≡ i
      → m.resume_list_head ≡ s.mem.resume_list_head
      → m.next ≡ s.mem.next
      → Stepped i σ (record { mem = m; pc = update s.pc i parked })
  push m old e eq big es eh en = record {
    after = record { owner = some held.0; queue = σ.queue ++ i ∷ [] };
    step = enqueue held.0 held.1 other refl;
    refines = record {
      arrivals = i ∷ r.arrivals;
      fifo = r.fifo;
      queue =
          rw (r.queue, reverse-cons i r.arrivals)
            (append_assoc r.fifo (reverse r.arrivals) (i ∷ []));
      inv = rw (es, eh, en) (Inv-enqueue held.0 i inv (e ∙ ap linked (sym eq)) big);
    };
  }
    where
      held : (j : ℕ) × (σ.owner ≡ some j)
      held =
          owner-held s.mem.next s.mem.state σ.owner r.arrivals
            (rw eq ((subst (Linked s.mem.next i) e (r.inv.links i)).1)) r.inv.word

      inv : Inv s.mem.next s.mem.state s.mem.resume_list_head s.pc (some held.0) r.arrivals r.fifo
      inv =
          subst (λ o. Inv s.mem.next s.mem.state s.mem.resume_list_head s.pc o r.arrivals r.fifo)
            held.1 r.inv

      other : held.0 ≢ i
      other same = cc (inv.owners i, same, eqb_refl i, ap holds e)

  -- The facts of the owner.
  pub owned :
      holds (s.pc i) ≡ true
      → (σ.owner ≡ some i)
        × Inv s.mem.next s.mem.state s.mem.resume_list_head s.pc (some i) r.arrivals r.fifo
  owned h =
      let e : σ.owner ≡ some i = owner-is σ.owner i (sym (r.inv.owners i) ∙ h) in
      (
        e,
        subst (λ o. Inv s.mem.next s.mem.state s.mem.resume_list_head s.pc o r.arrivals r.fifo) e
            r.inv,
      )

  -- `i` keeps the lock, and the queue stays the same though it may be split another way.
  pub inside :
      (m : Mem W) (p : Pc) (ys rest : List ℕ)
      → holds (s.pc i) ≡ true
      → waiting (s.pc i) ≡ 0
      → holds p ≡ true
      → waiting p ≡ 0
      → rest ++ reverse ys ≡ r.fifo ++ reverse r.arrivals
      → ((j : ℕ) → waiting (s.pc j) ≡ 0 → m.next j ≡ s.mem.next j)
      → Chain m.next m.state ys
      → Shape m.next m.state m.resume_list_head p rest
      → Stepped i σ (record { mem = m; pc = update s.pc i p })
  inside m p ys rest h w h' w' same frame chain shape = record {
    after = σ;
    step = stay refl;
    refines = record {
      arrivals = ys;
      fifo = rest;
      queue = r.queue ∙ sym same;
      inv =
          subst (λ o. Inv m.next m.state m.resume_list_head (update s.pc i p) o ys rest)
            (sym (owned h).0) (Inv-owner i p (owned h).1 w h' w' counts frame chain shape);
    };
  }
    where
      counts : (j : ℕ) → count j ys + count j rest ≡ count j r.arrivals + count j r.fifo
      counts j = omega (
        arith,
        count-append j (reverse ys) rest,
        count-append j (reverse r.arrivals) r.fifo,
        count-reverse j ys,
        count-reverse j r.arrivals,
        ap (count j) same,
      )

  -- `i` frees the lock.
  pub freed :
      (m : Mem W)
      → s.mem.state ≡ 0
      → s.pc i ≡ unlock_cas
      → m.state ≡ 1
      → m.resume_list_head ≡ s.mem.resume_list_head
      → m.next ≡ s.mem.next
      → Stepped i σ (record { mem = m; pc = update s.pc i idle })
  freed m z e es eh en = record {
    after = record { owner = none; queue = [] };
    step = release (owned held).0 (r.queue ∙ rw (done.0, done.1) refl) refl;
    refines = record { arrivals = []; fifo = []; queue = refl; inv = rw (es, eh, en) done.2 };
  }
    where
      held : holds (s.pc i) ≡ true
      held = rw e refl

      done :
          (r.arrivals ≡ [])
          × (r.fifo ≡ [])
          × Inv s.mem.next 1 s.mem.resume_list_head (update s.pc i idle) none [] []
      done =
          Inv-release i
            (subst (λ x. Inv s.mem.next x s.mem.resume_list_head s.pc (some i) r.arrivals r.fifo) z
              (owned held).1)
            e

  -- `i` hands the lock to the first in line.
  pub handed :
      (m : Mem W) (t : ℕ)
      → s.pc i ≡ handing t
      → m.state ≡ s.mem.state
      → m.resume_list_head ≡ s.mem.resume_list_head
      → m.next ≡ s.mem.next
      → Stepped i σ (record { mem = m; pc = update (update s.pc i idle) t acquired })
  handed m t e es eh en = record {
    after = record { owner = some t; queue = done.0 ++ reverse r.arrivals };
    step =
        hand_over t (done.0 ++ reverse r.arrivals) (owned held).0
          (r.queue ∙ ap (λ l. l ++ reverse r.arrivals) done.1) other refl;
    refines = record {
      arrivals = r.arrivals;
      fifo = done.0;
      queue = refl;
      inv = rw (es, eh, en) done.2;
    };
  }
    where
      held : holds (s.pc i) ≡ true
      held = rw e refl

      done :
          (rest : List ℕ) × (r.fifo ≡ t ∷ rest)
          × Inv s.mem.next s.mem.state s.mem.resume_list_head
              (update (update s.pc i idle) t acquired)
              (some t)
              r.arrivals
              rest
      done = Inv-hand_over i t (owned held).1 e

      other : t ≢ i
      other same =
          let some_t : count t r.fifo ≡ count t done.0 + 1 =
            ap (count t) done.1 ∙ rw (eqb_refl t) refl in
          let none_i : waiting (s.pc i) ≡ 0 = rw e refl in
          omega (arith, some_t, none_i, r.inv.members t, ap (λ k. waiting (s.pc k)) same)
