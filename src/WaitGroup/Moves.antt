-- ===== src/WaitGroup/Moves.antt =====
-- The invariant of src/comp/wait_group.cpp under each kind of move.
use tiny_coro_lab.Prelude.{
  ℕ, ◌+◌, ◌≡◌, refl, sym, ◌∙◌, ◌≢◌, ◌<◌, subst, ap, false, List, [], ◌∷◌, arith, count, update,
  update_self, update_ne, eq_or_ne, eqb_refl, inl, inr,
}
use tiny_coro_lab.Waiters.{Chain, Chain-update, Chain-nil}
use tiny_coro_lab.WaitGroup.{Pc, idle, linked, parked, resuming, draining, walking, waiting, walks}
use tiny_coro_lab.WaitGroup.Invariant.{
  Place, out, hung, taken, on_state, on_left, placed, Remaining, Own, Inv, Remaining-none,
  none-Remaining, Remaining-update, placed-out, take,
}

-- A family of facts survives a change at one index that keeps the others.
pub at-update :
    {A : Type 0} (P : ℕ → A → Type 0) (f : ℕ → A) (i : ℕ) (a : A)
    → P i a
    → ((j : ℕ) → i ≢ j → P j (f j))
    → (j : ℕ) → P j (update f i a j)
at-update P f i a here others j = elim (eq_or_ne i j) [
  | inl e ↦ subst (λ x. P x (update f i a x)) e (rw (update_self f i a) here)
  | inr n ↦ rw (update_ne f {i = i} {j = j} a n) (others j n)
]

at-both :
    {A B : Type 0} (P : ℕ → A → B → Type 0) (f : ℕ → A) (g : ℕ → B) (i : ℕ) (a : A) (b : B)
    → P i a b
    → ((j : ℕ) → i ≢ j → P j (f j) (g j))
    → (j : ℕ) → P j (update f i a j) (update g i b j)
at-both P f g i a b here others j = elim (eq_or_ne i j) [
  | inl e ↦
      subst (λ x. P x (update f i a x) (update g i b x)) e
        (rw (update_self f i a, update_self g i b) here)
  | inr n ↦ rw (update_ne f {i = i} {j = j} a n, update_ne g {i = i} {j = j} b n) (others j n)
]

Own-next : (f g : ℕ → ℕ) (j : ℕ) (p : Pc) → g j ≡ f j → Own f j p → Own g j p
Own-next f g j (linked old) e o = e ∙ o
Own-next f g j _ e o = tt

taken-left : (i n : ℕ) (q : Place) → n ≡ on_state q → on_left i q ≡ 0 → n ≡ on_left i (take i q)
taken-left i n out e h = e
taken-left i n hung e h = ground (arith, eqb_refl i)
taken-left i n (taken k) e h = ground arith

taken-others : (i k : ℕ) (q : Place) → i ≢ k → on_left k (take i q) ≡ on_left k q
taken-others i k out n = refl
taken-others i k hung n = ground arith
taken-others i k (taken _) n = refl

taken-placed : (i : ℕ) (q : Place) → placed (take i q) ≡ placed q
taken-placed i out = refl
taken-placed i hung = refl
taken-placed i (taken _) = refl

taken-state : (i : ℕ) (q : Place) → 0 ≡ on_state (take i q)
taken-state i out = refl
taken-state i hung = refl
taken-state i (taken _) = refl

taken-by : (i n : ℕ) (q : Place) → n + 1 ≡ on_left i q → (q ≡ taken i) × (n ≡ 0)
taken-by i n out e = absurd (omega arith)
taken-by i n hung e = absurd (omega arith)
taken-by i n (taken k) e = ground arith

suspended-walks : (p : Pc) → waiting p ≡ 1 → walks p ≡ false
suspended-walks parked e = refl
suspended-walks _ e = absurd (omega arith)

module _ {state : ℕ} {next : ℕ → ℕ} {pc : ℕ → Pc} {place : ℕ → Place} {xs : List ℕ}
    {left : ℕ → List ℕ} (i : ℕ) (inv : Inv state next pc place xs left) where
  none_left : walks (pc i) ≡ false → left i ≡ []
  none_left h = Remaining-none next (pc i) (left i) h (inv.remaining i)

  -- A coroutine that is neither suspended nor walks writes at most its own `m_next`.
  pub Inv-outside :
      (v : ℕ) (p : Pc)
      → waiting (pc i) ≡ 0
      → walks (pc i) ≡ false
      → waiting p ≡ 0
      → walks p ≡ false
      → Own (update next i v) i p
      → Inv state (update next i v) (update pc i p) place xs left
  Inv-outside v p q s q' s' own =
      let away : place i ≡ out = placed-out (place i) (sym (inv.suspended i) ∙ q) in
      record {
        at_state = inv.at_state;
        at_left = inv.at_left;
        suspended = λ j. ground (arith, inv.suspended j);
        word = Chain-update next state i v xs (inv.at_state i ∙ ap on_state away) inv.word;
        remaining =
            at-update (λ j p. Remaining (update next i v) p (left j)) pc i p
              (none-Remaining (update next i v) p (left i) s' (none_left s))
              λ j n.
                Remaining-update next (pc j) i v (left j) (inv.at_left j i ∙ ap (on_left j) away)
                  (inv.remaining j);
        own = at-update (Own (update next i v)) pc i p own λ j n.
            Own-next next (update next i v) j (pc j) (update_ne next {i = i} {j = j} v n)
              (inv.own j);
      }

  -- `i` hangs itself on the word.
  pub Inv-enqueue :
      pc i ≡ linked state
      → 1 < i
      → Inv i next (update pc i parked) (update place i hung) (i ∷ xs) left
  Inv-enqueue e big =
      let away : place i ≡ out = placed-out (place i) (sym (inv.suspended i) ∙ ap waiting e) in
      let here : next i ≡ state = subst (Own next i) e (inv.own i) in
      record {
        at_state = λ j. ground (arith, inv.at_state j, inv.at_state i);
        at_left = λ k j.
            at-update (λ j q. count j (left k) ≡ on_left k q) place i hung
              (inv.at_left k i ∙ ap (on_left k) away) (λ j _. inv.at_left k j) j;
        suspended = λ j. ground (arith, inv.suspended j);
        word = (refl, big, rw here inv.word);
        remaining =
            at-update (λ j p. Remaining next p (left j)) pc i parked (none_left (ap walks e))
              λ j _. inv.remaining j;
        own = at-update (Own next) pc i parked tt λ j _. inv.own j;
      }

  -- `i` takes the whole list.
  pub Inv-drain :
      pc i ≡ draining
      → Inv 0 next (update pc i (walking state)) (λ j. take i (place j)) [] (update left i xs)
  Inv-drain e =
      let none_yet : left i ≡ [] = none_left (ap walks e) in
      record {
        at_state = λ j. taken-state i (place j);
        at_left = λ k j.
            at-update (λ k l. count j l ≡ on_left k (take i (place j))) left i xs
              (taken-left i (count j xs) (place j) (inv.at_state j)
                (sym (inv.at_left i j) ∙ ap (count j) none_yet))
              (λ k n. inv.at_left k j ∙ sym (taken-others i k (place j) n)) k;
        suspended =
            at-update (λ j p. waiting p ≡ placed (take i (place j))) pc i (walking state)
              (sym (ap waiting e) ∙ inv.suspended i ∙ sym (taken-placed i (place i)))
              λ j _. inv.suspended j ∙ sym (taken-placed i (place j));
        word = refl;
        remaining =
            at-both (λ j p l. Remaining next p l) pc left i (walking state) xs inv.word
              λ j _. inv.remaining j;
        own = at-update (Own next) pc i (walking state) tt λ j _. inv.own j;
      }

  -- `i` submits the head of the list that it walks.
  pub Inv-round :
      (p : ℕ) (ys : List ℕ)
      → left i ≡ p ∷ ys
      → pc i ≡ walking p
      → Chain next p (p ∷ ys)
      → Inv state next
          (update (update pc i (walking (next p))) p resuming)
          (update place p out)
          xs
          (update left i ys)
  Inv-round p ys d e chain =
      let by =
        taken-by i (count p ys) (place p)
          (ground (arith, ap (count p) d, inv.at_left i p, eqb_refl p)) in
      let here : waiting (pc p) ≡ 1 = inv.suspended p ∙ ap placed by.0 in
      let other : i ≢ p = λ same. cc (here, ap (λ k. waiting (pc k)) same, ap waiting e) in
      record {
        at_state =
            at-update (λ j q. count j xs ≡ on_state q) place p out
              (inv.at_state p ∙ ap on_state by.0) λ j _. inv.at_state j;
        at_left = λ k j.
            at-update (λ k l. count j l ≡ on_left k (update place p out j)) left i ys
              (at-update (λ j q. count j ys ≡ on_left i q) place p out by.1
                (λ j n. ground (arith, inv.at_left i j, ap (count j) d)) j)
              (λ k n.
                at-update (λ j q. count j (left k) ≡ on_left k q) place p out
                  (inv.at_left k p ∙ ap (on_left k) by.0 ∙ ground arith) (λ j _. inv.at_left k j) j)
              k;
        suspended =
            at-both (λ j x q. waiting x ≡ placed q) (update pc i (walking (next p))) place p
              resuming out refl
              λ j _.
                at-update (λ j x. waiting x ≡ placed (place j)) pc i (walking (next p))
                  (sym (ap waiting e) ∙ inv.suspended i) (λ j _. inv.suspended j) j;
        word = inv.word;
        remaining =
            at-update (λ j x. Remaining next x (update left i ys j))
              (update pc i (walking (next p))) p resuming
              (update_ne left {i = i} {j = p} ys other
                ∙ Remaining-none next (pc p) (left p) (suspended-walks (pc p) here)
                    (inv.remaining p))
              λ j _.
                at-both (λ j x l. Remaining next x l) pc left i (walking (next p)) ys chain.2
                  (λ j _. inv.remaining j) j;
        own =
            at-update (Own next) (update pc i (walking (next p))) p resuming tt
              λ j _. at-update (Own next) pc i (walking (next p)) tt (λ j _. inv.own j) j;
      }

  -- `i` is at the end of the list.
  pub Inv-end : pc i ≡ walking 0 → Inv state next (update pc i idle) place xs left
  Inv-end e = record {
    at_state = inv.at_state;
    at_left = inv.at_left;
    suspended = λ j. ground (arith, inv.suspended j);
    word = inv.word;
    remaining =
        at-update (λ j p. Remaining next p (left j)) pc i idle
          (Chain-nil next (left i) (subst (λ q. Remaining next q (left i)) e (inv.remaining i)))
          λ j _. inv.remaining j;
    own = at-update (Own next) pc i idle tt λ j _. inv.own j;
  }
