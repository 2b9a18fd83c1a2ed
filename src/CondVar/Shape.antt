-- ===== src/CondVar/Shape.antt =====
-- The list of src/comp/condition_variable.cpp is first-in first-out.
use tiny_coro_lab.Prelude.{
  ℕ, ◌≡◌, refl, sym, ◌∙◌, ◌≢◌, ◌<◌, ◌≤◌, ap, subst, Bool, true, false, Option, List, [], ◌∷◌, ◌++◌,
  arith, count, count-append, eq_or_ne, update, update_self, update_ne, ◌==◌, eqb_refl, eqb_ne, inl,
  inr, if◌then◌else◌,
}
use tiny_coro_lab.Contexts.{Contexts}
use tiny_coro_lab.Waiters.{Chain}
use tiny_coro_lab.CondVar.{CondVar, register_cv, wake_up, notify_one}

abbrev pub last : List ℕ → ℕ
last [] = 0
last (x ∷ []) = x
last (x ∷ y ∷ xs) = last (y ∷ xs)

-- `xs` hang on the condition variable, oldest first, each once.
pub record Listed {W : Type 0} (m : CondVar W) (xs : List ℕ) : Type 0 where
  pub chain : Chain m.next m.head xs
  pub tail : m.tail ≡ last xs
  pub once : (j : ℕ) → count j xs ≤ 1

last-count : (x : ℕ) (xs : List ℕ) → 1 ≤ count (last (x ∷ xs)) (x ∷ xs)
last-count x [] = ground (arith, eqb_refl x)
last-count x (y ∷ xs) = omega (arith, last-count y xs)

last-append : (xs : List ℕ) (a : ℕ) → last (xs ++ a ∷ []) ≡ a
last-append [] a = refl
last-append (x ∷ []) a = refl
last-append (x ∷ y ∷ xs) a = last-append (y ∷ xs) a

Chain-snoc :
    (next : ℕ → ℕ) (p a x : ℕ) (xs : List ℕ)
    → 1 < a
    → count a (x ∷ xs) ≡ 0
    → ((j : ℕ) → count j (x ∷ xs) ≤ 1)
    → Chain next p (x ∷ xs)
    → Chain (update (update next a 0) (last (x ∷ xs)) a) p (x ∷ xs ++ a ∷ [])
Chain-snoc next p a x [] big out once c =
    let ne : x ≢ a = λ e. omega (arith, out, ap (λ z. count z (x ∷ [])) e, last-count x []) in
    (
      c.0,
      c.1,
      (
        update_self (update next a 0) x a,
        big,
        update_ne (update next a 0) a ne ∙ update_self next a 0,
      ),
    )
Chain-snoc next p a x (y ∷ xs) big out once c =
    let here : 1 ≤ count x (x ∷ []) = last-count x [] in
    let ne : a ≢ x = λ e. omega (arith, out, here, ap (λ z. count z (x ∷ y ∷ xs)) e) in
    let later : last (y ∷ xs) ≢ x =
      λ e. omega (arith, once x, here, last-count y xs, ap (λ z. count z (y ∷ xs)) e) in
    let keeps : update (update next a 0) (last (y ∷ xs)) a x ≡ next x =
      update_ne (update next a 0) a later ∙ update_ne next 0 ne in
    (
      c.0,
      c.1,
      rw keeps (
          Chain-snoc next (next x) a y xs big (omega (arith, out)) (λ j. omega (arith, once j))
            c.2),
    )

last-pos : (next : ℕ → ℕ) (p x : ℕ) (xs : List ℕ) → Chain next p (x ∷ xs) → 1 < last (x ∷ xs)
last-pos next p x [] c = c.1
last-pos next p x (y ∷ xs) c = last-pos next (next x) y xs c.2

pop-tail :
    (next : ℕ → ℕ) (p tail x : ℕ) (xs : List ℕ)
    → Chain next p xs
    → tail ≡ last (x ∷ xs)
    → (if p == 0 then 0 else tail) ≡ last xs
pop-tail next p tail x [] c e = ground arith
pop-tail next p tail x (y ∷ xs) c e =
    let test : (p == 0) ≡ false = eqb_ne (λ z. omega (arith, c.0, c.1, z)) in rw test e

once-append :
    (xs : List ℕ) (a : ℕ)
    → count a xs ≡ 0
    → ((j : ℕ) → count j xs ≤ 1)
    → (j : ℕ) → count j (xs ++ a ∷ []) ≤ 1
once-append xs a out once j = elim (eq_or_ne j a) [
  | inl e ↦ ground (arith, count-append j (a ∷ []) xs, ap (λ z. count z xs) e)
  | inr ne ↦ ground (arith, count-append j (a ∷ []) xs, once j)
]

module _ (C : Contexts) (cond : ℕ → C.World → Option Bool) where
  -- `register_cv` puts an awaiter that does not wait yet behind all that wait, and changes nothing of
  -- their order.
  pub register_cv-Listed :
      (m : CondVar C.World) (xs : List ℕ) (me : ℕ)
      → 1 < me
      → count me xs ≡ 0
      → Listed m xs
      → Listed (register_cv C cond me m) (xs ++ me ∷ [])
  unfolding register_cv
  register_cv-Listed m [] me big out l =
      let test : (m.tail == 0) ≡ true = ground (arith, l.tail) in
      rw test (record {
        chain = (refl, big, update_self m.next me 0);
        tail = refl;
        once = once-append [] me refl l.once;
      })
  register_cv-Listed m (x ∷ xs) me big out l =
      let some_last = last-pos m.next m.head x xs l.chain in
      let test : (m.tail == 0) ≡ false = eqb_ne (λ e. omega (arith, some_last, l.tail, e)) in
      rw test (record {
        chain =
            subst (λ z. Chain (update (update m.next me 0) z me) m.head (x ∷ xs ++ me ∷ []))
              (sym l.tail) (Chain-snoc m.next m.head me x xs big out l.once l.chain);
        tail = sym (last-append (x ∷ xs) me);
        once = once-append (x ∷ xs) me out l.once;
      })

  -- `notify_one` takes the one that has waited longest, and wakes it while the others keep their
  -- places.
  pub notify_one-oldest :
      (m : CondVar C.World) (x : ℕ) (xs : List ℕ)
      → Listed m (x ∷ xs)
      → (m2 : CondVar C.World) × (notify_one C cond m ≡ wake_up C cond x m2)
        × Listed m2 xs
        × (m2.mutex_queue ≡ m.mutex_queue)
        × (m2.resumed ≡ m.resumed)
  unfolding notify_one
  notify_one-oldest m x xs l =
      let test : (m.head == 0) ≡ false = eqb_ne (λ e. omega (arith, l.chain.0, l.chain.1, e)) in
      let m2 = record m { head = m.next x; tail = if m.next x == 0 then 0 else m.tail } in
      (
        m2,
        rw (test, l.chain.0) refl,
        record {
          chain = l.chain.2;
          tail = pop-tail m.next (m.next x) m.tail x xs l.chain.2 l.tail;
          once = λ j. omega (arith, l.once j);
        },
        refl,
        refl,
      )
