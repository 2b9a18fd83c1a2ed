-- ===== src/MarkedBuffer/Lending.antt =====
-- No buffer of include/coro/marked_buffer.hpp is lent twice, and none is lost.
use tiny_coro_lab.Prelude.{
  ℕ, zero, suc, ◌+◌, ◌≡◌, refl, ◌<◌, ◌≤◌, ap, none, some, List, [], ◌∷◌, arith, count, count-append,
  ltb, ◌==◌, eq_or_ne, eqb_refl, eqb_ne, inl, inr, if◌then◌else◌,
}
use tiny_coro_lab.MarkedBuffer.{
  MarkedBuffer, Item, indices, init, set_data, borrow_item, borrow, return_back,
}

-- The list without one occurrence of an index.
abbrev pub without : ℕ → List ℕ → List ℕ
without i [] = []
without i (x ∷ xs) = if i == x then xs else x ∷ without i xs

abbrev pub lend : Item → List ℕ → List ℕ
lend none l = l
lend (some i) l = i ∷ l

-- A buffer set up with `n` entries, and the indices that are lent.
pub data Lends {ℓ} {A : Type ℓ} (n : ℕ) (values : ℕ → A) : MarkedBuffer A → List ℕ → Type ℓ where
  made : (b : MarkedBuffer A) → Lends n values (set_data n values (init b)) []
  borrows :
      {b : MarkedBuffer A} {lent : List ℕ}
      → Lends n values b lent
      → Lends n values (borrow_item b).1 (lend (borrow_item b).0 lent)
  returns :
      {b : MarkedBuffer A} {lent : List ℕ} (i : ℕ)
      → 0 < count i lent
      → Lends n values b lent
      → Lends n values (return_back (some i) b) (without i lent)

pub count-indices :
    (j i n : ℕ) → count j (indices i n) ≡ (if ltb j i then 0 else if ltb j (i + n) then 1 else 0)
unfolding indices
count-indices j i zero = ground arith
count-indices j i (suc n) = ground (arith, count-indices j (i + 1) n)

count-without :
    (j i : ℕ) (l : List ℕ)
    → 0 < count i l
    → count j (without i l) + (if j == i then 1 else 0) ≡ count j l
count-without j i [] h = absurd (omega arith)
count-without j i (x ∷ l) h = elim (eq_or_ne i x) [
  | inl e ↦ rw (← e, eqb_refl i) refl
  | inr n ↦ rw (eqb_ne n) (omega (arith, count-without j i l (ground arith)))
]

module _ {ℓ} {A : Type ℓ} {n : ℕ} {values : ℕ → A} where
  -- Each of the `n` indices is free or lent, and not both, and in one place only; no other index is.
  pub lent_once :
      {b : MarkedBuffer A} {lent : List ℕ}
      → Lends n values b lent
      → (j : ℕ) → count j b.que + count j lent ≡ (if ltb j n then 1 else 0)
  unfolding set_data init borrow_item borrow return_back
  lent_once (made b) j = ground (arith, count-indices j 0 n)
  lent_once (borrows {b} {lent} r) j = go b.que refl (lent_once r j)
    where
      go :
          (q : List ℕ)
          → b.que ≡ q
          → count j b.que + count j lent ≡ (if ltb j n then 1 else 0)
          → count j (borrow q b).1.que + count j (lend (borrow q b).0 lent)
            ≡ (if ltb j n then 1 else 0)
      go [] e h = h
      go (x ∷ q) e h = omega (arith, ap (count j) e, h)
  lent_once (returns {b} {lent} i has r) j =
      omega (arith, lent_once r j, count-append j (i ∷ []) b.que, count-without j i lent has)

  -- What `borrow` lends is one of the `n` buffers, and not lent to anyone else; and it refuses only
  -- when all of them are lent.
  pub borrow_fresh :
      {b : MarkedBuffer A} {lent : List ℕ}
      → Lends n values b lent
      → ((i : ℕ) → (borrow_item b).0 ≡ some i → (i < n) × (count i lent ≡ 0))
        × ((borrow_item b).0 ≡ none → (j : ℕ) → j < n → count j lent ≡ 1)
  unfolding borrow_item borrow
  borrow_fresh {b} {lent} r = go b.que refl
    where
      once : (j : ℕ) → count j b.que + count j lent ≡ (if ltb j n then 1 else 0)
      once = lent_once r

      go :
          (q : List ℕ)
          → b.que ≡ q
          → ((i : ℕ) → (borrow q b).0 ≡ some i → (i < n) × (count i lent ≡ 0))
            × ((borrow q b).0 ≡ none → (j : ℕ) → j < n → count j lent ≡ 1)
      go [] e = (λ i h. absurd (ground arith), λ h j less. ground (arith, once j, ap (count j) e))
      go (x ∷ q) e = (
        λ i h.
            let same : x ≡ i = ground arith in
            let here : 1 ≤ count i b.que = ground (arith, ap (count i) e, eqb_refl i) in
            let most = once i in (ground arith, ground arith),
        λ h j less. absurd (ground arith),
      )
