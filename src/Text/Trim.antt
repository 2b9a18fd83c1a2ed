-- ===== src/Text/Trim.antt =====
-- `trim` of src/utils.cpp.
use tiny_coro_lab.Prelude.{
  ℕ, suc, ◌≡◌, refl, sym, ◌∙◌, ap, subst, Bool, true, ◌&&◌, not, inl, inr, Bool-cases, Option, none,
  some, Option-cases, List, [], ◌∷◌, ◌++◌, if◌then◌else◌,
}
use tiny_coro_lab.Text.{
  elem, map_suc, find_first_not_of, find_last_not_of, drop, take, erase_front, erase_after, trim,
}

-- All bytes of a text are among those to trim.
abbrev pub all_in : List ℕ → List ℕ → Bool
all_in ds [] = true
all_in ds (c ∷ s) = elem c ds && all_in ds s

-- A text is empty or its first byte stays.
abbrev pub bare_front : List ℕ → List ℕ → Bool
bare_front ds [] = true
bare_front ds (c ∷ s) = not (elem c ds)

abbrev last_bare : List ℕ → ℕ → List ℕ → Bool
last_bare ds c [] = not (elem c ds)
last_bare ds c (d ∷ s) = last_bare ds d s

-- A text is empty or its last byte stays.
abbrev pub bare_back : List ℕ → List ℕ → Bool
bare_back ds [] = true
bare_back ds (c ∷ s) = last_bare ds c s

erase_front-map_suc :
    (o : Option ℕ) (c : ℕ) (s : List ℕ) → erase_front (map_suc o) (c ∷ s) ≡ erase_front o s
unfolding erase_front drop
erase_front-map_suc none c s = refl
erase_front-map_suc (some n) c s = refl

front_splits :
    (ds s : List ℕ)
    → (let r = erase_front (find_first_not_of ds s) s in
        (pre : List ℕ) × (s ≡ pre ++ r) × (all_in ds pre ≡ true) × (bare_front ds r ≡ true))
unfolding find_first_not_of erase_front drop
front_splits ds [] = ([], refl, refl, refl)
front_splits ds (c ∷ s) = elim (Bool-cases (elem c ds)) [
  | inl trims ↦
      let (pre, split, all, bare) = front_splits ds s in
      rw (trims, erase_front-map_suc (find_first_not_of ds s) c s)
        (c ∷ pre, ap (λ l. c ∷ l) split, rw trims all, bare)
  | inr stays ↦ rw stays ([], refl, refl, rw stays refl)
]

find_last-none :
    (ds : List ℕ) (c : ℕ) (s : List ℕ)
    → find_last_not_of ds s ≡ none
    → find_last_not_of ds (c ∷ s) ≡ (if elem c ds then none else some 0)
unfolding find_last_not_of
find_last-none ds c s e = rw e refl

find_last-some :
    (ds : List ℕ) (c n : ℕ) (s : List ℕ)
    → find_last_not_of ds s ≡ some n
    → find_last_not_of ds (c ∷ s) ≡ some (suc n)
unfolding find_last_not_of
find_last-some ds c n s e = rw e refl

-- What `erase_after` does at a place of the last byte that stays.
abbrev Splits : List ℕ → List ℕ → Option ℕ → Type 0
Splits ds s last =
    (post : List ℕ) × (s ≡ erase_after last s ++ post)
    × (all_in ds post ≡ true)
    × (bare_back ds (erase_after last s) ≡ true)

back-Splits : (ds s : List ℕ) → Splits ds s (find_last_not_of ds s)
unfolding find_last_not_of erase_after take
back-Splits ds [] = ([], refl, refl, refl)
back-Splits ds (c ∷ []) = elim (Bool-cases (elem c ds)) [
  | inl trims ↦ rw trims (c ∷ [], refl, rw trims refl, refl)
  | inr stays ↦ rw stays ([], refl, refl, rw stays refl)
]
back-Splits ds (c ∷ d ∷ s) = elim (Option-cases (find_last_not_of ds (d ∷ s))) [
  | inl all_trimmed ↦
      let (post, split, all, bare) =
        subst (Splits ds (d ∷ s)) all_trimmed (back-Splits ds (d ∷ s)) in
      elim (Bool-cases (elem c ds)) [
        | inl trims ↦
            let at =
              find_last-none ds c (d ∷ s) all_trimmed
              ∙ ap (λ b. if b then none else some 0) trims in
            subst (Splits ds (c ∷ d ∷ s)) (sym at)
              (c ∷ post, ap (λ l. c ∷ l) split, rw trims all, refl)
        | inr stays ↦
            let at =
              find_last-none ds c (d ∷ s) all_trimmed
              ∙ ap (λ b. if b then none else some 0) stays in
            subst (Splits ds (c ∷ d ∷ s)) (sym at) (post, ap (λ l. c ∷ l) split, all, rw stays refl)
      ]
  | inr (n, found) ↦
      let (post, split, all, bare) = subst (Splits ds (d ∷ s)) found (back-Splits ds (d ∷ s)) in
      subst (Splits ds (c ∷ d ∷ s)) (sym (find_last-some ds c n (d ∷ s) found))
        (post, ap (λ l. c ∷ l) split, all, bare)
]

bare_front-append : (ds t post : List ℕ) → bare_front ds (t ++ post) ≡ true → bare_front ds t ≡ true
bare_front-append ds [] post h = refl
bare_front-append ds (c ∷ t) post h = h

-- `trim` takes away bytes to trim from both ends, and no other bytes, and leaves none there: what is
-- left is empty or begins and ends with a byte that stays.
pub trim-ends :
    (s to_trim : List ℕ)
    → (pre : List ℕ) × (post : List ℕ) × (s ≡ pre ++ (trim s to_trim ++ post))
      × (all_in to_trim pre ≡ true)
      × (all_in to_trim post ≡ true)
      × (bare_front to_trim (trim s to_trim) ≡ true)
      × (bare_back to_trim (trim s to_trim) ≡ true)
unfolding trim
trim-ends [] ds = ([], [], refl, refl, refl, refl, refl)
trim-ends (c ∷ s) ds =
    let (pre, split, all, bare) = front_splits ds (c ∷ s) in
    let (post, split', all', bare') =
      back-Splits ds (erase_front (find_first_not_of ds (c ∷ s)) (c ∷ s)) in
    (
      pre,
      post,
      split ∙ ap (λ l. pre ++ l) split',
      all,
      all',
      bare_front-append ds _ post (subst (λ l. bare_front ds l ≡ true) split' bare),
      bare',
    )
