-- ===== src/Waiters.antt =====
-- The intrusive lists of awaiters (`m_next`) that the components hang on one atomic pointer. An
-- awaiter is its address; `next` holds the field `m_next` of every awaiter. The addresses 0 and 1
-- are no awaiter: they are `nullptr` and the mark `mutex::nolocked`.
use tiny_coro_lab.Contexts.{Contexts}
use tiny_coro_lab.Prelude.{
  sym, subst, ◌∙◌, ℕ, ◌≡◌, refl, ◌≢◌, ◌<◌, List, [], ◌∷◌, arith, update, count,
}

-- From `p` the fields `m_next` lead through `xs` to `nullptr`.
abbrev pub Chain : (ℕ → ℕ) → ℕ → List ℕ → Type 0
Chain next p [] = p ≡ 0
Chain next p (x ∷ xs) = (p ≡ x) × (1 < x) × Chain next (next x) xs

-- A write to an awaiter that is not in the chain leaves the chain as it is.
pub Chain-update :
    (next : ℕ → ℕ) (p a v : ℕ) (xs : List ℕ)
    → count a xs ≡ 0
    → Chain next p xs
    → Chain (update next a v) p xs
Chain-update next p a v [] out c = c
Chain-update next p a v (x ∷ xs) out c = ground (arith, Chain-update next (next x) a v xs)

pub Chain-nil : (next : ℕ → ℕ) (xs : List ℕ) → Chain next 0 xs → xs ≡ []
Chain-nil next [] c = refl
Chain-nil next (x ∷ xs) c = absurd (omega arith)

pub Chain-ne_one : (next : ℕ → ℕ) (p : ℕ) (xs : List ℕ) → Chain next p xs → p ≢ 1
Chain-ne_one next p [] c = omega arith
Chain-ne_one next p (x ∷ xs) c = omega arith

pub Chain-ne_nil : (next : ℕ → ℕ) (p : ℕ) (xs : List ℕ) → p ≢ 0 → Chain next p xs → xs ≢ []
Chain-ne_nil next p [] h c = absurd (h c)
Chain-ne_nil next p (x ∷ xs) h c = ground arith

cons-eq : {x y : ℕ} {xs ys : List ℕ} → x ≡ y → xs ≡ ys → x ∷ xs ≡ y ∷ ys
cons-eq e h = cc

-- The chain from a pointer is determined.
pub Chain-unique :
    (next : ℕ → ℕ) (p : ℕ) (xs ys : List ℕ) → Chain next p xs → Chain next p ys → xs ≡ ys
Chain-unique next p [] [] c d = refl
Chain-unique next p [] (y ∷ ys) c d = absurd (omega arith)
Chain-unique next p (x ∷ xs) [] c d = absurd (omega arith)
Chain-unique next p (x ∷ xs) (y ∷ ys) c d =
    let e : x ≡ y = sym c.0 ∙ d.0 in
    cons-eq e (Chain-unique next (next y) xs ys (subst (λ z. Chain next (next z) xs) e c.2) d.2)

pub Chain-ne_zero : (next : ℕ → ℕ) (p : ℕ) (xs : List ℕ) → xs ≢ [] → Chain next p xs → p ≢ 0
Chain-ne_zero next p [] h c = absurd (h refl)
Chain-ne_zero next p (x ∷ xs) h c = omega arith

-- The handles of the awaiters go to their contexts, in the order of the list.
unfoldable pub submit_all : (C : Contexts) → (ctx await_coro : ℕ → ℕ) → List ℕ → C.World → C.World
submit_all C ctx await_coro [] w = w
submit_all C ctx await_coro (x ∷ xs) w =
    submit_all C ctx await_coro xs (C.submit_task (ctx x) (await_coro x) w)
