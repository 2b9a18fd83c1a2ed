-- ===== src/Prelude/Lists.antt =====
-- Lists measured by native numbers, and how often a number occurs in one.
use Prim.Native.Nat.{ℕ, suc, ◌+◌}
use mathlib.Core.Path.{◌≡◌, refl, ap}
use mathlib.Core.Logic.{◌≢◌}
use mathlib.Core.List.{List, [], ◌∷◌, ◌++◌, reverse, reverse-cons}
use native.Mathlib.Omega.{arith}
use tiny_coro_lab.Prelude.Tests.{◌==◌, eqb_refl, if◌then◌else◌}

module _ {ℓ} {A : Type ℓ} where
  abbrev pub length : List A → ℕ
  length [] = 0
  length (x ∷ xs) = suc (length xs)

  pub length-append : (xs ys : List A) → length (xs ++ ys) ≡ length xs + length ys
  length-append [] ys = omega arith
  length-append (x ∷ xs) ys = omega (arith, length-append xs ys)

-- How often a number stands in a list.
abbrev pub count : ℕ → List ℕ → ℕ
count a [] = 0
count a (x ∷ xs) = count a xs + (if a == x then 1 else 0)

pub count_self : (a : ℕ) (xs : List ℕ) → count a (a ∷ xs) ≡ suc (count a xs)
count_self a xs = rw (eqb_refl a) (omega arith)

pub count-ne_head : (a x : ℕ) (xs : List ℕ) → count a (x ∷ xs) ≡ 0 → a ≢ x
count-ne_head a x xs h e = absurd (omega (arith, h, count_self x xs, ap (λ y. count y (x ∷ xs)) e))

module _ (p : ℕ) (later : List ℕ) where
  pub count-append : (first : List ℕ) → count p (first ++ later) ≡ count p later + count p first
  count-append [] = omega arith
  count-append (q ∷ first) = omega (arith, count-append first)

pub count-reverse : (a : ℕ) (xs : List ℕ) → count a (reverse xs) ≡ count a xs
count-reverse a [] = refl
count-reverse a (x ∷ xs) =
    rw (reverse-cons x xs) (omega (arith, count-append a (x ∷ []) (reverse xs), count-reverse a xs))

pub length-reverse {ℓ} : {A : Type ℓ} (xs : List A) → length (reverse xs) ≡ length xs
length-reverse [] = refl
length-reverse (x ∷ xs) =
    rw (reverse-cons x xs) (omega (arith, length-append (reverse xs) (x ∷ []), length-reverse xs))
