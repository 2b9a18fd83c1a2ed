-- ===== src/Scheduler/Sum.antt =====
-- Sums over the first indices of a family, for the counts of src/scheduler.cpp.
use tiny_coro_lab.Prelude.{
  ℕ, zero, suc, ◌+◌, ◌≡◌, ◌≢◌, refl, ◌<◌, ◌≤◌, arith, inl, inr, eq_or_ne, ap,
}

abbrev pub sum : (ℕ → ℕ) → ℕ → ℕ
sum f zero = 0
sum f (suc n) = sum f n + f n

sum-same : (f g : ℕ → ℕ) (n i : ℕ) → n ≤ i → ((j : ℕ) → i ≢ j → g j ≡ f j) → sum g n ≡ sum f n
sum-same f g zero i le same = refl
sum-same f g (suc n) i le same =
    omega (arith, sum-same f g n i (omega arith) same, same n (omega arith))

-- The sum follows a change at one index.
pub sum-change :
    (f g : ℕ → ℕ) (n i : ℕ) → i < n → ((j : ℕ) → i ≢ j → g j ≡ f j) → sum g n + f i ≡ sum f n + g i
sum-change f g zero i less same = absurd (omega arith)
sum-change f g (suc n) i less same = elim (eq_or_ne i n) [
  | inl e ↦ omega (arith, sum-same f g n i (omega arith) same, ap f e, ap g e)
  | inr ne ↦ omega (arith, sum-change f g n i (omega arith) same, same n ne)
]

pub sum-const : (n : ℕ) → sum (λ _. 1) n ≡ n
sum-const zero = refl
sum-const (suc n) = omega (arith, sum-const n)

pub sum-zero : (f : ℕ → ℕ) (n : ℕ) → ((i : ℕ) → f i ≡ 0) → sum f n ≡ 0
sum-zero f zero h = refl
sum-zero f (suc n) h = omega (arith, sum-zero f n h, h n)

-- Only one index counts.
pub sum-one : (f : ℕ → ℕ) (n i : ℕ) → i < n → ((j : ℕ) → i ≢ j → f j ≡ 0) → sum f n ≡ f i
sum-one f n i less rest =
    omega (arith, sum-change (λ _. 0) f n i less rest, sum-zero (λ _. 0) n (λ _. refl))

pub sum-bound : (f : ℕ → ℕ) (k : ℕ) → ((i : ℕ) → f i ≤ 1) → sum f k ≤ k
sum-bound f zero h = omega arith
sum-bound f (suc k) h = omega (arith, sum-bound f k h, h k)

pub zero-sum : (f : ℕ → ℕ) (n : ℕ) → sum f n ≡ 0 → (i : ℕ) → i < n → f i ≡ 0
zero-sum f zero h i less = absurd (omega arith)
zero-sum f (suc n) h i less = elim (eq_or_ne i n) [
  | inl e ↦ omega (arith, h, ap f e)
  | inr ne ↦ zero-sum f n (omega arith) i (omega arith)
]

pub sum-none : (f : ℕ → ℕ) (n : ℕ) → ((i : ℕ) → i < n → f i ≡ 0) → sum f n ≡ 0
sum-none f zero h = refl
sum-none f (suc n) h = omega (arith, sum-none f n (λ i less. h i (omega arith)), h n (omega arith))
