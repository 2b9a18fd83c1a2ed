-- ===== src/Text/Hash.antt =====
-- The hash and the comparison of include/coro/utils.hpp, which an unordered map uses together.
use Prim.Native.Nat.{bit_xor, digits, differ, bit_xor-bitwise}
use native.Mathlib.Nat.{pow-suc}
use tiny_coro_lab.Prelude.{
  ℕ, zero, suc, ◌*◌, ◌/◌, ◌%◌, ◌^◌, ◌≡◌, refl, sym, ◌∙◌, ap, ◌<◌, arith, true, inl, inr, Bool-cases,
  ◌==◌, eqb_sound, eqb_refl, ◌↔◌, List, [], ◌∷◌, length, ◌++◌,
}
use mathlib.Core.Bool.{false≢true}
use mathlib.Core.List.{nil≢cons, head-eq_of_cons-eq, tail-eq_of_cons-eq}
use tiny_coro_lab.Text.Lower.{to_lower-lt}
use tiny_coro_lab.Text.{to_lower, hash_core, hash, equal_chars, equal}

-- The exclusive or of two numbers of `w` bits has `w` bits.
digits-lt-pow : (w n a b : ℕ) → a < 2 ^ w → b < 2 ^ w → digits (λ b. b) differ n a b < 2 ^ w
digits-lt-pow w zero a b ha hb = hb
digits-lt-pow w (suc n) zero b ha hb = hb
digits-lt-pow zero (suc n) (suc a) b ha hb = absurd (omega arith)
digits-lt-pow (suc w) (suc n) (suc a) b ha hb =
    let twice = pow-suc 2 w in
    omega (
      arith,
      twice,
      ha,
      hb,
      digits-lt-pow w n (suc a / 2) (b / 2) (omega (arith, twice, ha)) (omega (arith, twice, hb)),
      differ-at_most (suc a % 2) (b % 2) (omega arith) (omega arith),
    )
  where
    differ-at_most : (x y : ℕ) → x < 2 → y < 2 → differ x y < 2
    differ-at_most zero y hx hy = hy
    differ-at_most (suc x) zero hx hy = hx
    differ-at_most (suc x) (suc y) hx hy =
        differ-at_most x y (omega (arith, hx)) (omega (arith, hy))

pub bit_xor-lt-pow : (w a b : ℕ) → a < 2 ^ w → b < 2 ^ w → bit_xor a b < 2 ^ w
bit_xor-lt-pow w a b ha hb = omega (arith, bit_xor-bitwise a b, digits-lt-pow w a a b ha hb)

hash_core-append : (s u : List ℕ) (h : ℕ) → hash_core (s ++ u) h ≡ hash_core u (hash_core s h)
unfolding hash_core
hash_core-append [] u h = refl
hash_core-append (c ∷ s) u h = hash_core-append s u _

hash_core-lt : (s : List ℕ) (h : ℕ) → h < 2 ^ 58 → hash_core s h < 2 ^ 58
unfolding hash_core
hash_core-lt [] h small = small
hash_core-lt (c ∷ s) h small = hash_core-lt s (bit_xor (h * 33 % 2 ^ 64 % 2 ^ 58) (to_lower c)) (
    bit_xor-lt-pow 58 (h * 33 % 2 ^ 64 % 2 ^ 58) (to_lower c) (omega arith)
      (omega (arith, to_lower-lt c)))

-- No multiplication of the hash overflows: wherever the loop stands in a text, what it has computed is
-- the hash of the part before, from which it computes the hash of the whole text; that value has 58
-- bits, and times 33 it fits the 64 bits of a `size_t`.
pub hash-exact :
    (before rest : List ℕ)
    → (hash (before ++ rest) ≡ hash_core rest (hash before))
      × (hash before < 2 ^ 58)
      × (hash before * 33 < 2 ^ 64)
unfolding hash
hash-exact before rest =
    let small = hash_core-lt before 0 (omega arith) in
    (hash_core-append before rest 0, small, omega (arith, small))

abbrev pub lower : List ℕ → List ℕ
lower [] = []
lower (c ∷ s) = to_lower c ∷ lower s

equal_chars-lower :
    (a b : List ℕ) → length a ≡ length b → equal_chars a b ≡ true → lower a ≡ lower b
unfolding equal_chars
equal_chars-lower [] [] e h = refl
equal_chars-lower [] (cb ∷ b) e h = absurd (omega (arith, e))
equal_chars-lower (ca ∷ a) [] e h = absurd (false≢true h)
equal_chars-lower (ca ∷ a) (cb ∷ b) e h = elim (Bool-cases (to_lower ca == to_lower cb)) [
  | inl same ↦
      ap (λ x. x ∷ lower a) (eqb_sound same)
      ∙ ap (λ l. to_lower cb ∷ l) (equal_chars-lower a b (omega (arith, e)) (rw same at h))
  | inr differs ↦ absurd (false≢true (rw differs at h))
]

lower-equal_chars :
    (a b : List ℕ) → lower a ≡ lower b → (length a ≡ length b) × (equal_chars a b ≡ true)
unfolding equal_chars
lower-equal_chars [] [] h = (refl, refl)
lower-equal_chars [] (cb ∷ b) h = absurd (nil≢cons h)
lower-equal_chars (ca ∷ a) [] h = absurd (nil≢cons (sym h))
lower-equal_chars (ca ∷ a) (cb ∷ b) h =
    let (same, rest) = lower-equal_chars a b (tail-eq_of_cons-eq h) in
    (ap suc same, rw (head-eq_of_cons-eq h, eqb_refl (to_lower cb)) rest)

hash_core-lower : (a b : List ℕ) (h : ℕ) → lower a ≡ lower b → hash_core a h ≡ hash_core b h
unfolding hash_core
hash_core-lower [] [] h e = refl
hash_core-lower [] (cb ∷ b) h e = absurd (nil≢cons e)
hash_core-lower (ca ∷ a) [] h e = absurd (nil≢cons (sym e))
hash_core-lower (ca ∷ a) (cb ∷ b) h e =
    rw (head-eq_of_cons-eq e) (hash_core-lower a b _ (tail-eq_of_cons-eq e))

-- Two texts are equal by `equal` exactly when they are the same in lower case.
pub equal-lower : (a b : List ℕ) → (equal a b ≡ true) ↔ (lower a ≡ lower b)
unfolding equal
equal-lower a b = (forth, back)
  where
    forth : equal a b ≡ true → lower a ≡ lower b
    forth h = elim (Bool-cases (length a == length b)) [
      | inl same ↦ equal_chars-lower a b (eqb_sound same) (rw same at h)
      | inr differs ↦ absurd (false≢true (rw differs at h))
    ]

    back : lower a ≡ lower b → equal a b ≡ true
    back e = let (same, chars) = lower-equal_chars a b e in rw (same, eqb_refl (length b)) chars

-- Texts that `equal` takes for the same have the same hash.
pub equal-hash : (a b : List ℕ) → equal a b ≡ true → hash a ≡ hash b
unfolding hash
equal-hash a b h = hash_core-lower a b 0 ((equal-lower a b).0 h)
