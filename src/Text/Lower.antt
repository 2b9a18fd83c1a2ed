-- ===== src/Text/Lower.antt =====
-- The table of `to_lower` of include/coro/utils.hpp.
use tiny_coro_lab.Prelude.{
  ℕ, zero, suc, ◌+◌, ◌%◌, ◌^◌, ◌≡◌, refl, sym, ap, ◌∙◌, subst, ◌<◌, arith, Bool, true, not, ◌&&◌,
  ◌||◌, inl, inr, Bool-cases, leb, ◌==◌, eqb_sound, List, [], ◌∷◌, length, if◌then◌else◌,
}
use mathlib.Core.Bool.{false≢true}
use tiny_coro_lab.Text.{table, get_or, to_lower}

-- Lower case in Latin-1: the capitals of ASCII, and those from 192 to 222 but for the sign 215.
abbrev pub lower_of : ℕ → ℕ
lower_of c =
    if (leb b'A' c && leb c b'Z') || (leb 192 c && leb c 222 && not (c == 215)) then c + 32 else c

-- The entries of a table, the first of them for the byte `i`, are in lower case.
entries_lower : ℕ → List ℕ → Bool
entries_lower i [] = true
entries_lower i (x ∷ xs) = (x == lower_of i) && entries_lower (i + 1) xs

plus_zero : (i : ℕ) → i ≡ i + 0
plus_zero i = omega arith

plus_suc : (i j : ℕ) → i + 1 + j ≡ i + suc j
plus_suc i j = omega arith

zero_plus : (c : ℕ) → 0 + c ≡ c
zero_plus c = omega arith

mod_byte : (c : ℕ) → c < 256 → c % 2 ^ 8 ≡ c
mod_byte c small = omega arith

entries_lower-get_or :
    (i : ℕ) (xs : List ℕ) (j : ℕ)
    → entries_lower i xs ≡ true
    → j < length xs
    → get_or xs j 0 ≡ lower_of (i + j)
unfolding entries_lower get_or
entries_lower-get_or i [] j h small = absurd (omega (arith, small))
entries_lower-get_or i (x ∷ xs) zero h small = elim (Bool-cases (x == lower_of i)) [
  | inl fits ↦ eqb_sound fits ∙ ap lower_of (plus_zero i)
  | inr differs ↦ absurd (false≢true (rw differs at h))
]
entries_lower-get_or i (x ∷ xs) (suc j) h small = elim (Bool-cases (x == lower_of i)) [
  | inl fits ↦
      entries_lower-get_or (i + 1) xs j (rw fits at h) (omega (arith, small))
      ∙ ap lower_of (plus_suc i j)
  | inr differs ↦ absurd (false≢true (rw differs at h))
]

table-lower : entries_lower 0 table ≡ true
unfolding entries_lower
table-lower = refl

table_entry : (c : ℕ) → c < 256 → to_lower c ≡ lower_of c
unfolding to_lower
table_entry c small =
    ap (λ n. get_or table n 0) (mod_byte c small)
    ∙ entries_lower-get_or 0 table c table-lower small
    ∙ ap lower_of (zero_plus c)

-- The table writes every byte in lower case, after Latin-1: the result is a byte, and is in lower
-- case already.
pub to_lower-lower_of :
    (c : ℕ)
    → c < 256
    → (to_lower c ≡ lower_of c) × (to_lower c < 256) × (to_lower (to_lower c) ≡ to_lower c)
to_lower-lower_of c small =
    let e = table_entry c small in
    let byte : to_lower c < 256 = ground (arith, e, small) in
    (e, byte, table_entry (to_lower c) byte ∙ ap lower_of e ∙ lower_again c ∙ sym e)
  where
    lower_again : (c : ℕ) → lower_of (lower_of c) ≡ lower_of c
    lower_again c = ground arith

-- A `char` of any value is first cast to a byte.
pub to_lower-lt : (c : ℕ) → to_lower c < 256
unfolding to_lower get_or
to_lower-lt c =
    let byte = (to_lower-lower_of (c % 256) (omega arith)).1 in
    subst (λ n. get_or table n 0 < 256) (mod_mod c) byte
  where
    mod_mod : (c : ℕ) → c % 256 % 256 ≡ c % 256
    mod_mod c = omega arith
