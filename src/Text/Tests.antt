-- ===== src/Text/Tests.antt =====
-- Texts on which the functions of include/coro/utils.hpp and src/utils.cpp are run.
use tiny_coro_lab.Prelude.{
  ℕ, ◌*◌, ◌^◌, ◌<◌, ◌≡◌, ◌↔◌, refl, arith, true, false, List, [], ◌∷◌, ◌++◌,
}
use tiny_coro_lab.Text.{
  to_lower, get_or, hash, hash_core, equal_chars, equal, all_digits, is_numeric, elem,
  find_first_not_of, find_last_not_of, erase_front, erase_after, drop, take, trim,
}
use tiny_coro_lab.Text.Lower.{to_lower-lower_of}
use tiny_coro_lab.Text.Hash.{hash-exact, lower, equal-lower, equal-hash}
use tiny_coro_lab.Text.Trim.{all_in, bare_front, bare_back, trim-ends}

abbrev host : List ℕ
host = b'H' ∷ b'o' ∷ b's' ∷ b't' ∷ []

abbrev capitals : List ℕ
capitals = b'H' ∷ b'O' ∷ b'S' ∷ b'T' ∷ []

abbrev spaces : List ℕ
spaces = b' ' ∷ []

same_word : equal host capitals ≡ true
unfolding equal equal_chars to_lower get_or
same_word = refl

numbers : (is_numeric (b'4' ∷ b'2' ∷ []) ≡ true) × (is_numeric [] ≡ false)
unfolding is_numeric all_digits
numbers = (refl, refl)

trimmed : trim (b' ' ∷ b'a' ∷ b' ' ∷ b'b' ∷ b' ' ∷ b' ' ∷ []) spaces ≡ b'a' ∷ b' ' ∷ b'b' ∷ []
unfolding trim find_first_not_of find_last_not_of erase_front erase_after elem drop take
trimmed = refl

all_trimmed : trim (b' ' ∷ b' ' ∷ []) spaces ≡ []
unfolding trim find_first_not_of find_last_not_of erase_front erase_after elem drop take
all_trimmed = refl

to_lower-lower_of_run :
    (to_lower b'Q' ≡ b'q') × (to_lower b'Q' < 256) × (to_lower (to_lower b'Q') ≡ to_lower b'Q')
to_lower-lower_of_run = to_lower-lower_of b'Q' (omega arith)

hash-exact_example :
    (hash (host ++ capitals) ≡ hash_core capitals (hash host))
    × (hash host < 2 ^ 58)
    × (hash host * 33 < 2 ^ 64)
hash-exact_example = hash-exact host capitals

equal-lower_run : (equal host capitals ≡ true) ↔ (lower host ≡ lower capitals)
equal-lower_run = equal-lower host capitals

equal-hash_run : hash host ≡ hash capitals
equal-hash_run = equal-hash host capitals same_word

trim-ends_example :
    (pre : List ℕ) × (post : List ℕ) × (host ≡ pre ++ (trim host spaces ++ post))
    × (all_in spaces pre ≡ true)
    × (all_in spaces post ≡ true)
    × (bare_front spaces (trim host spaces) ≡ true)
    × (bare_back spaces (trim host spaces) ≡ true)
trim-ends_example = trim-ends host spaces
