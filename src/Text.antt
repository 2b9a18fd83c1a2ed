-- ===== src/Text.antt =====
-- The texts of include/coro/utils.hpp and src/utils.cpp: lower case, the hash and the comparison that
-- ignore case, digits, and `trim`. A `std::string` is the list of its bytes, and so is a `char*`
-- before its NUL; a `char` or an `unsigned char` is a number below 256.
pub mod Lower
pub mod Hash
pub mod Trim
mod Tests
use Prim.Native.Nat.{bit_xor}
use tiny_coro_lab.Prelude.{
  ℕ, zero, suc, ◌+◌, ◌-◌, ◌*◌, ◌%◌, ◌^◌, Bool, true, false, ◌&&◌, ◌||◌, not, Option, none, some,
  List, [], ◌∷◌, length, ltb, leb, ◌==◌, if◌then◌else◌,
}

abbrev pub table : List ℕ
table =
    0 ∷ 1 ∷ 2 ∷ 3 ∷ 4 ∷ 5 ∷ 6 ∷ 7 ∷ 8 ∷ 9 ∷ 10 ∷ 11 ∷ 12 ∷ 13 ∷ 14 ∷ 15 ∷ 16 ∷ 17 ∷ 18 ∷ 19 ∷ 20
    ∷ 21 ∷ 22 ∷ 23 ∷ 24 ∷ 25 ∷ 26 ∷ 27 ∷ 28 ∷ 29 ∷ 30 ∷ 31 ∷ 32 ∷ 33 ∷ 34 ∷ 35 ∷ 36 ∷ 37 ∷ 38 ∷ 39
    ∷ 40 ∷ 41 ∷ 42 ∷ 43 ∷ 44 ∷ 45 ∷ 46 ∷ 47 ∷ 48 ∷ 49 ∷ 50 ∷ 51 ∷ 52 ∷ 53 ∷ 54 ∷ 55 ∷ 56 ∷ 57 ∷ 58
    ∷ 59 ∷ 60 ∷ 61 ∷ 62 ∷ 63 ∷ 64 ∷ 97 ∷ 98 ∷ 99 ∷ 100 ∷ 101 ∷ 102 ∷ 103 ∷ 104 ∷ 105 ∷ 106 ∷ 107
    ∷ 108 ∷ 109 ∷ 110 ∷ 111 ∷ 112 ∷ 113 ∷ 114 ∷ 115 ∷ 116 ∷ 117 ∷ 118 ∷ 119 ∷ 120 ∷ 121 ∷ 122 ∷ 91
    ∷ 92 ∷ 93 ∷ 94 ∷ 95 ∷ 96 ∷ 97 ∷ 98 ∷ 99 ∷ 100 ∷ 101 ∷ 102 ∷ 103 ∷ 104 ∷ 105 ∷ 106 ∷ 107 ∷ 108
    ∷ 109 ∷ 110 ∷ 111 ∷ 112 ∷ 113 ∷ 114 ∷ 115 ∷ 116 ∷ 117 ∷ 118 ∷ 119 ∷ 120 ∷ 121 ∷ 122 ∷ 123 ∷ 124
    ∷ 125 ∷ 126 ∷ 127 ∷ 128 ∷ 129 ∷ 130 ∷ 131 ∷ 132 ∷ 133 ∷ 134 ∷ 135 ∷ 136 ∷ 137 ∷ 138 ∷ 139 ∷ 140
    ∷ 141 ∷ 142 ∷ 143 ∷ 144 ∷ 145 ∷ 146 ∷ 147 ∷ 148 ∷ 149 ∷ 150 ∷ 151 ∷ 152 ∷ 153 ∷ 154 ∷ 155 ∷ 156
    ∷ 157 ∷ 158 ∷ 159 ∷ 160 ∷ 161 ∷ 162 ∷ 163 ∷ 164 ∷ 165 ∷ 166 ∷ 167 ∷ 168 ∷ 169 ∷ 170 ∷ 171 ∷ 172
    ∷ 173 ∷ 174 ∷ 175 ∷ 176 ∷ 177 ∷ 178 ∷ 179 ∷ 180 ∷ 181 ∷ 182 ∷ 183 ∷ 184 ∷ 185 ∷ 186 ∷ 187 ∷ 188
    ∷ 189 ∷ 190 ∷ 191 ∷ 224 ∷ 225 ∷ 226 ∷ 227 ∷ 228 ∷ 229 ∷ 230 ∷ 231 ∷ 232 ∷ 233 ∷ 234 ∷ 235 ∷ 236
    ∷ 237 ∷ 238 ∷ 239 ∷ 240 ∷ 241 ∷ 242 ∷ 243 ∷ 244 ∷ 245 ∷ 246 ∷ 215 ∷ 248 ∷ 249 ∷ 250 ∷ 251 ∷ 252
    ∷ 253 ∷ 254 ∷ 223 ∷ 224 ∷ 225 ∷ 226 ∷ 227 ∷ 228 ∷ 229 ∷ 230 ∷ 231 ∷ 232 ∷ 233 ∷ 234 ∷ 235 ∷ 236
    ∷ 237 ∷ 238 ∷ 239 ∷ 240 ∷ 241 ∷ 242 ∷ 243 ∷ 244 ∷ 245 ∷ 246 ∷ 247 ∷ 248 ∷ 249 ∷ 250 ∷ 251 ∷ 252
    ∷ 253 ∷ 254 ∷ 255 ∷ []

module _ {ℓ} {A : Type ℓ} where
  pub get_or : List A → ℕ → A → A
  get_or [] i d = d
  get_or (x ∷ xs) zero d = x
  get_or (x ∷ xs) (suc i) d = get_or xs i d

  pub drop : ℕ → List A → List A
  drop zero xs = xs
  drop (suc n) [] = []
  drop (suc n) (x ∷ xs) = drop n xs

  pub take : ℕ → List A → List A
  take zero xs = []
  take (suc n) [] = []
  take (suc n) (x ∷ xs) = x ∷ take n xs

-- The index of the table is cast to `unsigned char`, so it is in range.
pub to_lower : ℕ → ℕ
unfolding get_or
to_lower c = get_or table (c % 2 ^ 8) 0

-- `size_t` has 64 bits; `max() >> 6` masks the 58 low ones.
pub hash_core : List ℕ → ℕ → ℕ
unfolding to_lower
hash_core [] h = h
hash_core (c ∷ s) h = hash_core s (bit_xor (h * 33 % 2 ^ 64 % 2 ^ 58) (to_lower c))

pub hash : List ℕ → ℕ
unfolding hash_core
hash key = hash_core key 0

-- `std::equal` over the first text: the second is not shorter, by the test of the sizes.
pub equal_chars : List ℕ → List ℕ → Bool
unfolding to_lower
equal_chars [] b = true
equal_chars (ca ∷ a) [] = false
equal_chars (ca ∷ a) (cb ∷ b) = (to_lower ca == to_lower cb) && equal_chars a b

pub equal : List ℕ → List ℕ → Bool
unfolding equal_chars
equal a b = (length a == length b) && equal_chars a b

abbrev pub is_digit : ℕ → Bool
is_digit c = leb b'0' c && leb c b'9'

pub all_digits : List ℕ → Bool
all_digits [] = true
all_digits (c ∷ s) = is_digit c && all_digits s

pub is_numeric : List ℕ → Bool
unfolding all_digits
is_numeric str = not (length str == 0) && all_digits str

-- Whether a byte is one of those to trim.
pub elem : ℕ → List ℕ → Bool
elem c [] = false
elem c (d ∷ ds) = (c == d) || elem c ds

abbrev map_suc : Option ℕ → Option ℕ
map_suc none = none
map_suc (some n) = some (suc n)

-- The first and the last place of a byte that is not to be trimmed; `none` is `npos`.
pub find_first_not_of : List ℕ → List ℕ → Option ℕ
unfolding elem
find_first_not_of ds [] = none
find_first_not_of ds (c ∷ s) =
    let rest = find_first_not_of ds s in if elem c ds then map_suc rest else some 0

pub find_last_not_of : List ℕ → List ℕ → Option ℕ
unfolding elem
find_last_not_of ds [] = none
find_last_not_of ds (c ∷ s) =
    let rest = find_last_not_of ds s in
    elim rest [ some n ↦ some (suc n) | none ↦ if elem c ds then none else some 0 ]

-- `erase(0, n)`: `npos` characters are all.
pub erase_front : Option ℕ → List ℕ → List ℕ
unfolding drop
erase_front none s = []
erase_front (some n) s = drop n s

-- `erase(n + 1)`: `npos + 1` is 0.
pub erase_after : Option ℕ → List ℕ → List ℕ
unfolding take
erase_after none s = take 0 s
erase_after (some n) s = take (suc n) s

pub trim : List ℕ → List ℕ → List ℕ
unfolding find_first_not_of find_last_not_of erase_front erase_after
trim [] to_trim = []
trim (c ∷ s) to_trim =
    let s = erase_front (find_first_not_of to_trim (c ∷ s)) (c ∷ s) in
    erase_after (find_last_not_of to_trim s) s
