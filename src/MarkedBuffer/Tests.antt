-- ===== src/MarkedBuffer/Tests.antt =====
-- Runs of include/coro/marked_buffer.hpp, and its theorems at them.
use tiny_coro_lab.Prelude.{
  ℕ, ◌+◌, ◌*◌, ◌≡◌, ◌<◌, refl, none, some, [], ◌∷◌, arith, count, ltb, if◌then◌else◌,
}
use tiny_coro_lab.MarkedBuffer.{
  MarkedBuffer, indices, init, set_data, borrow_item, borrow, return_back,
}
use tiny_coro_lab.MarkedBuffer.Lending.{Lends, made, borrows, returns, lent_once, borrow_fresh}

abbrev values : ℕ → ℕ
values i = i * 10

abbrev blank : MarkedBuffer ℕ
blank = record { contents = λ _. 0; que = [] }

-- Buffers 0 and 1 of 3 are borrowed, and buffer 0 is given back.
abbrev one_lent : MarkedBuffer ℕ
one_lent = return_back (some 0) (borrow_item (borrow_item (set_data 3 values (init blank))).1).1

one_lent-Lends : Lends 3 values one_lent (1 ∷ [])
unfolding init set_data indices borrow_item borrow return_back
one_lent-Lends = returns 0 (omega arith) (borrows (borrows (made blank)))

one_lent_que : one_lent.que ≡ 2 ∷ 0 ∷ []
unfolding init set_data indices borrow_item borrow return_back
one_lent_que = refl

lent_once_run : count 1 one_lent.que + count 1 (1 ∷ []) ≡ (if ltb 1 3 then 1 else 0)
lent_once_run = lent_once one_lent-Lends 1

borrow_fresh_example :
    ((i : ℕ) → (borrow_item one_lent).0 ≡ some i → (i < 3) × (count i (1 ∷ []) ≡ 0))
    × ((borrow_item one_lent).0 ≡ none → (j : ℕ) → j < 3 → count j (1 ∷ []) ≡ 1)
borrow_fresh_example = borrow_fresh one_lent-Lends
