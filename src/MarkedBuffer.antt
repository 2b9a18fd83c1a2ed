-- ===== src/MarkedBuffer.antt =====
-- include/coro/marked_buffer.hpp: a fixed number of buffers that are lent out by their index. An item
-- is its index, or nothing if it is invalid; the pointer of a valid item is that of its index.
pub mod Lending
mod Tests
use tiny_coro_lab.Prelude.{
  ℕ, zero, suc, ◌+◌, ◌-◌, Bool, true, false, Option, none, some, List, [], ◌∷◌, ◌++◌, ltb, update,
  if◌then◌else◌,
}

-- `data` as a function of the index, and `que`, front first.
pub record MarkedBuffer {ℓ} (A : Type ℓ) : Type ℓ where
  pub contents : ℕ → A
  pub que : List ℕ

-- `item`: `none` stands for the index -1 and the pointer `nullptr`.
abbrev pub Item : Type 0
Item = Option ℕ

-- The indices that the loop of `set_data` pushes, from `i` on, `n` of them.
unfoldable pub indices : ℕ → ℕ → List ℕ
indices i zero = []
indices i (suc n) = i ∷ indices (i + 1) n

pub valid : Item → Bool
valid none = false
valid (some _) = true

module _ {ℓ} {A : Type ℓ} where
  unfoldable pub init : MarkedBuffer A → MarkedBuffer A
  init b = record b { que = [] }

  -- Every index is pushed, and every buffer up to `length` gets its value.
  unfoldable pub set_data : (length : ℕ) → (ℕ → A) → MarkedBuffer A → MarkedBuffer A
  unfolding indices
  set_data length values b = record {
    contents = λ i. if ltb i length then values i else b.contents i;
    que = b.que ++ indices 0 length;
  }

  unfoldable pub borrow : List ℕ → MarkedBuffer A → Item × MarkedBuffer A
  borrow [] b = (none, b)
  borrow (idx ∷ rest) b = (some idx, record b { que = rest })

  unfoldable pub borrow_item : MarkedBuffer A → Item × MarkedBuffer A
  unfolding borrow
  borrow_item b = borrow b.que b

  -- An invalid item is ignored.
  unfoldable pub return_back : Item → MarkedBuffer A → MarkedBuffer A
  return_back none b = b
  return_back (some idx) b = record b { que = b.que ++ idx ∷ [] }
