-- ===== src/Mutex/Invariant.antt =====
-- How the words and lists of src/comp/mutex.cpp stand for an owner and a queue. `arrivals` hangs on
-- `m_state`, newest first; `fifo` is what the owner has taken over, oldest first.
use tiny_coro_lab.Prelude.{
  ℕ, ◌+◌, ◌≡◌, ◌≢◌, subst, Bool, false, List, [], ◌∷◌, ◌++◌, Option, none, some, arith, reverse, ap,
  count, count-append, count-reverse, update, ◌==◌,
}
use tiny_coro_lab.Waiters.{Chain, Chain-update}
use tiny_coro_lab.Mutex.{
  Pc, idle, loading, try_free, linked, parked, acquired, owner, unlock_cas, unlock_take, reversing,
  popping, handing, holds, waiting,
}

abbrev pub is_owner : Option ℕ → ℕ → Bool
is_owner none i = false
is_owner (some o) i = o == i

-- What `m_state` says.
abbrev pub Word : (ℕ → ℕ) → ℕ → Option ℕ → List ℕ → Type 0
Word next state none xs = (state ≡ 1) × (xs ≡ [])
Word next state (some o) xs = Chain next state xs

-- The list that is being reversed: `ps` is still to be turned, `qs` is turned.
pub record Reversing (next : ℕ → ℕ) (p q : ℕ) (fifo : List ℕ) : Type 0 where
  pub ps : List ℕ
  pub qs : List ℕ
  pub left : Chain next p ps
  pub some_left : ps ≢ []
  pub turned : Chain next q qs
  pub whole : fifo ≡ reverse ps ++ qs

pub record Handing (next : ℕ → ℕ) (head t : ℕ) (fifo : List ℕ) : Type 0 where
  pub rest : List ℕ
  pub first : fifo ≡ t ∷ rest
  pub chain : Chain next head rest

-- What `m_resume_list_head` and the local variables of the owner say, by where the owner stands.
abbrev pub Shape : (ℕ → ℕ) → (state head : ℕ) → Pc → List ℕ → Type 0
Shape next state head idle fifo = Unit {0}
Shape next state head loading fifo = Unit {0}
Shape next state head try_free fifo = Unit {0}
Shape next state head (linked _) fifo = Unit {0}
Shape next state head parked fifo = Unit {0}
Shape next state head acquired fifo = Chain next head fifo
Shape next state head owner fifo = Chain next head fifo
Shape next state head unlock_cas fifo = (head ≡ 0) × (fifo ≡ [])
Shape next state head unlock_take fifo = (head ≡ 0) × (fifo ≡ []) × (state ≢ 0)
Shape next state head (reversing p q) fifo = (head ≡ 0) × Reversing next p q fifo
Shape next state head (popping t) fifo = (fifo ≢ []) × Chain next t fifo
Shape next state head (handing t) fifo = Handing next head t fifo

abbrev pub Private : (ℕ → ℕ) → (state head : ℕ) → (ℕ → Pc) → Option ℕ → List ℕ → Type 0
Private next state head pc none fifo = (head ≡ 0) × (fifo ≡ [])
Private next state head pc (some o) fifo = Shape next state head (pc o) fifo

-- Before its compare-exchange an awaiter points to the head that `register_lock` has read.
abbrev pub Linked : (ℕ → ℕ) → ℕ → Pc → Type 0
Linked next i idle = Unit {0}
Linked next i (linked old) = (next i ≡ old) × (old ≢ 1)
Linked next i _ = Unit {0}

-- A coroutine is suspended exactly when it is in one of the lists, and then once; the owner is the
-- one coroutine that holds the lock.
pub record Inv (next : ℕ → ℕ) (state head : ℕ) (pc : ℕ → Pc) (o : Option ℕ) (xs fifo : List ℕ)
    : Type 0 where
  pub members : (i : ℕ) → count i xs + count i fifo ≡ waiting (pc i)
  pub owners : (i : ℕ) → holds (pc i) ≡ is_owner o i
  pub links : (i : ℕ) → Linked next i (pc i)
  pub word : Word next state o xs
  pub private : Private next state head pc o fifo

pub Reversing-update :
    (next : ℕ → ℕ) (p q a v : ℕ) (fifo : List ℕ)
    → count a fifo ≡ 0
    → Reversing next p q fifo
    → Reversing (update next a v) p q fifo
Reversing-update next p q a v fifo out r = record {
  ps = r.ps;
  qs = r.qs;
  left = Chain-update next p a v r.ps (omega (arith, counts)) r.left;
  some_left = r.some_left;
  turned = Chain-update next q a v r.qs (omega (arith, counts)) r.turned;
  whole = r.whole;
}
  where
    counts : count a r.ps + count a r.qs ≡ 0
    counts =
        omega (
          arith,
          count-append a r.qs (reverse r.ps),
          count-reverse a r.ps,
          ap (count a) r.whole,
          out,
        )

-- A write to an awaiter outside the owner's list leaves the owner's part as it is.
pub Shape-update :
    (next : ℕ → ℕ) (state head a v : ℕ) (p : Pc) (fifo : List ℕ)
    → count a fifo ≡ 0
    → Shape next state head p fifo
    → Shape (update next a v) state head p fifo
Shape-update next state head a v idle fifo out s = tt
Shape-update next state head a v loading fifo out s = tt
Shape-update next state head a v try_free fifo out s = tt
Shape-update next state head a v (linked _) fifo out s = tt
Shape-update next state head a v parked fifo out s = tt
Shape-update next state head a v acquired fifo out s = Chain-update next head a v fifo out s
Shape-update next state head a v owner fifo out s = Chain-update next head a v fifo out s
Shape-update next state head a v unlock_cas fifo out s = s
Shape-update next state head a v unlock_take fifo out s = s
Shape-update next state head a v (reversing p q) fifo out s =
    (s.0, Reversing-update next p q a v fifo out s.1)
Shape-update next state head a v (popping t) fifo out s =
    (s.0, Chain-update next t a v fifo out s.1)
Shape-update next state head a v (handing t) fifo out s =
    let inside : count a (t ∷ s.rest) ≡ 0 = subst (λ l. count a l ≡ 0) s.first out in
    record {
      rest = s.rest;
      first = s.first;
      chain = Chain-update next head a v s.rest (omega arith) s.chain;
    }
