-- ===== src/Mutex/Moves.antt =====
-- The invariant of src/comp/mutex.cpp under each kind of move: by a coroutine that does not hold the
-- lock, by one that takes it or joins the list, and by the owner.
use tiny_coro_lab.Prelude.{
  ℕ, ◌+◌, ◌≡◌, refl, sym, ◌∙◌, ◌≢◌, ◌<◌, subst, true, false, List, [], ◌∷◌, Option, none, some,
  arith, count, update, update_self, update_ne, ◌==◌, eq_or_ne, ap, inl, inr,
}
use tiny_coro_lab.Waiters.{Chain, Chain-update, Chain-nil}
use tiny_coro_lab.Mutex.{
  Pc, idle, linked, parked, acquired, unlock_cas, unlock_take, handing, holds, waiting,
}
use tiny_coro_lab.Mutex.Invariant.{Word, Shape, Private, Linked, Inv, Shape-update}

ne_owner : (o i : ℕ) → (o == i) ≡ false → i ≢ o
ne_owner o i h = ground arith

eq_owner : (o i : ℕ) → (o == i) ≡ true → o ≡ i
eq_owner o i h = ground arith

Linked-holds : (next : ℕ → ℕ) (i : ℕ) (p : Pc) → holds p ≡ true → Linked next i p
Linked-holds next i idle h = tt
Linked-holds next i (linked old) h = absurd (ground arith)
Linked-holds next i _ h = tt

-- What is known of a coroutine's link after the step of another that leaves its `m_next` alone.
Linked-keep :
    (f g : ℕ → ℕ) (i : ℕ) (p : Pc) → (waiting p ≡ 0 → g i ≡ f i) → Linked f i p → Linked g i p
Linked-keep f g i idle same l = tt
Linked-keep f g i (linked old) same l = (same refl ∙ l.0, l.1)
Linked-keep f g i _ same l = tt

Shape-state :
    (next : ℕ → ℕ) (state state' head : ℕ) (p : Pc) (fifo : List ℕ)
    → state' ≢ 0
    → Shape next state head p fifo
    → Shape next state' head p fifo
Shape-state next state state' head unlock_take fifo h s = (s.0, s.1, h)
Shape-state next state state' head _ fifo h s = s

Links-update :
    (next : ℕ → ℕ) (pc : ℕ → Pc) (i : ℕ) (p' : Pc) (g : ℕ → ℕ)
    → ((j : ℕ) → Linked next j (pc j))
    → ((j : ℕ) → i ≢ j → waiting (pc j) ≡ 0 → g j ≡ next j)
    → Linked g i p'
    → (j : ℕ) → Linked g j (update pc i p' j)
Links-update next pc i p' g links same own j = elim (eq_or_ne i j) [
  | inl e ↦ subst (λ k. Linked g k (update pc i p' k)) e (rw (update_self pc i p') own)
  | inr n ↦
      rw (update_ne pc {i = i} {j = j} p' n) (Linked-keep next g j (pc j) (same j n) (links j))
]

module _ {next : ℕ → ℕ} {state head : ℕ} {pc : ℕ → Pc} {xs fifo : List ℕ} where
  Word-outside :
      (o : Option ℕ) (i v : ℕ)
      → Inv next state head pc o xs fifo
      → waiting (pc i) ≡ 0
      → Word (update next i v) state o xs
  Word-outside none i v inv w = inv.word
  Word-outside (some o) i v inv w =
      Chain-update next state i v xs (omega (arith, inv.members i)) inv.word

  Private-outside :
      (o : Option ℕ) (i v : ℕ) (p' : Pc)
      → Inv next state head pc o xs fifo
      → holds (pc i) ≡ false
      → waiting (pc i) ≡ 0
      → Private (update next i v) state head (update pc i p') o fifo
  Private-outside none i v p' inv h w = inv.private
  Private-outside (some o) i v p' inv h w =
      let other : i ≢ o = ne_owner o i (sym (inv.owners i) ∙ h) in
      rw (update_ne pc {i = i} {j = o} p' other)
        (Shape-update next state head i v (pc o) fifo (omega (arith, inv.members i)) inv.private)

  -- A move of `i` with no lock before and after, that writes at most its own `m_next`.
  pub Inv-outside :
      (o : Option ℕ) (i v : ℕ) (p' : Pc)
      → Inv next state head pc o xs fifo
      → holds (pc i) ≡ false
      → waiting (pc i) ≡ 0
      → holds p' ≡ false
      → waiting p' ≡ 0
      → Linked (update next i v) i p'
      → Inv (update next i v) state head (update pc i p') o xs fifo
  Inv-outside o i v p' inv h w h' w' l = record {
    members = λ j. ground (arith, inv.members j);
    owners = λ j. ground (arith, inv.owners j);
    links =
        Links-update next pc i p' (update next i v) inv.links
          (λ j n _. update_ne next {i = i} {j = j} v n) l;
    word = Word-outside o i v inv w;
    private = Private-outside o i v p' inv h w;
  }

  -- `i` takes the free lock.
  pub Inv-acquire :
      (i : ℕ) (p' : Pc)
      → Inv next state head pc none xs fifo
      → waiting (pc i) ≡ 0
      → holds p' ≡ true
      → waiting p' ≡ 0
      → Shape next 0 head p' []
      → Inv next 0 head (update pc i p') (some i) [] []
  Inv-acquire i p' inv w h' w' shape = record {
    members = λ j. ground (arith, inv.members j);
    owners = λ j. ground (arith, inv.owners j);
    links = Links-update next pc i p' next inv.links (λ j _ _. refl) (Linked-holds next i p' h');
    word = refl;
    private = rw (update_self pc i p') shape;
  }

  -- `i` becomes the head of the list on `m_state`.
  pub Inv-enqueue :
      (o i : ℕ)
      → Inv next state head pc (some o) xs fifo
      → pc i ≡ linked state
      → 1 < i
      → Inv next i head (update pc i parked) (some o) (i ∷ xs) fifo
  Inv-enqueue o i inv e big = record {
    members = λ j. ground (arith, inv.members j, inv.members i);
    owners = λ j. ground (arith, inv.owners j, inv.owners i);
    links = Links-update next pc i parked next inv.links (λ j _ _. refl) tt;
    word = (refl, big, rw linked_here inv.word);
    private =
        rw (update_ne pc {i = i} {j = o} parked other)
          (Shape-state next state i head (pc o) fifo (omega arith) inv.private);
  }
    where
      linked_here : next i ≡ state
      linked_here = (subst (Linked next i) e (inv.links i)).0

      other : i ≢ o
      other = ne_owner o i (sym (inv.owners i) ∙ ap holds e)

  -- The owner `i` goes on holding the lock, and rearranges its lists.
  pub Inv-owner :
      (i : ℕ) (p' : Pc) {g : ℕ → ℕ} {state' head' : ℕ} {ys rest : List ℕ}
      → Inv next state head pc (some i) xs fifo
      → waiting (pc i) ≡ 0
      → holds p' ≡ true
      → waiting p' ≡ 0
      → ((j : ℕ) → count j ys + count j rest ≡ count j xs + count j fifo)
      → ((j : ℕ) → waiting (pc j) ≡ 0 → g j ≡ next j)
      → Chain g state' ys
      → Shape g state' head' p' rest
      → Inv g state' head' (update pc i p') (some i) ys rest
  Inv-owner i p' {g} inv w h' w' same frame chain shape = record {
    members = λ j. ground (arith, inv.members j, same j);
    owners = λ j. ground (arith, inv.owners j);
    links = Links-update next pc i p' g inv.links (λ j _. frame j) (Linked-holds g i p' h');
    word = chain;
    private = rw (update_self pc i p') shape;
  }

  -- The owner `i` hands the lock to `t`, the first in line.
  pub Inv-hand_over :
      (i t : ℕ)
      → Inv next state head pc (some i) xs fifo
      → pc i ≡ handing t
      → (rest : List ℕ) × (fifo ≡ t ∷ rest)
        × Inv next state head (update (update pc i idle) t acquired) (some t) xs rest
  Inv-hand_over i t inv e = (
    rest,
    first,
    record {
      members = λ j. ground (arith, inv.members j, inv.members t, counts j, counts t);
      owners = λ j. ground (arith, inv.owners j, inv.owners t);
      links =
          Links-update next (update pc i idle) t acquired next
            (Links-update next pc i idle next inv.links (λ j _ _. refl) tt) (λ j _ _. refl) tt;
      word = inv.word;
      private = rw (update_self (update pc i idle) t acquired) chain;
    },
  )
    where
      open (subst (λ p. Shape next state head p fifo) e inv.private) use {rest, first, chain}

      counts : (j : ℕ) → count j fifo ≡ count j (t ∷ rest)
      counts j = ap (count j) first

-- The owner `i` frees the lock; nobody waits.
pub Inv-release :
    {next : ℕ → ℕ} {head : ℕ} {pc : ℕ → Pc} {xs fifo : List ℕ} (i : ℕ)
    → Inv next 0 head pc (some i) xs fifo
    → pc i ≡ unlock_cas
    → (xs ≡ []) × (fifo ≡ []) × Inv next 1 head (update pc i idle) none [] []
Inv-release {next} {head} {pc} {xs} {fifo} i inv e = (
  empty_list,
  empty_fifo.1,
  record {
    members = λ j. ground (arith, inv.members j, gone j);
    owners = λ j. ground (arith, inv.owners j);
    links = Links-update next pc i idle next inv.links (λ j _ _. refl) tt;
    word = (refl, refl);
    private = (empty_fifo.0, refl);
  },
)
  where
    empty_list : xs ≡ []
    empty_list = Chain-nil next xs inv.word

    empty_fifo : (head ≡ 0) × (fifo ≡ [])
    empty_fifo = subst (λ p. Shape next 0 head p fifo) e inv.private

    gone : (j : ℕ) → count j xs + count j fifo ≡ 0
    gone j = rw (empty_list, empty_fifo.1) refl
