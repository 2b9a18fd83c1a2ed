-- ===== src/Event/Moves.antt =====
-- The invariant of src/comp/event.cpp under each kind of move.
use tiny_coro_lab.Prelude.{
  ℕ, ◌≡◌, refl, sym, ◌∙◌, ◌≢◌, ◌<◌, subst, ap, Bool, true, false, List, [], ◌∷◌, Option, none, some,
  arith, count, update, update_self, update_ne, ◌==◌, eq_or_ne, eqb_refl, inl, inr,
}
use tiny_coro_lab.Waiters.{Chain, Chain-update, Chain-nil}
use tiny_coro_lab.Event.{
  Pc, idle, linked, parked, resuming, returned, setting, walking, waiting, walks,
}
use tiny_coro_lab.Event.Invariant.{is_walker, given, Word, Remaining, Walk, Own, Inv}

Word-keep :
    (ev : ℕ) (set : Bool) (f : ℕ → ℕ) (state a v : ℕ) (w : Option ℕ) (xs ys : List ℕ)
    → count a xs ≡ 0
    → Word ev set f state w xs ys
    → Word ev set (update f a v) state w xs ys
Word-keep ev true f state a v w xs ys out x = x
Word-keep ev false f state a v w xs ys out x = (x.0, Chain-update f state a v xs out x.1, x.2, x.3)

module _ {V : Type 0} where
  -- What a coroutine's place says survives the others' steps.
  Own-keep :
      (ev : ℕ) (b set set' : Bool) (v v' : Option V) (f g : ℕ → ℕ) (i : ℕ) (p : Pc V)
      → g i ≡ f i
      → (given v ≡ true → given v' ≡ true)
      → (set ≡ true → set' ≡ true)
      → Own ev b set v f i p
      → Own ev b set' v' g i p
  Own-keep ev b set set' v v' f g i (linked old) e h k o = (e ∙ o.0, o.1)
  Own-keep ev b set set' v v' f g i resuming e h k o = k o
  Own-keep ev b set set' v v' f g i (returned r) e h k o = (k o.0, o.1)
  Own-keep ev b set set' v v' f g i setting e h k o = h o
  Own-keep ev b set set' v v' f g i _ e h k o = tt

  Own-update :
      (ev : ℕ) (b set set' : Bool) (v v' : Option V) (f g : ℕ → ℕ) (pc : ℕ → Pc V) (i : ℕ)
      (p : Pc V)
      → ((j : ℕ) → i ≢ j → g j ≡ f j)
      → (given v ≡ true → given v' ≡ true)
      → (set ≡ true → set' ≡ true)
      → Own ev b set' v' g i p
      → ((j : ℕ) → Own ev b set v f j (pc j))
      → (j : ℕ) → Own ev b set' v' g j (update pc i p j)
  Own-update ev b set set' v v' f g pc i p same h k own o j = elim (eq_or_ne i j) [
    | inl e ↦ subst (λ x. Own ev b set' v' g x (update pc i p x)) e (rw (update_self pc i p) own)
    | inr n ↦
        rw (update_ne pc {i = i} {j = j} p n)
          (Own-keep ev b set set' v v' f g j (pc j) (same j n) h k (o j))
  ]

  Walk-keep :
      (f g : ℕ → ℕ) (pc : ℕ → Pc V) (i : ℕ) (p : Pc V) (w : Option ℕ) (ys : List ℕ)
      → is_walker w i ≡ false
      → ((q : ℕ) → Chain f q ys → Chain g q ys)
      → Walk f pc w ys
      → Walk g (update pc i p) w ys
  Walk-keep f g pc i p none ys n same x = x
  Walk-keep f g pc i p (some w) ys n same x =
      rw (update_ne pc {i = i} {j = w} p (λ e. cc (n, eqb_refl i, ap (λ k. k == i) e)))
        (Remaining-keep (pc w) x)
    where
      Remaining-keep : (q : Pc V) → Remaining f q ys → Remaining g q ys
      Remaining-keep (walking q) r = same q r
      Remaining-keep idle r = tt
      Remaining-keep _ r = tt

module _ {V : Type 0} {ev : ℕ} {b set : Bool} {state : ℕ} {value : Option V} {next : ℕ → ℕ}
    {pc : ℕ → Pc V} {w : Option ℕ} {xs ys : List ℕ} where
  -- A coroutine that is neither suspended nor in `resume_all_awaiters`, before and after, writes at
  -- most its own `m_next` and the value.
  pub Inv-outside :
      (i v : ℕ) (p : Pc V) (value' : Option V)
      → Inv ev b set state value next pc w xs ys
      → waiting (pc i) ≡ 0
      → walks (pc i) ≡ false
      → waiting p ≡ 0
      → walks p ≡ false
      → (given value ≡ true → given value' ≡ true)
      → Own ev b set value' (update next i v) i p
      → Inv ev b set state value' (update next i v) (update pc i p) w xs ys
  Inv-outside i v p value' inv q s q' s' more own = record {
    members = λ j. ground (arith, inv.members j);
    walkers = λ j. ground (arith, inv.walkers j);
    own =
        Own-update ev b set set value value' next (update next i v) pc i p
          (λ j n. update_ne next {i = i} {j = j} v n) more (λ h. h) own inv.own;
    word = Word-keep ev set next state i v w xs ys (omega (arith, inv.members i)) inv.word;
    walk =
        Walk-keep next (update next i v) pc i p w ys (sym (inv.walkers i) ∙ s)
          (λ k. Chain-update next k i v ys (omega (arith, inv.members i))) inv.walk;
    valued = λ h k. more (inv.valued h k);
  }

-- `i` hangs itself on the event.
pub Inv-enqueue :
    {V : Type 0} {ev : ℕ} {b set : Bool} {state : ℕ} {value : Option V} {next : ℕ → ℕ}
    {pc : ℕ → Pc V} {w : Option ℕ} {xs ys : List ℕ} (i : ℕ)
    → Inv ev b set state value next pc w xs ys
    → pc i ≡ linked state
    → 1 < i
    → i ≢ ev
    → Inv ev b set i value next (update pc i parked) w (i ∷ xs) ys
Inv-enqueue {ev} {b} {set = true} {state} {value} {next} {pc} i inv e big ne =
    absurd ((subst (Own ev b true value next i) e (inv.own i)).1 inv.word.0)
Inv-enqueue {ev} {b} {set = false} {state} {value} {next} {pc} {w} {xs} {ys} i inv e big ne =
    record {
      members = λ j. ground (arith, inv.members j, inv.members i);
      walkers = λ j. ground (arith, inv.walkers j, inv.walkers i);
      own =
          Own-update ev b false false value value next next pc i parked (λ j _. refl) (λ h. h)
            (λ h. h) tt inv.own;
      word = (ne, (refl, big, rw here inv.word.1), inv.word.2, inv.word.3);
      walk =
          Walk-keep next next pc i parked w ys (sym (inv.walkers i) ∙ ap walks e) (λ k c. c)
            inv.walk;
      valued = inv.valued;
    }
  where
    here : next i ≡ state
    here = (subst (Own ev b false value next i) e (inv.own i)).0

-- The first exchange of `set_state`: `i` takes the whole list.
pub Inv-set :
    {V : Type 0} {ev : ℕ} {b : Bool} {state : ℕ} {value : Option V} {next : ℕ → ℕ} {pc : ℕ → Pc V}
    {w : Option ℕ} {xs ys : List ℕ} (i : ℕ)
    → Inv ev b false state value next pc w xs ys
    → pc i ≡ setting
    → Inv ev b true ev value next (update pc i (walking state)) (some i) [] xs
Inv-set {ev} {b} {state} {value} {next} {pc} {w} {xs} {ys} i inv e = record {
  members = λ j. ground (arith, inv.members j, no_ys j);
  walkers = λ j. ground (arith, inv.walkers j, none_walks j);
  own =
      Own-update ev b false true value value next next pc i (walking state) (λ j _. refl) (λ h. h)
        (λ h. cc) tt inv.own;
  word = (refl, refl);
  walk = rw (update_self pc i (walking state)) inv.word.1;
  valued = λ _ _. subst (Own ev b false value next i) e (inv.own i);
}
  where
    no_ys : (j : ℕ) → count j ys ≡ 0
    no_ys j = ap (count j) inv.word.3

    none_walks : (j : ℕ) → walks (pc j) ≡ false
    none_walks j = inv.walkers j ∙ ap (λ o. is_walker o j) inv.word.2

-- `i` submits the head of the list that it walks.
pub Inv-round :
    {V : Type 0} {ev : ℕ} {b set : Bool} {state : ℕ} {value : Option V} {next : ℕ → ℕ}
    {pc : ℕ → Pc V} {w : Option ℕ} {xs ys : List ℕ} (i p : ℕ)
    → Inv ev b set state value next pc w xs (p ∷ ys)
    → pc i ≡ walking p
    → w ≡ some i
    → Chain next p (p ∷ ys)
    → Inv ev b set state value next
        (update (update pc i (walking (next p))) p resuming)
        (some i)
        xs
        ys
Inv-round {ev} {b} {set = false} {w} i p inv e is c = cc (inv.word.2, is)
Inv-round {ev} {b} {set = true} {state} {value} {next} {pc} {w} {xs} {ys} i p inv e is c = record {
  members = λ j. ground (arith, inv.members j, inv.members p, inv.members i, eqb_refl p);
  walkers = λ j. ground (arith, inv.walkers j, inv.walkers p, inv.members p, eqb_refl p);
  own =
      Own-update ev b true true value value next next (update pc i (walking (next p))) p resuming
        (λ j _. refl) (λ h. h) (λ h. h) refl
        (Own-update ev b true true value value next next pc i (walking (next p)) (λ j _. refl)
          (λ h. h) (λ h. h) tt inv.own);
  word = inv.word;
  walk = rw (walker_here) c.2;
  valued = inv.valued;
}
  where
    other : p ≢ i
    other same =
        ground (arith, inv.members p, ap (λ k. waiting (pc k)) same, ap waiting e, eqb_refl p)

    walker_here : update (update pc i (walking (next p))) p resuming i ≡ walking (next p)
    walker_here =
        update_ne (update pc i (walking (next p))) {i = p} {j = i} resuming other
        ∙ update_self pc i (walking (next p))

-- `i` is at the end of the list.
pub Inv-end :
    {V : Type 0} {ev : ℕ} {b set : Bool} {state : ℕ} {value : Option V} {next : ℕ → ℕ}
    {pc : ℕ → Pc V} {w : Option ℕ} {xs ys : List ℕ} (i : ℕ)
    → Inv ev b set state value next pc w xs ys
    → pc i ≡ walking 0
    → w ≡ some i
    → Inv ev b set state value next (update pc i idle) none xs []
Inv-end {ev} {b} {set = false} i inv e is = cc (inv.word.2, is)
Inv-end {ev} {b} {set = true} {state} {value} {next} {pc} {w} {xs} {ys} i inv e is = record {
  members = λ j. ground (arith, inv.members j, no_ys j);
  walkers = λ j. ground (arith, inv.walkers j, ap (λ o. is_walker o j) is);
  own =
      Own-update ev b true true value value next next pc i idle (λ j _. refl) (λ h. h) (λ h. h) tt
        inv.own;
  word = inv.word;
  walk = refl;
  valued = inv.valued;
}
  where
    walk : Walk next pc (some i) ys
    walk = subst (λ o. Walk next pc o ys) is inv.walk

    chain : Chain next 0 ys
    chain = subst (λ q. Remaining next q ys) e walk

    no_ys : (j : ℕ) → count j ys ≡ 0
    no_ys j = ap (count j) (Chain-nil next ys chain)
