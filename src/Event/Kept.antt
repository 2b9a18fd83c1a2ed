-- ===== src/Event/Kept.antt =====
-- Each step of src/comp/event.cpp keeps the invariant.
use tiny_coro_lab.Prelude.{
  ℕ, ◌≡◌, refl, sym, ◌∙◌, ◌≢◌, ◌<◌, subst, ap, Bool, true, false, List, [], ◌∷◌, Option, none, some,
  arith, update, update_self, update_const, update_id, ◌==◌, eqb_refl, inl, inr, Bool-cases,
}
use tiny_coro_lab.Contexts.{Contexts}
use tiny_coro_lab.Waiters.{Chain}
use tiny_coro_lab.Event.{
  Mem, Pc, Call, wait, set, Choice, idle, checking, loading, linked, parked, resuming, returned,
  setting, walking, waiting, walks, System, act, wake,
}
use tiny_coro_lab.Event.Invariant.{is_walker, given, Word, Remaining, Walk, Own, Inv}
use tiny_coro_lab.Event.Moves.{Inv-outside, Inv-enqueue, Inv-set, Inv-round, Inv-end}

-- The state is one that the lists of the invariant explain.
pub record IsGood {V W : Type 0} (ev : ℕ) (b : Bool) (s : System V W) : Type 0 where
  pub is_set : Bool
  pub walker : Option ℕ
  pub hung : List ℕ
  pub left : List ℕ
  pub inv : Inv ev b is_set s.mem.state s.mem.value s.mem.next s.pc walker hung left

pub walker-is : (w : Option ℕ) (i : ℕ) → is_walker w i ≡ true → w ≡ some i
walker-is none i h = cc
walker-is (some w) i h = ground arith

module _ (C : Contexts) {V : Type 0} (ev : ℕ) where
  open C use {World}

  abbrev pub next_state : System V World → ℕ → Choice V → Pc V → System V World
  next_state s i c p =
      let (m, q) = act C ev c i p s.mem in record { mem = m; pc = wake p (update s.pc i q) }

  module _ {b : Bool} {s : System V World} (i : ℕ) (c : Choice V) (g : IsGood ev b s) where
    outside :
        (m : Mem V World) (v : ℕ) (p : Pc V)
        → m.state ≡ s.mem.state
        → m.next ≡ update s.mem.next i v
        → waiting (s.pc i) ≡ 0
        → walks (s.pc i) ≡ false
        → waiting p ≡ 0
        → walks p ≡ false
        → (given s.mem.value ≡ true → given m.value ≡ true)
        → Own ev b g.is_set m.value (update s.mem.next i v) i p
        → IsGood ev b (record { mem = m; pc = update s.pc i p })
    outside m v p es en q k q' k' more own = record {
      is_set = g.is_set;
      walker = g.walker;
      hung = g.hung;
      left = g.left;
      inv = rw (es, en) (Inv-outside i v p m.value g.inv q k q' k' more own);
    }

    -- Nothing but the place of `i` changes.
    stay :
        (p : Pc V)
        → waiting (s.pc i) ≡ 0
        → walks (s.pc i) ≡ false
        → waiting p ≡ 0
        → walks p ≡ false
        → Own ev b g.is_set s.mem.value (update s.mem.next i (s.mem.next i)) i p
        → IsGood ev b (record { mem = s.mem; pc = update s.pc i p })
    stay p q k q' k' own =
        outside s.mem (s.mem.next i) p refl (update_const s.mem.next i) q k q' k' (λ h. h) own

    set-is : s.mem.state ≡ ev → g.is_set ≡ true
    set-is e = go g.is_set g.inv.word
      where
        go : (x : Bool) → Word ev x s.mem.next s.mem.state g.walker g.hung g.left → x ≡ true
        go true _ = refl
        go false w = absurd (w.0 e)

    begin-IsGood : (x : Call V) → c.call ≡ x → s.pc i ≡ idle → IsGood ev b (next_state s i c idle)
    unfolding act
    begin-IsGood (wait x h) d e =
        rw d (outside _ 0 (checking h) refl refl (rw e refl) (rw e refl) refl refl (λ h. h) tt)
    begin-IsGood (set v) d e = rw d (
        outside _ (s.mem.next i) setting refl (update_const s.mem.next i) (rw e refl) (rw e refl)
          refl refl (λ _. refl) refl)

    check-IsGood : (h : ℕ) → s.pc i ≡ checking h → IsGood ev b (next_state s i c (checking h))
    unfolding act
    check-IsGood h e = elim (Bool-cases (s.mem.state == ev)) [
      | inl yes_set ↦
          rw yes_set (stay resuming (rw e refl) (rw e refl) refl refl (set-is (ground arith)))
      | inr not_set ↦ rw not_set (
          outside _ (s.mem.next i) loading refl (update_const s.mem.next i) (rw e refl) (rw e refl)
            refl refl (λ h. h) tt)
    ]

    load-IsGood : s.pc i ≡ loading → IsGood ev b (next_state s i c loading)
    unfolding act
    load-IsGood e = elim (Bool-cases (s.mem.state == ev)) [
      | inl yes_set ↦ rw yes_set (
          outside _ 0 resuming refl refl (rw e refl) (rw e refl) refl refl (λ h. h)
            (set-is (ground arith)))
      | inr not_set ↦ rw not_set (
          outside _ s.mem.state (linked s.mem.state) refl refl (rw e refl) (rw e refl) refl refl
            (λ h. h) (update_self s.mem.next i s.mem.state, ground arith))
    ]

    push-IsGood :
        (old : ℕ) (x : Bool)
        → c.spurious ≡ x
        → 1 < i
        → i ≢ ev
        → s.pc i ≡ linked old
        → IsGood ev b (next_state s i c (linked old))
    unfolding act
    push-IsGood old true d big ne e = rw d (stay loading (rw e refl) (rw e refl) refl refl tt)
    push-IsGood old false d big ne e = elim (Bool-cases (s.mem.state == old)) [
      | inl same ↦
          let eq : s.mem.state ≡ old = ground arith in
          rw (d, same)
            (record {
              is_set = g.is_set;
              walker = g.walker;
              hung = i ∷ g.hung;
              left = g.left;
              inv = Inv-enqueue i g.inv (e ∙ ap linked (sym eq)) big ne;
            })
      | inr other ↦ rw (d, other) (stay loading (rw e refl) (rw e refl) refl refl tt)
    ]

    parked-IsGood : s.pc i ≡ parked → IsGood ev b (next_state s i c parked)
    unfolding act
    parked-IsGood e = record {
      is_set = g.is_set;
      walker = g.walker;
      hung = g.hung;
      left = g.left;
      inv = rw (update_id s.pc i e) g.inv;
    }

    resume-IsGood : s.pc i ≡ resuming → IsGood ev b (next_state s i c resuming)
    unfolding act
    resume-IsGood e =
        let now : g.is_set ≡ true =
          subst (Own ev b g.is_set s.mem.value s.mem.next i) e (g.inv.own i) in
        outside _ (s.mem.next i) (returned s.mem.value) refl (update_const s.mem.next i) (rw e refl)
          (rw e refl) refl refl (λ h. h) (now, λ n. g.inv.valued n now)

    return-IsGood :
        (r : Option V) → s.pc i ≡ returned r → IsGood ev b (next_state s i c (returned r))
    unfolding act
    return-IsGood r e = stay idle (rw e refl) (rw e refl) refl refl tt

    set-IsGood :
        (x : Bool) → g.is_set ≡ x → s.pc i ≡ setting → IsGood ev b (next_state s i c setting)
    unfolding act
    set-IsGood true d e =
        let word =
          subst (λ x. Word ev x s.mem.next s.mem.state g.walker g.hung g.left) d g.inv.word in
        rw (ap (λ z. z == ev) word.0 ∙ eqb_refl ev) (
          outside _ (s.mem.next i) idle (sym word.0) (update_const s.mem.next i) (rw e refl)
            (rw e refl) refl refl (λ h. h) tt)
    set-IsGood false d e =
        let inv =
          subst (λ x. Inv ev b x s.mem.state s.mem.value s.mem.next s.pc g.walker g.hung g.left) d
            g.inv in
        let ne : s.mem.state ≢ ev = inv.word.0 in
        let test : (s.mem.state == ev) ≡ false = ground arith in
        rw test (record {
          is_set = true;
          walker = some i;
          hung = [];
          left = g.hung;
          inv = Inv-set i inv e;
        })

    pub walker-here : (p : ℕ) → s.pc i ≡ walking p → (g.walker ≡ some i) × Chain s.mem.next p g.left
    walker-here p e =
        let is : g.walker ≡ some i = walker-is g.walker i (sym (g.inv.walkers i) ∙ ap walks e) in
        (
          is,
          subst (λ q. Remaining s.mem.next q g.left) e
              (subst (λ o. Walk s.mem.next s.pc o g.left) is g.inv.walk),
        )

    round-IsGood :
        (p : ℕ) (ys : List ℕ)
        → g.left ≡ ys
        → s.pc i ≡ walking p
        → IsGood ev b (next_state s i c (walking p))
    unfolding act
    round-IsGood p [] d e =
        let known = walker-here p e in
        let last : p ≡ 0 = subst (Chain s.mem.next p) d known.1 in
        rw last (record {
          is_set = g.is_set;
          walker = none;
          hung = g.hung;
          left = [];
          inv = Inv-end i g.inv (e ∙ ap walking last) known.0;
        })
    round-IsGood p (y ∷ ys) d e =
        let known = walker-here p e in
        let chain : Chain s.mem.next p (y ∷ ys) = subst (Chain s.mem.next p) d known.1 in
        let more : (p == 0) ≡ false = ground arith in
        let same : y ∷ ys ≡ p ∷ ys = ap (λ z. z ∷ ys) (sym chain.0) in
        let inv =
          subst (Inv ev b g.is_set s.mem.state s.mem.value s.mem.next s.pc g.walker g.hung)
            (d ∙ same) g.inv in
        rw more (record {
          is_set = g.is_set;
          walker = some i;
          hung = g.hung;
          left = ys;
          inv = Inv-round i p inv e known.0 (subst (Chain s.mem.next p) same chain);
        })

    pub step-IsGood : (p : Pc V) → s.pc i ≡ p → 1 < i → i ≢ ev → IsGood ev b (next_state s i c p)
    step-IsGood idle e big ne = begin-IsGood c.call refl e
    step-IsGood (checking h) e big ne = check-IsGood h e
    step-IsGood loading e big ne = load-IsGood e
    step-IsGood (linked old) e big ne = push-IsGood old c.spurious refl big ne e
    step-IsGood parked e big ne = parked-IsGood e
    step-IsGood resuming e big ne = resume-IsGood e
    step-IsGood (returned r) e big ne = return-IsGood r e
    step-IsGood setting e big ne = set-IsGood g.is_set refl e
    step-IsGood (walking p) e big ne = round-IsGood p g.left refl e
