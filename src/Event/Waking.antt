-- ===== src/Event/Waking.antt =====
-- `set` of src/comp/event.cpp returns, and wakes exactly those who hang on the event.
use tiny_coro_lab.Prelude.{
  ℕ, zero, suc, ◌≡◌, refl, ◌∙◌, ◌≢◌, subst, ap, fun_ext, Bool, true, false, List, [], ◌∷◌, arith,
  count, length, update, update_self, update_ne, ◌==◌, if◌then◌else◌,
}
use tiny_coro_lab.Contexts.{Contexts}
use tiny_coro_lab.Waiters.{Chain, submit_all}
use tiny_coro_lab.Event.{
  Pc, Choice, idle, resuming, setting, walking, waiting, System, act, exec, Reach,
}
use tiny_coro_lab.Event.Invariant.{Word}
use tiny_coro_lab.Event.Kept.{IsGood, next_state}
use tiny_coro_lab.Event.Preserved.{Reach-IsGood}

-- `i` is out, those of the list are woken, and the others stand where they stood.
abbrev pub woken : {V : Type 0} → ℕ → List ℕ → (ℕ → Pc V) → ℕ → Pc V
woken i xs pc j = if i == j then idle else if count j xs == 0 then pc j else resuming

woken-cons :
    {V : Type 0} (i y : ℕ) (ys : List ℕ) (pc : ℕ → Pc V) (p : Pc V)
    → y ≢ i
    → woken i ys (update (update pc i p) y resuming) ≡ woken i (y ∷ ys) pc
woken-cons i y ys pc p ne = fun_ext λ j. ground arith

woken-same :
    {V : Type 0} (i : ℕ) (ys : List ℕ) (pc : ℕ → Pc V) (p : Pc V)
    → woken i ys (update pc i p) ≡ woken i ys pc
woken-same i ys pc p = fun_ext λ j. ground arith

module _ (C : Contexts) {V : Type 0} (ev : ℕ) where
  open C use {World}

  pub solo : ℕ → System V World → ℕ → Choice V → System V World
  solo zero s i c = s
  solo (suc n) s i c = solo n (exec C ev s i c) i c

  exec-at :
      (s : System V World) (i : ℕ) (c : Choice V) {p : Pc V}
      → s.pc i ≡ p
      → exec C ev s i c ≡ next_state C ev s i c p
  unfolding exec
  exec-at s i c e = ap (next_state C ev s i c) e

  -- The round that ends the walk, and a round that wakes one.
  last_round :
      (s : System V World) (i : ℕ) (c : Choice V)
      → next_state C ev s i c (walking 0) ≡ record { mem = s.mem; pc = woken i [] s.pc }
  unfolding act
  last_round s i c = refl

  one_round :
      (s : System V World) (i p : ℕ) (c : Choice V)
      → p ≢ 0
      → next_state C ev s i c (walking p) ≡ record {
        mem = record s.mem { world = C.submit_task (s.mem.ctx p) (s.mem.await_coro p) s.mem.world };
        pc = update (update s.pc i (walking (s.mem.next p))) p resuming;
      }
  unfolding act
  one_round s i p c n = let test : (p == 0) ≡ false = ground arith in rw test refl

  walk-all :
      (ys : List ℕ) (s : System V World) (i p : ℕ) (c : Choice V)
      → s.pc i ≡ walking p
      → Chain s.mem.next p ys
      → count i ys ≡ 0
      → solo (suc (length ys)) s i c ≡ record {
        mem = record s.mem { world = submit_all C s.mem.ctx s.mem.await_coro ys s.mem.world };
        pc = woken i ys s.pc;
      }
  unfolding solo submit_all
  walk-all [] s i p c e chain out = rw (exec-at s i c e, chain) (last_round s i c)
  walk-all (y ∷ ys) s i p c e chain out =
      let s2 : System V World = record {
        mem = record s.mem { world = C.submit_task (s.mem.ctx y) (s.mem.await_coro y) s.mem.world };
        pc = update (update s.pc i (walking (s.mem.next y))) y resuming;
      } in
      let ne : y ≢ i = ground arith in
      let now : s2.pc i ≡ walking (s.mem.next y) =
        update_ne (update s.pc i (walking (s.mem.next y))) resuming ne
        ∙ update_self s.pc i (walking (s.mem.next y)) in
      let rest = walk-all ys s2 i (s.mem.next y) c now chain.2 (ground arith) in
      let first : exec C ev s i c ≡ s2 =
        exec-at s i c (e ∙ ap walking chain.0) ∙ one_round s i y c (omega (arith, chain.1)) in
      ap (λ z. solo (suc (length ys)) z i c) first
      ∙ rest
      ∙ ap
          (λ f. record {
            mem = record s.mem {
              world =
                  submit_all C s.mem.ctx s.mem.await_coro ys
                    (C.submit_task (s.mem.ctx y) (s.mem.await_coro y) s.mem.world);
            };
            pc = f;
          })
          (woken-cons i y ys s.pc (walking (s.mem.next y)) ne)

  abbrev pub all_woken : System V World → ℕ → List ℕ → System V World
  all_woken s i xs = record {
    mem = record s.mem {
      state = ev;
      world = submit_all C s.mem.ctx s.mem.await_coro xs s.mem.world;
    };
    pc = woken i xs s.pc;
  }

  exchange :
      (s : System V World) (i : ℕ) (c : Choice V)
      → s.mem.state ≢ ev
      → next_state C ev s i c setting
        ≡ record { mem = record s.mem { state = ev }; pc = update s.pc i (walking s.mem.state) }
  unfolding act
  exchange s i c ne = let test : (s.mem.state == ev) ≡ false = ground arith in rw test refl

  wakes :
      (xs : List ℕ) (s : System V World) (i : ℕ) (c : Choice V)
      → s.pc i ≡ setting
      → s.mem.state ≢ ev
      → Chain s.mem.next s.mem.state xs
      → count i xs ≡ 0
      → solo (suc (suc (length xs))) s i c ≡ all_woken s i xs
  unfolding solo
  wakes xs s i c e ne chain out =
      let s2 : System V World = record {
        mem = record s.mem { state = ev };
        pc = update s.pc i (walking s.mem.state);
      } in
      let first : exec C ev s i c ≡ s2 = exec-at s i c e ∙ exchange s i c ne in
      ap (λ z. solo (suc (length xs)) z i c) first
      ∙ walk-all xs s2 i s.mem.state c (update_self s.pc i (walking s.mem.state)) chain out
      ∙ ap
          (λ f. record {
            mem = record s.mem {
              state = ev;
              world = submit_all C s.mem.ctx s.mem.await_coro xs s.mem.world;
            };
            pc = f;
          })
          (woken-same i xs s.pc (walking s.mem.state))

  -- A `set` that finds the event unset returns, left to itself: it takes one step for the exchange, one
  -- for every awaiter, and one to see the end of the list. The event is set then, exactly the coroutines
  -- that were suspended on it go on, each handle has gone to its own context, newest first, and nothing
  -- else has changed.
  pub set_wakes_all :
      {b : Bool} {w : World} {s : System V World} (i : ℕ) (c : Choice V)
      → ev ≢ 0
      → Reach C ev b w s
      → s.pc i ≡ setting
      → s.mem.state ≢ ev
      → (xs : List ℕ) × Chain s.mem.next s.mem.state xs
        × ((j : ℕ) → count j xs ≡ waiting (s.pc j))
        × (solo (suc (suc (length xs))) s i c ≡ all_woken s i xs)
  set_wakes_all {b = b} {s = s} i c pos r e ne =
      let g = Reach-IsGood C ev pos r in go g g.is_set refl
    where
      go :
          (g : IsGood ev b s) (x : Bool)
          → g.is_set ≡ x
          → (xs : List ℕ) × Chain s.mem.next s.mem.state xs
            × ((j : ℕ) → count j xs ≡ waiting (s.pc j))
            × (solo (suc (suc (length xs))) s i c ≡ all_woken s i xs)
      go g true d =
          absurd (
            ne
              (subst (λ x. Word ev x s.mem.next s.mem.state g.walker g.hung g.left) d g.inv.word).0)
      go g false d =
          let word =
            subst (λ x. Word ev x s.mem.next s.mem.state g.walker g.hung g.left) d g.inv.word in
          let member : (j : ℕ) → count j g.hung ≡ waiting (s.pc j) =
            λ j. omega (arith, g.inv.members j, ap (count j) word.3) in
          (g.hung, word.1, member, wakes g.hung s i c e ne word.1 (member i ∙ ap waiting e))
