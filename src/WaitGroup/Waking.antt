-- ===== src/WaitGroup/Waking.antt =====
-- `done` of src/comp/wait_group.cpp returns, and wakes exactly those who hang on the word.
use tiny_coro_lab.Prelude.{
  ℕ, zero, suc, ◌≤◌, ◌≡◌, refl, ◌∙◌, ◌≢◌, ap, fun_ext, false, List, [], ◌∷◌, arith, count, length,
  update, update_self, update_ne, ◌==◌, if◌then◌else◌,
}
use tiny_coro_lab.Contexts.{Contexts}
use tiny_coro_lab.Waiters.{Chain, submit_all}
use tiny_coro_lab.WaitGroup.{
  Pc, Choice, idle, resuming, draining, walking, waiting, System, act, exec, Reach,
}
use tiny_coro_lab.WaitGroup.Invariant.{Place, out, hung, taken, on_state, placed}
use tiny_coro_lab.WaitGroup.Preserved.{next_state, Reach-IsGood}

state-placed : (p : Place) → on_state p ≤ placed p
state-placed out = omega arith
state-placed hung = omega arith
state-placed (taken k) = omega arith

-- `i` is out, those of the list are woken, and the others stand where they stood.
abbrev pub woken : ℕ → List ℕ → (ℕ → Pc) → ℕ → Pc
woken i xs pc j = if i == j then idle else if count j xs == 0 then pc j else resuming

woken-cons :
    (i y : ℕ) (ys : List ℕ) (pc : ℕ → Pc) (p : Pc)
    → y ≢ i
    → woken i ys (update (update pc i p) y resuming) ≡ woken i (y ∷ ys) pc
woken-cons i y ys pc p ne = fun_ext λ j. ground arith

woken-same :
    (i : ℕ) (ys : List ℕ) (pc : ℕ → Pc) (p : Pc) → woken i ys (update pc i p) ≡ woken i ys pc
woken-same i ys pc p = fun_ext λ j. ground arith

module _ (C : Contexts) where
  open C use {World}

  pub solo : ℕ → System World → ℕ → Choice → System World
  solo zero s i c = s
  solo (suc n) s i c = solo n (exec C s i c) i c

  exec-at :
      (s : System World) (i : ℕ) (c : Choice) {p : Pc}
      → s.pc i ≡ p
      → exec C s i c ≡ next_state C s i c p
  unfolding exec
  exec-at s i c e = ap (next_state C s i c) e

  -- The round that ends the walk, and a round that wakes one.
  last_round :
      (s : System World) (i : ℕ) (c : Choice)
      → next_state C s i c (walking 0) ≡ record { mem = s.mem; pc = woken i [] s.pc }
  unfolding act
  last_round s i c = refl

  one_round :
      (s : System World) (i p : ℕ) (c : Choice)
      → p ≢ 0
      → next_state C s i c (walking p) ≡ record {
        mem = record s.mem { world = C.submit_task (s.mem.ctx p) (s.mem.await_coro p) s.mem.world };
        pc = update (update s.pc i (walking (s.mem.next p))) p resuming;
      }
  unfolding act
  one_round s i p c n = let test : (p == 0) ≡ false = ground arith in rw test refl

  walk-all :
      (ys : List ℕ) (s : System World) (i p : ℕ) (c : Choice)
      → s.pc i ≡ walking p
      → Chain s.mem.next p ys
      → count i ys ≡ 0
      → solo (suc (length ys)) s i c ≡ record {
        mem = record s.mem { world = submit_all C s.mem.ctx s.mem.await_coro ys s.mem.world };
        pc = woken i ys s.pc;
      }
  unfolding solo submit_all
  walk-all [] s i p c e chain missing = rw (exec-at s i c e, chain) (last_round s i c)
  walk-all (y ∷ ys) s i p c e chain missing =
      let s2 : System World = record {
        mem = record s.mem { world = C.submit_task (s.mem.ctx y) (s.mem.await_coro y) s.mem.world };
        pc = update (update s.pc i (walking (s.mem.next y))) y resuming;
      } in
      let ne : y ≢ i = ground arith in
      let now : s2.pc i ≡ walking (s.mem.next y) =
        update_ne (update s.pc i (walking (s.mem.next y))) resuming ne
        ∙ update_self s.pc i (walking (s.mem.next y)) in
      let rest = walk-all ys s2 i (s.mem.next y) c now chain.2 (ground arith) in
      let first : exec C s i c ≡ s2 =
        exec-at s i c (e ∙ ap walking chain.0) ∙ one_round s i y c (omega (arith, chain.1)) in
      ap (λ z. solo (suc (length ys)) z i c) first
      ∙ rest
      ∙ ap
          (λ f. record {
            mem = record s.mem {
              world =
                  submit_all C s.mem.ctx s.mem.await_coro ys
                    (C.submit_task (s.mem.ctx y) (s.mem.await_coro y) s.mem.world);
            };
            pc = f;
          })
          (woken-cons i y ys s.pc (walking (s.mem.next y)) ne)

  abbrev pub all_woken : System World → ℕ → List ℕ → System World
  all_woken s i xs = record {
    mem = record s.mem {
      state = 0;
      world = submit_all C s.mem.ctx s.mem.await_coro xs s.mem.world;
    };
    pc = woken i xs s.pc;
  }

  exchange :
      (s : System World) (i : ℕ) (c : Choice)
      → next_state C s i c draining
        ≡ record { mem = record s.mem { state = 0 }; pc = update s.pc i (walking s.mem.state) }
  unfolding act
  exchange s i c = refl

  wakes :
      (xs : List ℕ) (s : System World) (i : ℕ) (c : Choice)
      → s.pc i ≡ draining
      → Chain s.mem.next s.mem.state xs
      → count i xs ≡ 0
      → solo (suc (suc (length xs))) s i c ≡ all_woken s i xs
  unfolding solo
  wakes xs s i c e chain missing =
      let s2 : System World = record {
        mem = record s.mem { state = 0 };
        pc = update s.pc i (walking s.mem.state);
      } in
      let first : exec C s i c ≡ s2 = exec-at s i c e ∙ exchange s i c in
      ap (λ z. solo (suc (length xs)) z i c) first
      ∙ walk-all xs s2 i s.mem.state c (update_self s.pc i (walking s.mem.state)) chain missing
      ∙ ap
          (λ f. record {
            mem = record s.mem {
              state = 0;
              world = submit_all C s.mem.ctx s.mem.await_coro xs s.mem.world;
            };
            pc = f;
          })
          (woken-same i xs s.pc (walking s.mem.state))

  -- The `done` that took the counter to zero returns, left to itself: it takes one step for the
  -- exchange, one for every awaiter on the word, and one to see the end of the list. Exactly the
  -- coroutines of that list go on, all of them suspended until then; each handle has gone to its own
  -- context, newest first; the word is empty; and nothing else has changed.
  pub done_wakes_all :
      {n : ℕ} {w : World} {s : System World} (i : ℕ) (c : Choice)
      → Reach C n w s
      → s.pc i ≡ draining
      → (xs : List ℕ) × Chain s.mem.next s.mem.state xs
        × ((j : ℕ) → count j xs ≤ waiting (s.pc j))
        × (solo (suc (suc (length xs))) s i c ≡ all_woken s i xs)
  done_wakes_all {s = s} i c r e =
      let g = Reach-IsGood C r in
      let member : (j : ℕ) → count j g.hung ≤ waiting (s.pc j) =
        λ j. omega (arith, g.inv.at_state j, g.inv.suspended j, state-placed (g.place j)) in
      (
        g.hung,
        g.inv.word,
        member,
        wakes g.hung s i c e g.inv.word (omega (arith, member i, ap waiting e)),
      )
