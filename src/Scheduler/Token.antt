-- ===== src/Scheduler/Token.antt =====
-- The stop token of src/scheduler.cpp counts the busy contexts.
use mathlib.Core.Bool.{false≢true}
use tiny_coro_lab.Prelude.{
  ℕ, ◌+◌, ◌-◌, ◌%◌, ◌≡◌, refl, sym, ◌∙◌, ◌≢◌, ◌<◌, ◌≤◌, ap, subst, Bool, true, false, update_self,
  eqb_sound, eqb_refl, ◌↔◌, if◌then◌else◌, arith, update, ltb, ◌==◌, inl, inr, Bool-cases,
}
use tiny_coro_lab.Contexts.{Contexts}
use tiny_coro_lab.Scheduler.{
  int_mod, Pc, idle, aborted, dispatching, marking, adding, handing, clearing, subtracting,
  stopping, Call, submit, report, or_one, act, System, call_ok, exec, init, Reach, start, later,
}
use tiny_coro_lab.Scheduler.Sum.{sum, sum-const, sum-zero, sum-one, sum-bound, zero-sum, sum-none}
use tiny_coro_lab.Scheduler.Counts.{adds, subs, Own, Inv, Inv-step, flag-sum, set-flag}

abbrev is_stopping : Pc → Bool
is_stopping (stopping i) = true
is_stopping _ = false

module _ (C : Contexts) (notify_stop : ℕ → C.World → C.World) {n threads : ℕ} (pos : 0 < n)
    (s : System C.World) (t : ℕ) (c : Call) (less : t < threads) (ok : call_ok n c ≡ true)
    (inv : Inv n threads s.mem.stop_token s.mem.ctx_stop_flag s.pc) where
  Next : Pc → Type 0
  Next q =
      let (m, p) = act C notify_stop n c q s.mem in
      Inv n threads m.stop_token m.ctx_stop_flag (update s.pc t p)

  -- The token and the flags stay, and nothing is owed.
  stay :
      (p : Pc)
      → adds (s.pc t) ≡ 0
      → subs (s.pc t) ≡ 0
      → adds p ≡ 0
      → subs p ≡ 0
      → Own n p
      → Inv n threads s.mem.stop_token s.mem.ctx_stop_flag (update s.pc t p)
  stay p a b x y own =
      Inv-step t less inv s.mem.stop_token s.mem.ctx_stop_flag p inv.small
        (ap (λ k. k % int_mod) (omega (arith, a, b, x, y))) inv.flags own

  begin-step : (x : Call) → c ≡ x → s.pc t ≡ idle → Next idle
  unfolding act Next
  begin-step (submit h) d e = elim (Bool-cases (s.mem.stop_token == 0)) [
    | inl none ↦ rw (d, none) (stay aborted (rw e refl) (rw e refl) refl refl tt)
    | inr some ↦ rw (d, some) (stay (dispatching h) (rw e refl) (rw e refl) refl refl tt)
  ]
  begin-step (report i) d e =
      let known = ap (call_ok n) (sym d) ∙ ok in
      rw d (stay (clearing i) (rw e refl) (rw e refl) refl refl (ground arith))

  mark-step : (i h : ℕ) → s.pc t ≡ marking i h → Next (marking i h)
  unfolding act Next
  mark-step i h e =
      let old = s.mem.ctx_stop_flag i in
      let inside : i < n = subst (Own n) e (inv.own t) in
      let bit : old ≤ 1 = inv.flags i in
      let one : or_one old ≡ 1 = omega arith in
      let sums = flag-sum t less inv i (or_one old) inside in
      Inv-step t less inv s.mem.stop_token (update s.mem.ctx_stop_flag i (or_one old))
        (adding i h old) inv.small
        (ap (λ k. k % int_mod) (omega (arith, sums, one, bit, ap adds e, ap subs e)))
        (set-flag t less inv i (or_one old) (omega (arith, one))) bit

  add-step : (i h old : ℕ) → s.pc t ≡ adding i h old → Next (adding i h old)
  unfolding act Next
  add-step i h old e =
      let bit : old ≤ 1 = subst (Own n) e (inv.own t) in
      Inv-step t less inv ((s.mem.stop_token + 1 + int_mod - old) % int_mod) s.mem.ctx_stop_flag
        (handing i h) (omega arith) (omega (arith, bit, ap adds e, ap subs e)) inv.flags tt

  clear-step : (i : ℕ) → s.pc t ≡ clearing i → Next (clearing i)
  unfolding act Next
  clear-step i e =
      let cnt = s.mem.ctx_stop_flag i in
      let inside : i < n = subst (Own n) e (inv.own t) in
      let sums = flag-sum t less inv i 0 inside in
      Inv-step t less inv s.mem.stop_token (update s.mem.ctx_stop_flag i 0) (subtracting cnt)
        inv.small (ap (λ k. k % int_mod) (omega (arith, sums, ap adds e, ap subs e)))
        (set-flag t less inv i 0 (omega arith)) (inv.flags i)

  subtract-to :
      (cnt : ℕ) (p : Pc)
      → s.pc t ≡ subtracting cnt
      → adds p ≡ 0
      → subs p ≡ 0
      → Own n p
      → Inv n threads
          ((s.mem.stop_token + int_mod - cnt) % int_mod)
          s.mem.ctx_stop_flag
          (update s.pc t p)
  subtract-to cnt p e a b own =
      let bit : cnt ≤ 1 = subst (Own n) e (inv.own t) in
      Inv-step t less inv ((s.mem.stop_token + int_mod - cnt) % int_mod) s.mem.ctx_stop_flag p
        (omega arith) (omega (arith, bit, a, b, ap adds e, ap subs e)) inv.flags own

  step : (q : Pc) → s.pc t ≡ q → Next q
  unfolding act Next
  step idle e = begin-step c refl e
  step aborted e = stay aborted (rw e refl) (rw e refl) refl refl tt
  step (dispatching h) e =
      stay (marking (s.mem.cur % n) h) (rw e refl) (rw e refl) refl refl (omega arith)
  step (marking i h) e = mark-step i h e
  step (adding i h old) e = add-step i h old e
  step (handing i h) e = stay idle (rw e refl) (rw e refl) refl refl tt
  step (clearing i) e = clear-step i e
  step (subtracting cnt) e = elim (Bool-cases (s.mem.stop_token == cnt)) [
    | inl last ↦ rw last (subtract-to cnt (stopping 0) e refl refl tt)
    | inr more ↦ rw more (subtract-to cnt idle e refl refl tt)
  ]
  step (stopping i) e = elim (Bool-cases (ltb i n)) [
    | inl more ↦ rw more (stay (stopping (i + 1)) (rw e refl) (rw e refl) refl refl tt)
    | inr end ↦ rw end (stay idle (rw e refl) (rw e refl) refl refl tt)
  ]

module _ (C : Contexts) (notify_stop : ℕ → C.World → C.World) {n threads : ℕ} {w : C.World}
    (pos : 0 < n) (fits : n < int_mod) where
  Reach-Inv :
      {s : System C.World}
      → Reach C notify_stop n threads w s
      → Inv n threads s.mem.stop_token s.mem.ctx_stop_flag s.pc
  unfolding init exec Next
  Reach-Inv start = record {
    small = omega arith;
    balance = omega (arith, sum-const n, sum-zero (λ _. 0) threads (λ _. refl));
    flags = λ i. omega arith;
    own = λ t. tt;
  }
  Reach-Inv (later {s} t c less ok r) =
      step C notify_stop pos s t c less ok (Reach-Inv r) (s.pc t) refl

  -- The token and the flags agree, whatever the threads do and however their steps interleave: modulo
  -- 2 ^ 32, the token and what threads have still to add to it make up the number of contexts whose
  -- flag is set and what threads have still to take from it. There is at least one context, and fewer
  -- than 2 ^ 32.
  pub token-balance :
      {s : System C.World}
      → Reach C notify_stop n threads w s
      → (s.mem.stop_token + sum (λ t. adds (s.pc t)) threads) % int_mod
        ≡ (sum s.mem.ctx_stop_flag n + sum (λ t. subs (s.pc t)) threads) % int_mod
  token-balance r = (Reach-Inv r).balance

  -- While no thread is between an access to a flag and the access to the token that belongs to it, the
  -- token is the number of contexts whose flag is set.
  pub token-busy :
      {s : System C.World}
      → Reach C notify_stop n threads w s
      → ((t : ℕ) → (adds (s.pc t) ≡ 0) × (subs (s.pc t) ≡ 0))
      → s.mem.stop_token ≡ sum s.mem.ctx_stop_flag n
  token-busy {s} r settled =
      let inv = Reach-Inv r in
      omega (
        arith,
        inv.balance,
        inv.small,
        fits,
        sum-bound s.mem.ctx_stop_flag n inv.flags,
        sum-zero (λ t. adds (s.pc t)) threads (λ t. (settled t).0),
        sum-zero (λ t. subs (s.pc t)) threads (λ t. (settled t).1),
      )

  -- The callback stops the contexts exactly when none is busy: when a thread makes the access that
  -- takes from the token, and no other thread is between a flag and the token, it goes on to the loop
  -- of `stop_impl` if and only if the flag of every context is clear.
  pub stop-idle :
      {s : System C.World} (t cnt : ℕ) (c : Call)
      → Reach C notify_stop n threads w s
      → t < threads
      → s.pc t ≡ subtracting cnt
      → ((u : ℕ) → t ≢ u → (adds (s.pc u) ≡ 0) × (subs (s.pc u) ≡ 0))
      → ((exec C notify_stop n s t c).pc t ≡ stopping 0)
        ↔ ((i : ℕ) → i < n → s.mem.ctx_stop_flag i ≡ 0)
  unfolding exec act
  stop-idle {s} t cnt c r less e others =
      let inv = Reach-Inv r in
      let own : subs (s.pc t) ≡ cnt = ap subs e in
      let next : Pc = if s.mem.stop_token == cnt then stopping 0 else idle in
      let goes : (exec C notify_stop n s t c).pc t ≡ next =
        update_self s.pc t (act C notify_stop n c (s.pc t) s.mem).1
        ∙ ap (λ p. (act C notify_stop n c p s.mem).1) e in
      let alone = sum-one (λ u. adds (s.pc u)) threads t less (λ u ne. (others u ne).0) in
      let owed = sum-one (λ u. subs (s.pc u)) threads t less (λ u ne. (others u ne).1) in
      let bound = sum-bound s.mem.ctx_stop_flag n inv.flags in
      let bit : cnt ≤ 1 = subst (Own n) e (inv.own t) in
      (
        (λ h. elim (Bool-cases (s.mem.stop_token == cnt)) [
          | inl last ↦ zero-sum s.mem.ctx_stop_flag n (
              omega (
                arith,
                inv.balance,
                inv.small,
                fits,
                eqb_sound last,
                own,
                ap adds e,
                bound,
                alone,
                owed,
              ))
          | inr more ↦
              let rests : next ≡ idle = rw more refl in
              absurd (false≢true (ap is_stopping (sym (goes ∙ rests) ∙ h)))
        ]),
        (λ clear.
            let none = sum-none s.mem.ctx_stop_flag n clear in
            let last : s.mem.stop_token ≡ cnt =
              omega (arith, inv.balance, inv.small, none, own, ap adds e, bit, alone, owed) in
            goes ∙ rw (last, eqb_refl cnt) refl),
      )
