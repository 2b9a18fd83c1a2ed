-- ===== src/Scheduler/Counts.antt =====
-- What the threads of src/scheduler.cpp have still to add to the stop token and to take from it.
use tiny_coro_lab.Prelude.{
  ℕ, ◌+◌, ◌-◌, ◌%◌, ◌≡◌, ◌<◌, ◌≤◌, ap, subst, arith, update, update_self, update_ne, inl, inr,
  eq_or_ne,
}
use tiny_coro_lab.Scheduler.{int_mod, Pc, marking, adding, clearing, subtracting}
use tiny_coro_lab.Scheduler.Sum.{sum, sum-change}

-- What a thread has still to add to the token and to take from it.
abbrev pub adds : Pc → ℕ
adds (adding i h old) = 1 - old
adds _ = 0

abbrev pub subs : Pc → ℕ
subs (subtracting cnt) = cnt
subs _ = 0

abbrev pub Own : ℕ → Pc → Type 0
Own n (marking i h) = i < n
Own n (adding i h old) = old ≤ 1
Own n (clearing i) = i < n
Own n (subtracting cnt) = cnt ≤ 1
Own n _ = Unit {0}

pub record Inv (n threads token : ℕ) (flag : ℕ → ℕ) (pc : ℕ → Pc) : Type 0 where
  pub small : token < int_mod
  pub balance :
      (token + sum (λ t. adds (pc t)) threads) % int_mod
      ≡ (sum flag n + sum (λ t. subs (pc t)) threads) % int_mod
  pub flags : (i : ℕ) → flag i ≤ 1
  pub own : (t : ℕ) → Own n (pc t)

module _ {n threads token : ℕ} {flag : ℕ → ℕ} {pc : ℕ → Pc} (t : ℕ) (less : t < threads)
    (inv : Inv n threads token flag pc) where
  -- A step keeps the balance if the token, the flags and what its thread owes change together.
  pub Inv-step :
      (token' : ℕ) (flag' : ℕ → ℕ) (p : Pc)
      → token' < int_mod
      → (token' + adds p + subs (pc t) + sum flag n) % int_mod
        ≡ (token + adds (pc t) + subs p + sum flag' n) % int_mod
      → ((i : ℕ) → flag' i ≤ 1)
      → Own n p
      → Inv n threads token' flag' (update pc t p)
  Inv-step token' flag' p small delta bits own = record {
    small = small;
    balance =
        let more =
          sum-change (λ u. adds (pc u)) (λ u. adds (update pc t p u)) threads t less
            (λ u ne. ap adds (update_ne pc p ne)) in
        let less_of =
          sum-change (λ u. subs (pc u)) (λ u. subs (update pc t p u)) threads t less
            (λ u ne. ap subs (update_ne pc p ne)) in
        omega (
          arith,
          more,
          less_of,
          ap adds (update_self pc t p),
          ap subs (update_self pc t p),
          delta,
          inv.balance,
        );
    flags = bits;
    own = λ u. elim (eq_or_ne t u) [
      | inl e ↦ subst (λ x. Own n (update pc t p x)) e (rw (update_self pc t p) own)
      | inr ne ↦ rw (update_ne pc p ne) (inv.own u)
    ];
  }

  pub set-flag : (i v : ℕ) → v ≤ 1 → (j : ℕ) → update flag i v j ≤ 1
  set-flag i v le j = ground (arith, inv.flags j)

  pub flag-sum : (i v : ℕ) → i < n → sum (update flag i v) n + flag i ≡ sum flag n + v
  flag-sum i v inside = omega (
    arith,
    sum-change flag (update flag i v) n i inside (λ j ne. update_ne flag v ne),
    update_self flag i v,
  )
