-- ===== src/Spinlock/Progress.antt =====
-- The operations of include/coro/spinlock.hpp come to an end.
use tiny_coro_lab.Prelude.{
  ℕ, ◌≤◌, arith, ◌≡◌, ◌∙◌, ap, false, not, inl, inr, ◌⊎◌, Bool-cases, update_self, if◌then◌else◌,
}
use tiny_coro_lab.Spinlock.{
  Pc, idle, exchanging, spinning, try_loading, try_exchanging, holding, Spinlock, access, go, alone,
}

go_self :
    (t : ℕ) (p : Pc) (s : Spinlock)
    → s.pc t ≡ p
    → ((go t s).pc t ≡ (access p s.lock_flag).1) × ((go t s).lock_flag ≡ (access p s.lock_flag).0)
unfolding go
go_self t p s e = (
  update_self s.pc t (access (s.pc t) s.lock_flag).1 ∙ ap (λ x. (access x s.lock_flag).1) e,
  ap (λ x. (access x s.lock_flag).0) e,
)

-- A call of `lock` that is before the exchange or in the loop while the flag is clear has the lock
-- after at most two accesses, unless others move.
pub lock_takes :
    (t : ℕ) (s : Spinlock)
    → s.lock_flag ≡ false
    → (s.pc t ≡ exchanging) ⊎ (s.pc t ≡ spinning)
    → (n : ℕ) × (n ≤ 2) × ((alone t n s).pc t ≡ holding)
unfolding alone access
lock_takes t s free (inl at) = (
  1,
  omega arith,
  (go_self t exchanging s at).0 ∙ ap (λ b. if not b then holding else spinning) free,
)
lock_takes t s free (inr at) =
    let (p, f) = go_self t spinning s at in
    let again = p ∙ ap (λ b. if b then spinning else exchanging) free in
    (
      2,
      omega arith,
      (go_self t exchanging (go t s) again).0
          ∙ ap (λ b. if not b then holding else spinning) (f ∙ free),
    )

-- `try_lock` comes back after at most two accesses, whatever other threads do between them: after
-- the first it has failed or found the flag clear, and after the second it has failed or has the lock.
pub try_lock_returns :
    (t : ℕ) (s s' : Spinlock)
    → s.pc t ≡ try_loading
    → s'.pc t ≡ (go t s).pc t
    → ((go t s).pc t ≡ idle) ⊎ (((go t s').pc t ≡ idle) ⊎ ((go t s').pc t ≡ holding))
unfolding access
try_lock_returns t s s' at same = elim (Bool-cases s.lock_flag) [
  | inl is_taken ↦
      inl
        ((go_self t try_loading s at).0 ∙ ap (λ b. if not b then try_exchanging else idle) is_taken)
  | inr is_free ↦
      let found =
        (go_self t try_loading s at).0 ∙ ap (λ b. if not b then try_exchanging else idle) is_free in
      let second = (go_self t try_exchanging s' (same ∙ found)).0 in
      elim (Bool-cases s'.lock_flag) [
        | inl lost ↦ inr (inl (second ∙ ap (λ b. if not b then holding else idle) lost))
        | inr won ↦ inr (inr (second ∙ ap (λ b. if not b then holding else idle) won))
      ]
]
