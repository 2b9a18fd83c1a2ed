-- ===== src/Tcp/Noblock.antt =====
-- `set_fd_noblock` of src/utils.cpp calls `fcntl` within an assertion.
use tiny_coro_lab.Prelude.{
  ℕ, ◌^◌, ◌≡◌, refl, sym, ◌∙◌, ap, subst, Bool, true, false, inl, inr, Bool-cases, ltb, not,
}
use tiny_coro_lab.Tcp.{
  Sockets, Message, Outcome, done, exits, aborts, ◌>>=◌, negative, with_nonblock, set_fd_noblock,
  assert,
}

pub done-inj {ℓ} : {A : Type ℓ} {a b : A} → done a ≡ done b → a ≡ b
done-inj {a} h = ap (λ o. elim o [ done x ↦ x | exits m ↦ a | aborts ↦ a ]) h

pub aborts-ne-done {ℓ} : {A : Type ℓ} {a : A} → aborts ≡ done a → ⊥
aborts-ne-done h = subst (λ o. elim o [ done x ↦ ⊥ | exits m ↦ ⊥ | aborts ↦ Unit {0} ]) h tt

pub exits-ne-done {ℓ} : {A : Type ℓ} {a : A} {m : Message} → exits m ≡ done a → ⊥
exits-ne-done h = subst (λ o. elim o [ done x ↦ ⊥ | exits m ↦ Unit {0} | aborts ↦ ⊥ ]) h tt

-- A chain that is done has done each of its parts.
pub bind-done {ℓ κ} :
    {A : Type ℓ} {B : Type κ} (o : Outcome A) (f : A → Outcome B) (b : B)
    → (o >>= f) ≡ done b
    → (a : A) × (o ≡ done a) × (f a ≡ done b)
bind-done (done a) f b h = (a, refl, h)
bind-done (exits m) f b h = absurd (exits-ne-done h)
bind-done aborts f b h = absurd (aborts-ne-done h)

module _ (S : Sockets) where
  -- A build with NDEBUG leaves every descriptor in the mode that it had: `set_fd_noblock` returns,
  -- and no descriptor's status flags have changed.
  pub set_fd_noblock-ndebug :
      (fd : ℕ) (k : S.Kernel)
      → (k' : S.Kernel) × (set_fd_noblock S true fd k ≡ done k')
        × ((n : ℕ) → S.status_flags k' n ≡ S.status_flags k n)
  unfolding set_fd_noblock
  set_fd_noblock-ndebug fd k = (_, refl, λ n. S.getfl-keeps fd n k)

  assert-done : (b : Bool) (u : Unit {0}) → assert S false b ≡ done u → b ≡ true
  assert-done true u h = refl
  assert-done false u h = absurd (aborts-ne-done h)

  -- A build with assertions sets the mode or aborts: when `set_fd_noblock` returns, the status flags
  -- of the descriptor are those that it had, with O_NONBLOCK.
  pub set_fd_noblock-sets :
      (fd : ℕ) (k k' : S.Kernel)
      → set_fd_noblock S false fd k ≡ done k'
      → S.status_flags k' fd ≡ with_nonblock (S.status_flags k fd)
  unfolding set_fd_noblock
  set_fd_noblock-sets fd k k' h =
      let flags = (S.fcntl_getfl fd k).0 in
      let k₁ = (S.fcntl_getfl fd k).1 in
      let (u, valid, rest) = bind-done (assert S false (not (negative flags))) _ k' h in
      let good = not_not (ltb flags (2 ^ 31)) (assert-done _ u valid) in
      let set = S.fcntl_setfl fd (with_nonblock flags) k₁ in
      elim (Bool-cases (ltb set.0 (2 ^ 31))) [
        | inl ok ↦
            let same : set.1 ≡ k' = done-inj (rw ok at rest) in
            ap (λ x. S.status_flags x fd) (sym same)
            ∙ S.setfl-flags fd (with_nonblock flags) k₁ ok
            ∙ ap with_nonblock (S.getfl-flags fd k good)
        | inr failed ↦ absurd (aborts-ne-done (rw failed at rest))
      ]
    where
      not_not : (b : Bool) → not (not b) ≡ true → b ≡ true
      not_not true h = refl
      not_not false h = h
