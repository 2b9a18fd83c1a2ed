-- ===== src/Spinlock/Exclusion.antt =====
-- At most one thread has the spinlock of include/coro/spinlock.hpp.
use tiny_coro_lab.Prelude.{
  ℕ, ◌≡◌, ◌≢◌, refl, sym, ◌∙◌, ap, subst, Bool, true, false, not, inl, inr, Bool-cases, eq_or_ne,
  eqb_refl, eqb_ne, update, update_self, update_id, ◌⊎◌, ◌↔◌, if◌then◌else◌,
}
use mathlib.Core.Bool.{false≢true}
use tiny_coro_lab.Spinlock.{
  Pc, idle, exchanging, spinning, try_loading, try_exchanging, holding, Spinlock, access, go, lock,
  try_lock, unlock, Reach, made, locks, tries, unlocks, goes,
}

abbrev pub has : Pc → Bool
has holding = true
has other = false

pub record Inv (s : Spinlock) : Type 0 where
  pub free : s.lock_flag ≡ false → (t : ℕ) → has (s.pc t) ≡ false
  pub taken : s.lock_flag ≡ true → (t : ℕ) × (has (s.pc t) ≡ true)
  pub one : (t u : ℕ) → has (s.pc t) ≡ true → has (s.pc u) ≡ true → t ≡ u

-- A thread after one of them was written to.
has-update :
    (f : ℕ → Pc) (t : ℕ) (p : Pc) (u : ℕ)
    → ((t ≡ u) × (has (update f t p u) ≡ has p)) ⊎ ((t ≢ u) × (has (update f t p u) ≡ has (f u)))
has-update f t p u = elim (eq_or_ne t u) [
  | inl e ↦ inl (e, rw (← e, eqb_refl t) refl)
  | inr n ↦ inr (n, rw (eqb_ne n) refl)
]

module _ (s : Spinlock) (t : ℕ) (p : Pc) (i : Inv s) where
  -- The thread does not have the lock before or after.
  outside :
      has (s.pc t) ≡ false
      → has p ≡ false
      → Inv (record { lock_flag = s.lock_flag; pc = update s.pc t p })
  outside before after = record {
    free = λ f u. elim (has-update s.pc t p u) [
      | inl (e, h) ↦ h ∙ after
      | inr (n, h) ↦ h ∙ i.free f u
    ];
    taken = λ f.
        let (u, held) = i.taken f in
        elim (has-update s.pc t p u) [
          | inl (e, h) ↦ absurd (false≢true (sym before ∙ ap (λ x. has (s.pc x)) e ∙ held))
          | inr (n, h) ↦ (u, h ∙ held)
        ];
    one = λ u v hu hv. elim (has-update s.pc t p u) [
      | inl (e, h) ↦ absurd (false≢true (sym after ∙ sym h ∙ hu))
      | inr (n, h) ↦ elim (has-update s.pc t p v) [
        | inl (e', h') ↦ absurd (false≢true (sym after ∙ sym h' ∙ hv))
        | inr (n', h') ↦ i.one u v (sym h ∙ hu) (sym h' ∙ hv)
      ]
    ];
  }

  takes :
      s.lock_flag ≡ false → has p ≡ true → Inv (record { lock_flag = true; pc = update s.pc t p })
  takes was after =
      let only : (u : ℕ) → has (update s.pc t p u) ≡ true → t ≡ u = λ u hu.
        elim (has-update s.pc t p u) [
          | inl (e, h) ↦ e
          | inr (n, h) ↦ absurd (false≢true (sym (h ∙ i.free was u) ∙ hu))
        ] in
      record {
        free = λ f u. absurd (false≢true (sym f));
        taken = λ f. (t, ap has (update_self s.pc t p) ∙ after);
        one = λ u v hu hv. sym (only u hu) ∙ only v hv;
      }

  releases :
      has (s.pc t) ≡ true → has p ≡ false → Inv (record { lock_flag = false; pc = update s.pc t p })
  releases before after =
      let none_has : (u : ℕ) → has (update s.pc t p u) ≡ false = λ u. elim (has-update s.pc t p u) [
        | inl (e, h) ↦ h ∙ after
        | inr (n, h) ↦ elim (Bool-cases (has (s.pc u))) [
          | inl held ↦ absurd (n (i.one t u before held))
          | inr not_held ↦ h ∙ not_held
        ]
      ] in
      record {
        free = λ f u. none_has u;
        taken = λ f. absurd (false≢true f);
        one = λ u v hu hv. absurd (false≢true (sym (none_has u) ∙ hu));
      }

  exchanges :
      (failed : Pc)
      → has failed ≡ false
      → has (s.pc t) ≡ false
      → p ≡ (if not s.lock_flag then holding else failed)
      → Inv (record { lock_flag = true; pc = update s.pc t p })
  exchanges failed not_has before result = elim (Bool-cases s.lock_flag) [
    | inl is_taken ↦
        subst (λ b. Inv (record { lock_flag = b; pc = update s.pc t p })) is_taken
          (outside before
            (ap has (result ∙ ap (λ b. if not b then holding else failed) is_taken) ∙ not_has))
    | inr is_free ↦
        takes is_free (ap has (result ∙ ap (λ b. if not b then holding else failed) is_free))
  ]

test-has : (b : Bool) (p q : Pc) → has p ≡ false → has q ≡ false → has (if b then p else q) ≡ false
test-has true p q hp hq = hp
test-has false p q hp hq = hq

go-Inv : {s : Spinlock} (t : ℕ) (p : Pc) → s.pc t ≡ p → Inv s → Inv (go t s)
unfolding go access
go-Inv {s} t idle e i = rw e (outside s t idle i (ap has e) refl)
go-Inv {s} t exchanging e i = rw e (exchanges s t _ i spinning refl (ap has e) refl)
go-Inv {s} t spinning e i =
    rw e (outside s t _ i (ap has e) (test-has s.lock_flag spinning exchanging refl refl))
go-Inv {s} t try_loading e i =
    rw e (outside s t _ i (ap has e) (test-has (not s.lock_flag) try_exchanging idle refl refl))
go-Inv {s} t try_exchanging e i = rw e (exchanges s t _ i idle refl (ap has e) refl)
go-Inv {s} t holding e i =
    rw e
      (subst (λ f. Inv (record { lock_flag = s.lock_flag; pc = f })) (sym (update_id s.pc t e)) i)

pub Reach-Inv : {s : Spinlock} → Reach s → Inv s
unfolding lock try_lock unlock
Reach-Inv made = record {
  free = λ f t. refl;
  taken = λ f. absurd (false≢true f);
  one = λ t u ht hu. absurd (false≢true ht);
}
Reach-Inv (locks {s} t r at) = outside s t exchanging (Reach-Inv r) (ap has at) refl
Reach-Inv (tries {s} t r at) = outside s t try_loading (Reach-Inv r) (ap has at) refl
Reach-Inv (unlocks {s} t r at) = releases s t idle (Reach-Inv r) (ap has at) refl
Reach-Inv (goes {s} t r) = go-Inv t (s.pc t) refl (Reach-Inv r)

-- In every interleaving at most one thread has the lock, and the flag is set exactly while one has.
pub lock_excludes :
    {s : Spinlock}
    → Reach s
    → ((t u : ℕ) → s.pc t ≡ holding → s.pc u ≡ holding → t ≡ u)
      × ((s.lock_flag ≡ true) ↔ ((t : ℕ) × (s.pc t ≡ holding)))
lock_excludes {s} r =
    let i = Reach-Inv r in
    (
      λ t u ht hu. i.one t u (ap has ht) (ap has hu),
      (
        λ f. let (t, held) = i.taken f in (t, has-holding (s.pc t) held),
        λ held. elim (Bool-cases s.lock_flag) [
          | inl is_taken ↦ is_taken
          | inr is_free ↦ absurd (false≢true (sym (i.free is_free held.0) ∙ ap has held.1))
        ],
      ),
    )
  where
    has-holding : (p : Pc) → has p ≡ true → p ≡ holding
    has-holding holding h = refl
    has-holding idle h = absurd (false≢true h)
    has-holding exchanging h = absurd (false≢true h)
    has-holding spinning h = absurd (false≢true h)
    has-holding try_loading h = absurd (false≢true h)
    has-holding try_exchanging h = absurd (false≢true h)
