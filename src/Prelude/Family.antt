-- ===== src/Prelude/Family.antt =====
-- Families indexed by an address or a thread, and a write at one index.
use Prim.Native.Nat.{ℕ}
use mathlib.Core.Path.{◌≡◌, fun_ext}
use mathlib.Core.Logic.{◌≢◌}
use native.Mathlib.Omega.{arith}
use tiny_coro_lab.Prelude.Tests.{◌==◌, if◌then◌else◌}

abbrev pub update {ℓ} : {A : Type ℓ} (f : ℕ → A) (p : ℕ) (v : A) (q : ℕ) → A
update f p v q = if p == q then v else f q

pub update_self {ℓ} : {A : Type ℓ} (f : ℕ → A) (i : ℕ) (a : A) → update f i a i ≡ a
update_self f i a = ground arith

pub update_ne {ℓ} : {A : Type ℓ} (f : ℕ → A) {i j : ℕ} (a : A) → i ≢ j → update f i a j ≡ f j
update_ne f a h = ground arith

pub update_id {ℓ} : {A : Type ℓ} (f : ℕ → A) (i : ℕ) {a : A} → f i ≡ a → update f i a ≡ f
update_id f i h = fun_ext λ j. ground arith

pub update_const {ℓ} : {A : Type ℓ} (f : ℕ → A) (i : ℕ) → f ≡ update f i (f i)
update_const f i = fun_ext λ j. ground arith
