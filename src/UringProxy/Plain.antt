-- ===== src/UringProxy/Plain.antt =====
-- A small instance of what include/coro/uring_proxy.hpp relies on, for runs: descriptors are numbered
-- in order, and every other call succeeds.
use tiny_coro_lab.Prelude.{
  ℕ, ◌+◌, ◌-◌, ◌^◌, ◌≡◌, refl, Bool, true, false, update, inl, inr, Bool-cases, if◌then◌else◌,
  arith,
}
use tiny_coro_lab.FixedFd.{Files, is_not_positive}
use tiny_coro_lab.UringProxy.{Calls, negative}

-- The table, the next number, and which descriptors are open.
pub record Kernel : Type 0 where
  pub table : ℕ → ℕ
  pub next : ℕ
  pub opened : ℕ → Bool

-- A number that is taken is refused.
abbrev pub open_next : Kernel → ℕ × Kernel
open_next k =
    if k.opened k.next
    then (2 ^ 32 - 1, k)
    else (k.next, record k { next = k.next + 1; opened = update k.opened k.next true })

abbrev pub plain_files : Files
plain_files = record {
  Kernel = Kernel;
  table = λ k. k.table;
  register_files = λ fds n k. (0, record k { table = fds });
  register_files_update = λ fds n k. (n, record k { table = fds });
  open_null = open_next;
  register-table = λ fds n k i ok small. refl;
  update-table = λ fds n k i ok small. refl;
}

-- A number that a test of the result refuses when it is that of a failure is fresh, and then open.
pub open_next-opens :
    (bad : ℕ → Bool) (k : Kernel)
    → bad (2 ^ 32 - 1) ≡ true
    → bad (open_next k).0 ≡ false
    → (k.opened (open_next k).0 ≡ false)
      × ((open_next k).1.opened ≡ update k.opened (open_next k).0 true)
open_next-opens bad k fails ok = elim (Bool-cases (k.opened k.next)) [
  | inl taken ↦ absurd (cc (fails, rw taken at ok))
  | inr free ↦ rw free (free, refl)
]

-- The ring takes the next number, if it is free.
abbrev pub open_ring : Kernel → ℕ × ℕ × Kernel
open_ring k =
    if k.opened k.next
    then (1, 0, k)
    else (0, k.next, record k { next = k.next + 1; opened = update k.opened k.next true })

pub open_ring-opens :
    (k : Kernel)
    → (open_ring k).0 ≡ 0
    → (k.opened (open_ring k).1 ≡ false)
      × ((open_ring k).2.opened ≡ update k.opened (open_ring k).1 true)
open_ring-opens k ok = elim (Bool-cases (k.opened k.next)) [
  | inl taken ↦ absurd (omega (arith, rw taken at ok))
  | inr free ↦ rw free (free, refl)
]

abbrev pub plain_calls : Calls plain_files
plain_calls = record {
  is_open = λ k. k.opened;
  eventfd = open_next;
  queue_init = λ n k. open_ring k;
  register_eventfd = λ fd k. (0, k);
  close = λ fd k. record k { opened = update k.opened fd false };
  queue_exit = λ fd k. record k { opened = update k.opened fd false };
  eventfd-fresh = λ k ok. (open_next-opens negative k refl ok).0;
  eventfd-opens = λ k ok. (open_next-opens negative k refl ok).1;
  open_null-fresh = λ k ok. (open_next-opens is_not_positive k refl ok).0;
  open_null-opens = λ k ok. (open_next-opens is_not_positive k refl ok).1;
  close-closes = λ fd k. refl;
  queue_init-fresh = λ n k ok. (open_ring-opens k ok).0;
  queue_init-opens = λ n k ok. (open_ring-opens k ok).1;
  register_eventfd-opens = λ fd k. refl;
  register_files-opens = λ fds n k. refl;
  queue_exit-closes = λ fd k. refl;
}
