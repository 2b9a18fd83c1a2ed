-- ===== src/Engine/Plain.antt =====
-- A platform whose queue is a list and whose ring completes each request at once, and a program
-- whose coroutines request io and whose callbacks submit the coroutine again.
use tiny_coro_lab.Prelude.{
  ℕ, zero, suc, ◌+◌, ◌%◌, ◌≡◌, ◌≤◌, refl, true, false, List, [], ◌∷◌, ◌++◌, arith, length, ◌==◌,
}
use tiny_coro_lab.Contexts.{size_mod}
use tiny_coro_lab.Engine.{Platform, Program, Cqe, submits, requests_io, Engine, Worker}

abbrev pub pop_list : List ℕ → ℕ × List ℕ
pop_list [] = (0, [])
pop_list (x ∷ xs) = (x, xs)

pub pop_list-contents :
    (q : List ℕ) (h : ℕ) (hs : List ℕ) → q ≡ h ∷ hs → ((pop_list q).0 ≡ h) × ((pop_list q).1 ≡ hs)
pop_list-contents q h hs e = rw e (refl, refl)

abbrev pub completions : ℕ → List Cqe
completions zero = []
completions (suc n) = record { user_data = n; res = 0 } ∷ completions n

length-completions : (n : ℕ) → length (completions n) ≡ n
length-completions zero = refl
length-completions (suc n) = omega (arith, length-completions n)

pub completions-at_most : (n : ℕ) → length (completions n) ≤ n
completions-at_most n = omega (arith, length-completions n)

abbrev pub list_platform : Platform
list_platform = record {
  Queue = List ℕ;
  empty = [];
  push = λ h q. q ++ h ∷ [];
  pop = pop_list;
  was_size = length;
  was_empty = λ q. length q == 0;
  contents = λ q. q;
  contents-empty = refl;
  contents-push = λ h q. refl;
  contents-pop = pop_list-contents;
  size-contents = λ q. refl;
  empty-contents = λ q. refl;
  Kernel = ℕ;
  submit = λ k. (k + 1) % size_mod;
  write_eventfd = λ v k. (k + v) % size_mod;
  wait_eventfd = λ k. (k, 0);
  peek_batch_cqe = λ n k. (completions n, k);
  cq_advance = λ n k. k;
  peek-at_most = λ n k. completions-at_most n;
}

abbrev pub echo_program : Program
echo_program = record {
  Store = ℕ;
  resume = λ h st. (st + 1, requests_io ∷ [], false);
  clean = λ h st. st;
  cb = λ cqe st. (st, submits cqe.user_data ∷ []);
}

-- The coroutines of this program are done when they are resumed.
abbrev pub quiet_program : Program
quiet_program = record {
  Store = ℕ;
  resume = λ h st. (st + 1, [], true);
  clean = λ h st. st;
  cb = λ cqe st. (st, []);
}

abbrev pub fresh_engine : Engine list_platform
fresh_engine = record { task_queue = []; num_io_wait_submit = 0; num_io_running = 0; kernel = 0 }

abbrev pub fresh : Worker list_platform echo_program
fresh = record { engine = fresh_engine; store = 0; resumed = []; completed = [] }
