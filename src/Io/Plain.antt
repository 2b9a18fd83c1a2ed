-- ===== src/Io/Plain.antt =====
-- Submission entries as records, in a ring of which one entry is free, and in one with none.
use tiny_coro_lab.Prelude.{ℕ, refl, Option, List, [], Bool, false}
use tiny_coro_lab.Engine.{Effect}
use tiny_coro_lab.Engine.Plain.{list_platform, fresh_engine}
use tiny_coro_lab.Io.{IoInfo, IoType, Prep, prep_nop, Uring, nothing}
use tiny_coro_lab.Io.Awaiters.{Local}

pub record Entry : Type 0 where
  pub request : Prep
  pub flags : ℕ
  pub user_data : ℕ

abbrev pub entry_uring : Option ℕ → Uring list_platform
entry_uring free = record {
  Sqe = Entry;
  request = λ q. q.request;
  flags = λ q. q.flags;
  user_data = λ q. q.user_data;
  get_sqe = λ k. (free, k);
  prep = λ p q. record q { request = p };
  set_flags = λ f q. record q { flags = f };
  set_data = λ m q. record q { user_data = m };
  prep-request = λ p q. refl;
  set_flags-flags = λ f q. refl;
  set_data-request = λ m q. refl;
  set_data-flags = λ m q. refl;
  set_data-user_data = λ m q. refl;
}

abbrev pub blank_info : IoInfo
blank_info = record { handle = 0; result = 0; io_type = IoType.none; payload = 0; cb = nothing }

abbrev pub fresh_local : (free : Option ℕ) → Local list_platform (entry_uring free)
fresh_local free = record {
  engine = fresh_engine;
  sqes = λ q. record { request = prep_nop; flags = 0; user_data = 0 };
  infos = λ m. blank_info;
}

-- Coroutines that do nothing.
abbrev pub idle_resume : ℕ → (ℕ → IoInfo) × ℕ → ((ℕ → IoInfo) × ℕ) × List Effect × Bool
idle_resume h st = (st, [], false)

abbrev pub no_clean : ℕ → (ℕ → IoInfo) × ℕ → (ℕ → IoInfo) × ℕ
no_clean h st = st
