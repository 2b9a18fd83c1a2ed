-- ===== src/Tcp/Plain.antt =====
-- An operating system that grants every call: descriptors are numbered from 3, and a text is the
-- address that it stands for, or `none` if it is no address.
use tiny_coro_lab.Prelude.{ℕ, ◌+◌, refl, Option, none, some, update, update_self}
use tiny_coro_lab.Tcp.{Sockets}

abbrev pub text_address : Option ℕ → ℕ → ℕ × ℕ
text_address none a = (0, a)
text_address (some n) a = (1, n)

-- The status flags of every descriptor, and how many are open.
abbrev pub granting : Sockets
granting = record {
  Kernel = (ℕ → ℕ) × ℕ;
  Text = Option ℕ;
  status_flags = λ k fd. k.0 fd;
  socket = λ k. (3 + k.1, (k.0, k.1 + 1));
  fcntl_getfl = λ fd k. (k.0 fd, k);
  fcntl_setfl = λ fd flags k. (0, (update k.0 fd flags, k.1));
  inet_pton = text_address;
  bind = λ fd port addr k. (0, k);
  listen = λ fd backlog k. (0, k);
  getfl-flags = λ fd k ok. refl;
  getfl-keeps = λ fd n k. refl;
  setfl-flags = λ fd flags k ok. update_self k.0 fd flags;
}
