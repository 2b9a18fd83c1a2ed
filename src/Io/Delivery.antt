-- ===== src/Io/Delivery.antt =====
-- A batch of completions that one `poll_submit` of src/engine.cpp hands to the callbacks of
-- src/io/io_awaiter.cpp: every waiting coroutine has its own result, and is queued once.
use tiny_coro_lab.Prelude.{
  ℕ, ◌≡◌, ◌≢◌, subst, refl, sym, ◌∙◌, ap, ◌≤◌, arith, List, [], ◌∷◌, ◌++◌, Bool, true, false, count,
  count_self, count-ne_head, update, update_ne, update_self,
}
use mathlib.Core.Bool.{false≢true}
use tiny_coro_lab.Engine.{Platform, Cqe, Effect, submits, Worker, poll_submit}
use tiny_coro_lab.Engine.Turns.{handles}
use tiny_coro_lab.Engine.Peeked.{peeked}
use tiny_coro_lab.Engine.Delivery.{run_callbacks, poll_submit-Delivered}
use tiny_coro_lab.Io.{
  IoInfo, Callback, nothing, noop_awaiter_callback, stdin_awaiter_callback,
  tcp_accept_awaiter_callback, tcp_read_awaiter_callback, tcp_write_awaiter_callback,
  tcp_close_awaiter_callback, tcp_connect_awaiter_callback, timer_awaiter_callback, call,
  io_program, noop_callback, stdin_callback, accept_callback, read_callback, write_callback,
  close_callback, connect_callback, timer_callback,
}

-- The requests that completed.
abbrev pub keys : List Cqe → List ℕ
keys [] = []
keys (c ∷ l) = c.user_data ∷ keys l

-- The coroutines that wait for them.
abbrev pub waiting : (ℕ → IoInfo) → List Cqe → List ℕ
waiting infos [] = []
waiting infos (c ∷ l) = (infos c.user_data).handle ∷ waiting infos l

abbrev pub has_callback : Callback → Bool
has_callback nothing = false
has_callback other = true

-- Each request of the batch has a callback.
abbrev pub AllSet : (ℕ → IoInfo) → List Cqe → Type 0
AllSet infos [] = Unit {0}
AllSet infos (c ∷ l) = (has_callback (infos c.user_data).cb ≡ true) × AllSet infos l

-- What each request of the batch holds is what its own callback makes of its own result.
abbrev pub Answered : (before after : ℕ → IoInfo) → List Cqe → Type 0
Answered before after [] = Unit {0}
Answered before after (c ∷ l) =
    (after c.user_data ≡ (call (before c.user_data).cb (before c.user_data) c.res).0)
    × Answered before after l

call-effects :
    (cb : Callback) (info : IoInfo) (res : ℕ)
    → has_callback cb ≡ true
    → (call cb info res).1 ≡ submits info.handle ∷ []
unfolding call noop_callback stdin_callback accept_callback read_callback write_callback
    close_callback connect_callback timer_callback
call-effects nothing info res h = absurd (false≢true h)
call-effects noop_awaiter_callback info res h = refl
call-effects stdin_awaiter_callback info res h = refl
call-effects tcp_accept_awaiter_callback info res h = refl
call-effects tcp_read_awaiter_callback info res h = refl
call-effects tcp_write_awaiter_callback info res h = refl
call-effects tcp_close_awaiter_callback info res h = refl
call-effects tcp_connect_awaiter_callback info res h = refl
call-effects timer_awaiter_callback info res h = refl

-- A change at an address that the batch does not mention is no matter to it.
apart :
    (f : ℕ → IoInfo) (m : ℕ) (i : IoInfo) (c : Cqe) (l : List Cqe)
    → count m (keys (c ∷ l)) ≡ 0
    → (update f m i c.user_data ≡ f c.user_data) × (count m (keys l) ≡ 0)
apart f m i c l h = (update_ne f i (count-ne_head m c.user_data (keys l) h), omega (arith, h))

waiting-update :
    (f : ℕ → IoInfo) (m : ℕ) (i : IoInfo) (l : List Cqe)
    → count m (keys l) ≡ 0
    → waiting (update f m i) l ≡ waiting f l
waiting-update f m i [] h = refl
waiting-update f m i (c ∷ l) h =
    let (same, rest) = apart f m i c l h in
    ap (λ (x : IoInfo). x.handle ∷ waiting (update f m i) l) same
    ∙ ap (λ t. (f c.user_data).handle ∷ t) (waiting-update f m i l rest)

AllSet-update :
    (f : ℕ → IoInfo) (m : ℕ) (i : IoInfo) (l : List Cqe)
    → count m (keys l) ≡ 0
    → AllSet f l
    → AllSet (update f m i) l
AllSet-update f m i [] h all = tt
AllSet-update f m i (c ∷ l) h (here, all) =
    let (same, rest) = apart f m i c l h in
    (ap (λ (x : IoInfo). has_callback x.cb) same ∙ here, AllSet-update f m i l rest all)

Answered-update :
    (f g : ℕ → IoInfo) (m : ℕ) (i : IoInfo) (l : List Cqe)
    → count m (keys l) ≡ 0
    → Answered (update f m i) g l
    → Answered f g l
Answered-update f g m i [] h all = tt
Answered-update f g m i (c ∷ l) h (here, all) =
    let (same, rest) = apart f m i c l h in
    (here ∙ ap (λ (x : IoInfo). (call x.cb x c.res).0) same, Answered-update f g m i l rest all)

module _ (S : Type 0) (resume : ℕ → (ℕ → IoInfo) × S → ((ℕ → IoInfo) × S) × List Effect × Bool)
    (clean : ℕ → (ℕ → IoInfo) × S → (ℕ → IoInfo) × S) where
  abbrev callbacks : List Cqe → (ℕ → IoInfo) × S → ((ℕ → IoInfo) × S) × List Effect
  callbacks = run_callbacks (io_program S resume clean)

  untouched :
      (l : List Cqe) (f : ℕ → IoInfo) (more : S) (n : ℕ)
      → count n (keys l) ≡ 0
      → (callbacks l (f, more)).0.0 n ≡ f n
  untouched [] f more n h = refl
  untouched (c ∷ l) f more n h =
      let i = (call (f c.user_data).cb (f c.user_data) c.res).0 in
      let differs : c.user_data ≢ n = λ e. count-ne_head n c.user_data (keys l) h (sym e) in
      untouched l (update f c.user_data i) more n (omega (arith, h)) ∙ update_ne f i differs

  batch-Answered :
      (l : List Cqe) (f : ℕ → IoInfo) (more : S)
      → ((n : ℕ) → count n (keys l) ≤ 1)
      → AllSet f l
      → Answered f (callbacks l (f, more)).0.0 l × (handles (callbacks l (f, more)).1 ≡ waiting f l)
  batch-Answered [] f more once all = (tt, refl)
  batch-Answered (c ∷ l) f more once (here, all) =
      let m = c.user_data in
      let i = (call (f m).cb (f m) c.res).0 in
      let alone : count m (keys l) ≡ 0 = omega (arith, once m, count_self m (keys l)) in
      let (rest, queued) =
        batch-Answered l (update f m i) more (λ n. omega (arith, once n))
          (AllSet-update f m i l alone all) in
      (
        (
          untouched l (update f m i) more m alone ∙ update_self f m i,
          Answered-update f _ m i l alone rest,
        ),
        rw (call-effects (f m).cb (f m) c.res here)
            (ap (λ t. (f m).handle ∷ t) (queued ∙ waiting-update f m i l alone)),
      )

  -- The batch that a `poll_submit` peeks in the ring holds a completion for a request at most once,
  -- and its requests have their callbacks. Then each of these requests holds the result of its own
  -- completion and no other request has changed; the coroutines that wait for the batch are queued
  -- behind what was queued, in the order of the ring.
  pub poll-delivers :
      (P : Platform) (w : Worker P (io_program S resume clean))
      → ((n : ℕ) → count n (keys (peeked P w.engine)) ≤ 1)
      → AllSet w.store.0 (peeked P w.engine)
      → (let v = poll_submit P (io_program S resume clean) w in
          Answered w.store.0 v.store.0 (peeked P w.engine)
          × ((n : ℕ) → count n (keys (peeked P w.engine)) ≡ 0 → v.store.0 n ≡ w.store.0 n)
          × (P.contents v.engine.task_queue
              ≡ P.contents w.engine.task_queue ++ waiting w.store.0 (peeked P w.engine)))
  poll-delivers P w once all =
      let batch = peeked P w.engine in
      let (log, done, st, q) = poll_submit-Delivered P (io_program S resume clean) w in
      let (answers, queued) = batch-Answered batch w.store.0 w.store.1 once all in
      (
        subst (λ (s : (ℕ → IoInfo) × S). Answered w.store.0 s.0 batch) (sym st) answers,
        λ n apart_from.
            ap (λ (s : (ℕ → IoInfo) × S). s.0 n) st
            ∙ untouched batch w.store.0 w.store.1 n apart_from,
        q ∙ ap (λ t. P.contents w.engine.task_queue ++ t) queued,
      )
