-- ===== src/FixedFd/Kept.antt =====
-- The invariant of FixedFd/Invariant is kept by `init` of include/coro/uring_proxy.hpp, and by the
-- constructor and the end of a connector.
use tiny_coro_lab.Prelude.{
  ℕ, ◌+◌, ◌≡◌, ◌≢◌, refl, sym, ◌∙◌, ap, subst, ◌<◌, arith, true, Bool-cases, inl, inr, none, some,
  ltb, ◌==◌, eqb_ne, eq_or_ne, eqb_sound, List, [], ◌∷◌, ◌++◌, count, count-append, count_self,
  count-ne_head, update, update_self, update_ne, bind-some, test-at_most_one, if◌then◌else◌,
}
use mathlib.Core.Option.{none-ne-some, some-injective}
use tiny_coro_lab.MarkedBuffer.{MarkedBuffer, Item, init, set_data}
use tiny_coro_lab.MarkedBuffer.Lending.{lend, count-indices}
use tiny_coro_lab.FixedFd.{Files, fix_fd_array_size, Proxy, open_null_fds, init_fds, Connector}
use tiny_coro_lab.FixedFd.Invariant.{lent, ServesAs, AllServe, Inv}
use tiny_coro_lab.FixedFd.Inversion.{Connected, ClosedItem}

-- A write at an index that no connector has borrowed is no matter to them.
ServesAs-update :
    (contents : ℕ → ℕ) (m v : ℕ) (item : Item) (rest : List ℕ) (sockfd original flag : ℕ)
    → count m (lend item rest) ≡ 0
    → ServesAs contents item sockfd original flag
    → ServesAs (update contents m v) item sockfd original flag × (count m rest ≡ 0)
ServesAs-update contents m v none rest sockfd original flag h serves = (serves, h)
ServesAs-update contents m v (some idx) rest sockfd original flag h (at, fixed, holds) =
    ((at, fixed, update_ne contents v (count-ne_head m idx rest h) ∙ holds), omega (arith, h))

AllServe-update :
    (contents : ℕ → ℕ) (m v : ℕ) (live : List Connector)
    → count m (lent live) ≡ 0
    → AllServe contents live
    → AllServe (update contents m v) live
AllServe-update contents m v [] h all = tt
AllServe-update contents m v (c ∷ cs) h (here, all) =
    let (serves, rest) =
      ServesAs-update contents m v c.fixed_fd (lent cs) c.sockfd c.original_fd c.sqe_flag h here in
    (serves, AllServe-update contents m v cs rest all)

count-lend :
    (j : ℕ) (item : Item) (l : List ℕ) → count j (lend item l) ≡ count j l + count j (lend item [])
count-lend j none l = omega arith
count-lend j (some idx) l = omega arith

module _ (c : Connector) (after : List Connector) where
  pub count-without :
      (j : ℕ) (before : List Connector)
      → count j (lent (before ++ c ∷ after))
        ≡ count j (lent (before ++ after)) + count j (lend c.fixed_fd [])
  count-without j [] = count-lend j c.fixed_fd (lent after)
  count-without j (b ∷ before) = omega (
    arith,
    count-lend j b.fixed_fd (lent (before ++ c ∷ after)),
    count-lend j b.fixed_fd (lent (before ++ after)),
    count-without j before,
  )

  pub AllServe-split :
      (contents : ℕ → ℕ) (before : List Connector)
      → AllServe contents (before ++ c ∷ after)
      → ServesAs contents c.fixed_fd c.sockfd c.original_fd c.sqe_flag
        × AllServe contents (before ++ after)
  AllServe-split contents [] all = all
  AllServe-split contents (b ∷ before) (here, all) =
      let (serves, rest) = AllServe-split contents before all in (serves, (here, rest))

filled :
    (j n : ℕ) (values : ℕ → ℕ) (b : MarkedBuffer ℕ)
    → count j (set_data n values (init b)).que ≡ (if ltb j n then 1 else 0)
unfolding set_data init
filled j n values b = ground (arith, count-indices j 0 n)

null_filled :
    (j n : ℕ) (values : ℕ → ℕ) (b : MarkedBuffer ℕ)
    → 0 < count j (set_data n values (init b)).que
    → (set_data n values (init b)).contents j ≡ values j
unfolding set_data init
null_filled j n values b more = ground (arith, count-indices j 0 n)

module _ (F : Files) where
  pub opens-Inv :
      {p q : Proxy F true} {live : List Connector} (sockfd : ℕ) (c : Connector)
      → Inv F p live
      → Connected F sockfd c p q
      → Inv F q (c ∷ live)
  opens-Inv {p} {q} {live} sockfd c i (inl (made, same)) =
      subst (λ x. Inv F x (c ∷ live)) (sym same)
        (subst (λ x. Inv F p (x ∷ live)) (sym made)
          record {
            lent_once = i.lent_once;
            in_kernel = i.in_kernel;
            free_null = i.free_null;
            serves = ((refl, refl), i.serves);
          })
  opens-Inv {p} {q} {live} sockfd c i (inr (idx, rest, k, queued, made, new, agrees)) =
      let most = test-at_most_one (ltb idx fix_fd_array_size) in
      let at : (j : ℕ) → count j p.fds.que ≡ count j (idx ∷ rest) = λ j. ap (count j) queued in
      let differs : (j : ℕ) → 0 < count j rest → idx ≢ j = λ j more e.
        let twice = count_self idx rest in
        let same = ap (λ x. count x rest) e in
        absurd (omega (arith, i.lent_once idx, at idx, twice, same, more, most)) in
      let lit : Connector = record {
        sockfd = idx;
        original_fd = sockfd;
        fixed_fd = some idx;
        sqe_flag = 1;
      } in
      subst (λ x. Inv F q (x ∷ live)) (sym made)
        (subst (λ x. Inv F x (lit ∷ live)) (sym new)
          record {
            lent_once = λ j. omega (arith, i.lent_once j, at j);
            in_kernel = agrees;
            free_null = λ j more.
                update_ne p.fds.contents sockfd (differs j more)
                ∙ i.free_null j (omega (arith, at j, more));
            serves = (
              (refl, refl, update_self p.fds.contents idx sockfd),
              AllServe-update p.fds.contents idx sockfd live
                  (omega (arith, i.lent_once idx, at idx, count_self idx rest, most)) i.serves,
            );
          })

  pub closes-Inv :
      {p q : Proxy F true} (before after : List Connector) (c : Connector)
      → Inv F p (before ++ c ∷ after)
      → ClosedItem F c.fixed_fd p q
      → Inv F q (before ++ after)
  closes-Inv {p} {q} before after c i closed =
      go c.fixed_fd closed (λ j. count-without c after j before)
    where
      go :
          (item : Item)
          → ClosedItem F item p q
          → ((j : ℕ)
              → count j (lent (before ++ c ∷ after))
                ≡ count j (lent (before ++ after)) + count j (lend item []))
          → Inv F q (before ++ after)
      go none same without =
          subst (λ x. Inv F x (before ++ after)) (sym same)
            record {
              lent_once = λ j. omega (arith, i.lent_once j, without j);
              in_kernel = i.in_kernel;
              free_null = i.free_null;
              serves = (AllServe-split c after p.fds.contents before i.serves).1;
            }
      go (some idx) (k, new, agrees) without =
          let most = test-at_most_one (ltb idx fix_fd_array_size) in
          let null = p.null_fds idx in
          subst (λ x. Inv F x (before ++ after)) (sym new)
            record {
              lent_once =
                  λ j. omega (arith, i.lent_once j, without j, count-append j (idx ∷ []) p.fds.que);
              in_kernel = agrees;
              free_null = λ j more. elim (eq_or_ne idx j) [
                | inl e ↦
                    subst (λ x. update p.fds.contents idx null x ≡ p.null_fds x) e
                      (update_self p.fds.contents idx null)
                | inr differs ↦
                    update_ne p.fds.contents null differs
                    ∙ i.free_null j (
                        let last =
                          ap {B = ℕ} (λ b. if b then 1 else 0) (eqb_ne (λ e. differs (sym e))) in
                        omega (arith, more, count-append j (idx ∷ []) p.fds.que, last))
              ];
              serves =
                  AllServe-update p.fds.contents idx null (before ++ after)
                    (omega (arith, i.lent_once idx, without idx, count_self idx [], most))
                    (AllServe-split c after p.fds.contents before i.serves).1;
            }

  pub inits-Inv : (p₀ p : Proxy F true) → init_fds F true p₀ ≡ some p → Inv F p []
  unfolding init_fds
  inits-Inv p₀ p h =
      let ((null_fds, k), opened, rest) =
        bind-some (open_null_fds F true fix_fd_array_size 0 p₀.null_fds p₀.kernel) _ p h in
      let fds = set_data fix_fd_array_size null_fds (init p₀.fds) in
      let contents = fds.contents in
      let res = (F.register_files contents fix_fd_array_size k).0 in
      let k' = (F.register_files contents fix_fd_array_size k).1 in
      elim (Bool-cases (res == 0)) [
        | inl ok ↦
            subst (λ x. Inv F x []) (some-injective _ _ (rw ok at rest))
              record {
                lent_once = λ j. omega (arith, filled j fix_fd_array_size null_fds p₀.fds);
                in_kernel =
                    λ j small. F.register-table contents fix_fd_array_size k j (eqb_sound ok) small;
                free_null = λ j more. null_filled j fix_fd_array_size null_fds p₀.fds more;
                serves = tt;
              }
        | inr failed ↦ absurd (none-ne-some p (rw failed at rest))
      ]
