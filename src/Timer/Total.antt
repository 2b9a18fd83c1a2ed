-- ===== src/Timer/Total.antt =====
-- What the chained calls of include/coro/timer.hpp add up to.
use tiny_coro_lab.Prelude.{ℕ, ◌+◌, ◌*◌, ◌^◌, ◌≡◌, refl, ◌∙◌, ◌<◌, arith, List, [], ◌∷◌}
use tiny_coro_lab.Timer.{
  Timespec, Add, seconds, mseconds, useconds, nseconds, add, add_all, add_seconds, add_mseconds,
  add_useconds, add_nseconds,
}

-- The whole seconds and the nanoseconds that are asked for.
abbrev pub asked_sec : List Add → ℕ
asked_sec [] = 0
asked_sec (seconds n ∷ l) = n + asked_sec l
asked_sec (mseconds n ∷ l) = asked_sec l
asked_sec (useconds n ∷ l) = asked_sec l
asked_sec (nseconds n ∷ l) = asked_sec l

abbrev pub asked_nsec : List Add → ℕ
asked_nsec [] = 0
asked_nsec (seconds n ∷ l) = asked_nsec l
asked_nsec (mseconds n ∷ l) = 1000000 * n + asked_nsec l
asked_nsec (useconds n ∷ l) = 1000 * n + asked_nsec l
asked_nsec (nseconds n ∷ l) = n + asked_nsec l

add-one :
    (x : Add) (l : List Add) (ts : Timespec)
    → ts.tv_sec + asked_sec (x ∷ l) < 2 ^ 64
    → ts.tv_nsec + asked_nsec (x ∷ l) < 2 ^ 64
    → ((add x ts).tv_sec + asked_sec l ≡ ts.tv_sec + asked_sec (x ∷ l))
      × ((add x ts).tv_nsec + asked_nsec l ≡ ts.tv_nsec + asked_nsec (x ∷ l))
unfolding add add_seconds add_mseconds add_useconds add_nseconds
add-one (seconds n) l ts a b = (omega arith, refl)
add-one (mseconds n) l ts a b = (refl, omega arith)
add-one (useconds n) l ts a b = (refl, omega arith)
add-one (nseconds n) l ts a b = (refl, omega arith)

-- The chained calls add what they are asked for to whatever the spec held before, which nothing has
-- set; nothing is carried from the nanoseconds to the seconds. The sums fit the words.
pub add_all-total :
    (l : List Add) (ts : Timespec)
    → ts.tv_sec + asked_sec l < 2 ^ 64
    → ts.tv_nsec + asked_nsec l < 2 ^ 64
    → ((add_all l ts).tv_sec ≡ ts.tv_sec + asked_sec l)
      × ((add_all l ts).tv_nsec ≡ ts.tv_nsec + asked_nsec l)
unfolding add_all
add_all-total [] ts a b = (omega arith, omega arith)
add_all-total (x ∷ l) ts a b =
    let (sec, nsec) = add-one x l ts a b in
    let (sec_all, nsec_all) =
      add_all-total l (add x ts) (omega (arith, sec, a)) (omega (arith, nsec, b)) in
    (sec_all ∙ sec, nsec_all ∙ nsec)
