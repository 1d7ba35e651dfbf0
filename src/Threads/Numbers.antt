-- ===== src/Threads/Numbers.antt =====
-- Whatever the interleaving, no two threads get the same number.
use linux_fibers.Common.{
  ℕ, zero, suc, ◌+◌, ◌%◌, ◌==◌, ◌<◌, ◌≤◌, ◌≡◌, ◌≢◌, refl, sym, subst, ap, ◌∙◌, true, false, none,
  some, if◌then◌else◌, update, arith, inl, inr, Bool-cases, ==→eq,
}
use native.Mathlib.Decide.{ℕ_discrete}
use linux_fibers.Random.{uint}
use linux_fibers.Calendar.Counts.{sum_to, sum_change, sum_ext, sum_zero}
use linux_fibers.Threads.{
  Place, begins, read, with_tid, numbered, ended, Team, moved, load_at, load_counter, swap_at,
  compare_and_swap, enter_at, enter_routine, end_at, end_thread, create_threads, tid_of, loads,
  swaps, enters, ends, TeamReach, here, next,
}

-- How many of n threads have a number.
abbrev has_tid : Place → ℕ
has_tid p = if tid_of p == 0 then 0 else 1

-- The counter is the number of the threads that have a number, and these are different.
pub record IsTeam (n : ℕ) (s : Team) : Type 0 where
  pub counted : s.thread_counter ≡ sum_to (λ t. has_tid (s.places t)) n
  pub below : (t : ℕ) → t < n → tid_of (s.places t) ≤ s.thread_counter
  pub different :
      (t u : ℕ)
      → t < n
      → u < n
      → t ≢ u
      → tid_of (s.places t) ≢ 0
      → tid_of (s.places t) ≢ tid_of (s.places u)

-- A move that keeps the number of the thread.
moved-IsTeam :
    (n t : ℕ) (p : Place) (s : Team)
    → IsTeam n s
    → tid_of p ≡ tid_of (s.places t)
    → IsTeam n (moved t p s)
moved-IsTeam n t p s h e = record {
  counted =
      h.counted
      ∙ sum_ext (λ u. has_tid (s.places u)) (λ u. has_tid (update s.places t p u)) n
          (λ u b. ap (λ k. if k == 0 then 0 else 1) (sym (same u)));
  below = λ u b. subst (λ k. k ≤ s.thread_counter) (sym (same u)) (h.below u b);
  different = λ u v b c ne nz k.
      h.different u v b c ne (λ z. nz (same u ∙ z)) (sym (same u) ∙ (k ∙ same v));
}
  where
    same : (u : ℕ) → tid_of (update s.places t p u) ≡ tid_of (s.places u)
    same u = elim (ℕ_discrete u t) [ yes q ↦ ground (arith, q, e) | no ne ↦ ground (arith, ne) ]

sum_bounded : (g : ℕ → ℕ) (n : ℕ) → ((i : ℕ) → g i ≤ 1) → sum_to g n ≤ n
sum_bounded g zero h = omega arith
sum_bounded g (suc n) h = omega (arith, sum_bounded g n h, h n)

has_tid_le : (p : Place) → has_tid p ≤ 1
has_tid_le p = ground arith

-- A thread without a number gets the next one.
numbered-IsTeam :
    (n t : ℕ) (s : Team)
    → n < 65536
    → t < n
    → IsTeam n s
    → tid_of (s.places t) ≡ 0
    → IsTeam n (record (moved t (with_tid ((s.thread_counter + 1) % uint)) s) {
      thread_counter = (s.thread_counter + 1) % uint;
    })
numbered-IsTeam n t s small b h none_yet = record {
  counted =
      let change =
        sum_change (λ u. has_tid (update s.places t p u)) (λ u. has_tid (s.places u)) n t b
          (λ u c ne. ap has_tid (other u ne)) in
      let new : has_tid (update s.places t p t) ≡ 1 = ground (arith, exact) in
      let old : has_tid (s.places t) ≡ 0 = ground (arith, none_yet) in
      omega (arith, change, new, old, h.counted, exact);
  below = λ u c. elim (ℕ_discrete u t) [
    | yes q ↦ subst (λ k. k ≤ (s.thread_counter + 1) % uint) (sym (mine u q)) (omega arith)
    | no ne ↦
        subst (λ k. tid_of k ≤ (s.thread_counter + 1) % uint) (sym (other u ne))
          (omega (arith, h.below u c, exact))
  ];
  different = λ u v c k ne. elim (ℕ_discrete u t) [
    | yes q ↦ λ nz e.
        let tid = mine u q in
        let less = h.below v k in
        let old = ap tid_of (other v (λ w. ne (q ∙ sym w))) in
        omega (arith, tid, less, old, e, exact)
    | no nq ↦ λ nz e. elim (ℕ_discrete v t) [
      | yes w ↦
          let tid = mine v w in
          let less = h.below u c in
          let old = ap tid_of (other u nq) in omega (arith, tid, less, old, e, exact)
      | no nw ↦
          h.different u v c k ne (λ z. nz (ap tid_of (other u nq) ∙ z))
            (sym (ap tid_of (other u nq)) ∙ (e ∙ ap tid_of (other v nw)))
    ]
  ];
}
  where
    p : Place
    p = with_tid ((s.thread_counter + 1) % uint)

    bound : s.thread_counter ≤ n
    bound =
        omega (
          arith,
          h.counted,
          sum_bounded (λ u. has_tid (s.places u)) n (λ u. has_tid_le (s.places u)),
        )

    exact : (s.thread_counter + 1) % uint ≡ s.thread_counter + 1
    exact = omega (arith, bound, small)

    mine : (u : ℕ) → u ≡ t → tid_of (update s.places t p u) ≡ (s.thread_counter + 1) % uint
    mine u q = ground (arith, q)

    other : (u : ℕ) → u ≢ t → update s.places t p u ≡ s.places u
    other u ne = ground (arith, ne)

load_counter-IsTeam : (n t : ℕ) (s : Team) → IsTeam n s → IsTeam n (load_counter t s)
unfolding load_counter
load_counter-IsTeam n t s h = by_place (s.places t) refl
  where
    by_place : (p : Place) → s.places t ≡ p → IsTeam n (load_at t p s)
    by_place begins e = moved-IsTeam n t (read s.thread_counter) s h (sym (ap tid_of e))
    by_place (read k) e = h
    by_place (with_tid k) e = h
    by_place (numbered k) e = h
    by_place (ended k) e = h

compare_and_swap-IsTeam :
    (n t : ℕ) (s : Team) → n < 65536 → t < n → IsTeam n s → IsTeam n (compare_and_swap t s)
unfolding compare_and_swap
compare_and_swap-IsTeam n t s small b h = by_place (s.places t) refl
  where
    swapped : ℕ → Team
    swapped old = record (moved t (with_tid ((old + 1) % uint)) s) {
      thread_counter = (old + 1) % uint;
    }

    by_place : (p : Place) → s.places t ≡ p → IsTeam n (swap_at t p s)
    by_place (read old) e = elim (Bool-cases (s.thread_counter == old)) [
      | inl q ↦
          subst (λ c. IsTeam n (if c then swapped old else moved t begins s)) (sym q)
            (subst (λ k. IsTeam n (swapped k)) (==→eq s.thread_counter old q)
              (numbered-IsTeam n t s small b h (ap tid_of e)))
      | inr q ↦
          subst (λ c. IsTeam n (if c then swapped old else moved t begins s)) (sym q)
            (moved-IsTeam n t begins s h (sym (ap tid_of e)))
    ]
    by_place begins e = h
    by_place (with_tid k) e = h
    by_place (numbered k) e = h
    by_place (ended k) e = h

enter_routine-IsTeam :
    (n t : ℕ) (s s' : Team) → IsTeam n s → enter_routine t s ≡ some s' → IsTeam n s'
unfolding enter_routine
enter_routine-IsTeam n t s s' h run = by_place (s.places t) refl run
  where
    same : some s ≡ some s' → IsTeam n s'
    same r = let e : s ≡ s' = cc in subst (IsTeam n) e h

    by_place : (p : Place) → s.places t ≡ p → enter_at t p s ≡ some s' → IsTeam n s'
    by_place begins e r = same r
    by_place (read k) e r = same r
    by_place (numbered k) e r = same r
    by_place (ended k) e r = same r
    by_place (with_tid k) e r = elim (Bool-cases s.arg_live) [
      | inl q ↦
          subst (IsTeam n) (ground (arith, q, r))
            (moved-IsTeam n t (numbered k) s h (sym (ap tid_of e)))
      | inr q ↦ let no_way : ⊥ = ground (arith, q, r) in elim no_way [ ]
    ]

end_thread-IsTeam : (n t : ℕ) (s s' : Team) → IsTeam n s → end_thread t s ≡ some s' → IsTeam n s'
unfolding end_thread
end_thread-IsTeam n t s s' h run = by_place (s.places t) refl run
  where
    same : some s ≡ some s' → IsTeam n s'
    same r = let e : s ≡ s' = cc in subst (IsTeam n) e h

    by_place : (p : Place) → s.places t ≡ p → end_at t p s ≡ some s' → IsTeam n s'
    by_place begins e r = same r
    by_place (read k) e r = same r
    by_place (with_tid k) e r = same r
    by_place (ended k) e r = same r
    by_place (numbered k) e r = elim (Bool-cases s.arg_live) [
      | inl q ↦
          let m = moved-IsTeam n t (ended k) s h (sym (ap tid_of e)) in
          let after : IsTeam n (record (moved t (ended k) s) { arg_live = false }) = record {
            counted = m.counted;
            below = m.below;
            different = m.different;
          } in
          subst (IsTeam n) (ground (arith, q, r)) after
      | inr q ↦ let no_way : ⊥ = ground (arith, q, r) in elim no_way [ ]
    ]

start-IsTeam : (n : ℕ) → IsTeam n create_threads
start-IsTeam n = record {
  counted = sym (sum_zero (λ _. 0) n (λ i p. refl));
  below = λ t b. omega arith;
  different = λ t u b c ne nz. elim (nz refl) [ ];
}

TeamReach-IsTeam : {n : ℕ} {s : Team} → n < 65536 → TeamReach n create_threads s → IsTeam n s
TeamReach-IsTeam {n} small here = start-IsTeam n
TeamReach-IsTeam {n} small (next {s' = s} r (loads t b)) =
    load_counter-IsTeam n t s (TeamReach-IsTeam small r)
TeamReach-IsTeam {n} small (next {s' = s} r (swaps t b)) =
    compare_and_swap-IsTeam n t s small b (TeamReach-IsTeam small r)
TeamReach-IsTeam {n} small (next {s' = s} {s'' = s'} r (enters t b e)) =
    enter_routine-IsTeam n t s s' (TeamReach-IsTeam small r) e
TeamReach-IsTeam {n} small (next {s' = s} {s'' = s'} r (ends t b e)) =
    end_thread-IsTeam n t s s' (TeamReach-IsTeam small r) e

-- However the reads, compare-and-swaps, entries and ends of fewer than 65536 threads interleave,
-- from create_threads on: the number that a thread has got is the number of no other thread, and
-- not above the counter.
pub tid_unique :
    {n : ℕ} {s : Team}
    → n < 65536
    → TeamReach n create_threads s
    → (t u : ℕ) → t < n
    → u < n
    → t ≢ u
    → tid_of (s.places t) ≢ 0
    → (tid_of (s.places t) ≢ tid_of (s.places u)) × (tid_of (s.places t) ≤ s.thread_counter)
tid_unique small r t u b c ne nz =
    let h = TeamReach-IsTeam small r in (h.different t u b c ne nz, h.below t b)

-- When two threads of one create_threads are in their start routine and their argument is
-- allocated, the end of the first one frees it, and the end of the second one is a fault: a
-- double free.
pub end_thread-twice :
    (t u i j : ℕ) (s : Team)
    → s.places t ≡ numbered i
    → s.places u ≡ numbered j
    → t ≢ u
    → s.arg_live ≡ true
    → (s' : Team) × ((end_thread t s ≡ some s') × (end_thread u s' ≡ none))
unfolding end_thread
end_thread-twice t u i j s e f ne live = (
  record (moved t (ended i) s) { arg_live = false },
  (ground (arith, e, live), ground (arith, f, ne)),
)

-- When one thread of create_threads is in its start routine, a second one has its number and no
-- more, and their argument is allocated: if the first ends before the second goes on, the second
-- reads the argument after it is freed, which is a fault.
pub enter_routine-freed :
    (t u i j : ℕ) (s : Team)
    → s.places t ≡ numbered i
    → s.places u ≡ with_tid j
    → t ≢ u
    → s.arg_live ≡ true
    → (s' : Team) × ((end_thread t s ≡ some s') × (enter_routine u s' ≡ none))
unfolding end_thread enter_routine
enter_routine-freed t u i j s e f ne live = (
  record (moved t (ended i) s) { arg_live = false },
  (ground (arith, e, live), ground (arith, f, ne)),
)
