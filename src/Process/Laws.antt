-- ===== src/Process/Laws.antt =====
-- The table after fib_open and fib_release.
use linux_fibers.Common.{
  ℕ, ◌≡◌, ◌≢◌, refl, sym, subst, ◌∙◌, arith, Option, none, some, pos, update, List, [], ◌∷◌, ◌++◌,
  All, ne→==, eq→==,
}
use linux_fibers.Kernel.{Ptr, null, Process, Kernel, Current}
use linux_fibers.Kernel.Store.{ok, ◌>>=◌}
use linux_fibers.Kernel.Caller.{IsProcess}
use linux_fibers.Process.{
  free_threads, free_fibers, release_all, fib_release, fib_open, new_process,
}

-- The store without the addresses of a list.
abbrev pub without {ℓ} : {A : Type ℓ} → List Ptr → (Ptr → Option A) → Ptr → Option A
without [] h = h
without (p ∷ ps) h = without ps (update h p none)

-- The addresses are distinct and live.
abbrev pub Held {ℓ} : {A : Type ℓ} → (Ptr → Option A) → List Ptr → Type ℓ
Held h [] = Unit
Held {A = A} h (p ∷ ps) =
    (p ≢ null) × ((a : A) × (h p ≡ some a)) × All (λ (q : Ptr). q ≢ p) ps × Held h ps

Held-update {ℓ} :
    {A : Type ℓ} (h : Ptr → Option A) (p : Ptr) (ps : List Ptr)
    → All (λ (q : Ptr). q ≢ p) ps
    → Held h ps
    → Held (update h p none) ps
Held-update h p [] a b = tt
Held-update h p (q ∷ ps) a b =
    (b.0, (b.1.0, ground (arith, a.0, b.1.1)), b.2, Held-update h p ps a.1 b.3)

free_threads_lem :
    (ts : List Ptr) (k : Kernel)
    → Held k.threads ts
    → free_threads ts k ≡ ok tt (record k { threads = without ts k.threads })
unfolding free_threads
free_threads_lem [] k h = refl
free_threads_lem (t ∷ ts) k h =
    rw (ne→== t null h.0, h.1.1) (free_threads_lem ts _ (Held-update k.threads t ts h.2 h.3))

pub free_fibers_lem :
    (fs : List Ptr) (k : Kernel)
    → Held k.fibers fs
    → free_fibers fs k ≡ ok tt (record k { fibers = without fs k.fibers })
unfolding free_fibers
free_fibers_lem [] k h = refl
free_fibers_lem (f ∷ fs) k h =
    rw (ne→== f null h.0, h.1.1) (free_fibers_lem fs _ (Held-update k.fibers f fs h.2 h.3))

release_all-none :
    (tgid : ℕ) (ps : List Process) (k : Kernel)
    → All (λ (q : Process). q.id ≢ tgid) ps
    → release_all tgid ps k ≡ ok ps k
unfolding release_all
release_all-none tgid [] k h = refl
release_all-none tgid (p ∷ ps) k h = rw (ne→== p.id tgid h.0, release_all-none tgid ps k h.1)

-- What fib_release leaves of the memory.
abbrev pub released : Process → List Process → Kernel → Kernel
released p ps k = record k {
  processi = ps;
  threads = without p.listathread k.threads;
  fibers = without p.listafiber k.fibers;
}

release_all-one :
    (tgid : ℕ) (before : List Process) (p : Process) (after : List Process) (k : Kernel)
    → All (λ (q : Process). q.id ≢ tgid) before
    → p.id ≡ tgid
    → All (λ (q : Process). q.id ≢ tgid) after
    → Held k.threads p.listathread
    → Held k.fibers p.listafiber
    → release_all tgid (before ++ p ∷ after) k ≡ ok (before ++ after) (released p k.processi k)
unfolding release_all
release_all-one tgid [] p after k b m a ht hf = rw (
  eq→== p.id tgid m,
  free_threads_lem p.listathread k ht,
  free_fibers_lem p.listafiber (record k { threads = without p.listathread k.threads }) hf,
  release_all-none tgid after (released p k.processi k) a,
)
release_all-one tgid (q ∷ before) p after k b m a ht hf =
    rw (ne→== q.id tgid b.0, release_all-one tgid before p after k b.1 m a ht hf)

module _ {c : Current} {k : Kernel} {before : List Process} {p : Process} {after : List Process}
    (here : IsProcess c k before p after) (threads : Held k.threads p.listathread)
    (fibers : Held k.fibers p.listafiber) where
  -- fib_release takes the caller's process out of the table and frees its threads and fibers, each
  -- once; the other processes stay.
  pub fib_release_lem : fib_release c k ≡ ok (pos 0) (released p (before ++ after) k)
  unfolding fib_release
  fib_release_lem = rw loop
    where
      loop : release_all c.tgid k.processi k ≡ ok (before ++ after) (released p k.processi k)
      loop =
          subst (λ ps. release_all c.tgid ps k ≡ ok (before ++ after) (released p k.processi k))
            (sym here.table)
            (release_all-one c.tgid before p after k here.none_before here.tgid here.none_after
              threads fibers)

pub without-none {ℓ} :
    {A : Type ℓ} (ps : List Ptr) (h : Ptr → Option A) (q : Ptr) → h q ≡ none → without ps h q ≡ none
without-none [] h q e = e
without-none (p ∷ ps) h q e = without-none ps (update h p none) q (ground arith)

All-without {ℓ} :
    {A : Type ℓ} (ps : List Ptr) (h : Ptr → Option A) → All (λ (q : Ptr). without ps h q ≡ none) ps
All-without [] h = tt
All-without (p ∷ ps) h =
    (without-none ps (update h p none) p (ground arith), All-without ps (update h p none))

without-other {ℓ} :
    {A : Type ℓ} (ps : List Ptr) (h : Ptr → Option A) (q : Ptr)
    → All (λ (p : Ptr). p ≢ q) ps
    → without ps h q ≡ h q
without-other [] h q a = refl
without-other (p ∷ ps) h q a = without-other ps (update h p none) q a.1 ∙ ground (arith, a.0)

-- When the process is open and the addresses in its two lists are live and distinct, fib_release
-- returns 0 with the process out of the table and the others in place; each thread and fiber of
-- the process is freed, and all other memory stays.
pub fib_release-Freed :
    {c : Current} {k : Kernel} {before : List Process} {p : Process} {after : List Process}
    → IsProcess c k before p after
    → Held k.threads p.listathread
    → Held k.fibers p.listafiber
    → (k' : Kernel) × (fib_release c k ≡ ok (pos 0) k')
      × (k'.processi ≡ before ++ after)
      × All (λ (t : Ptr). k'.threads t ≡ none) p.listathread
      × All (λ (f : Ptr). k'.fibers f ≡ none) p.listafiber
      × ((t : Ptr) → All (λ (s : Ptr). s ≢ t) p.listathread → k'.threads t ≡ k.threads t)
      × ((f : Ptr) → All (λ (s : Ptr). s ≢ f) p.listafiber → k'.fibers f ≡ k.fibers f)
fib_release-Freed {c} {k} {before} {p} {after} here threads fibers = (
  released p (before ++ after) k,
  fib_release_lem here threads fibers,
  refl,
  All-without p.listathread k.threads,
  All-without p.listafiber k.fibers,
  without-other p.listathread k.threads,
  without-other p.listafiber k.fibers,
)

-- A process that is not open, opens the device and closes it again leaves the memory as it was;
-- both calls return 0.
pub fib_release-open :
    (c : Current) (k : Kernel)
    → All (λ (q : Process). q.id ≢ c.tgid) k.processi
    → (fib_open c >>= λ _. fib_release c) k ≡ ok (pos 0) k
unfolding fib_open
fib_release-open c k h =
    fib_release_lem {before = []} {p = new_process c.tgid} {after = k.processi}
      (record { table = refl; tgid = refl; none_before = tt; none_after = h }) tt tt
