-- ===== src/Fls/Steps.antt =====
-- Each function run by a thread whose fiber has its storage: the result and the memory after it.
use linux_fibers.Common.{
  ℕ, ◌≤◌, ◌<◌, ◌≡◌, ◌≢◌, refl, arith, ◌==◌, if◌then◌else◌, true, false, Option, ℤ, pos, negsuc,
  minus_one, update, All,
}
use linux_fibers.Kernel.{Ptr, fls_size, Fiber, Thread, Kernel, Current}
use linux_fibers.Kernel.Store.{ok, fault, put_fiber}
use linux_fibers.Kernel.Caller.{Place, IsCaller, for_caller-one, for_caller-fault}
use linux_fibers.Kernel.Rounds.{OtherThread, OtherThread-put_fiber}
use linux_fibers.Fls.{
  find_free, alloc_on, fls_alloc, free_on, fls_free, get_on, fls_get_value, set_on, fls_set_value,
}
use linux_fibers.Fls.Runs.{RunsFiber, with_storage}
use linux_fibers.Fls.Slots.{IsFirstFree, find_free-first, find_free-none}

-- An index outside of the arrays.
abbrev pub OutOfRange : ℤ → Type 0
OutOfRange (pos i) = fls_size ≤ i
OutOfRange (negsuc i) = Unit

module _ {c : Current} {k : Kernel} {w : Place} {thread : Thread} {p : Ptr} {f : Fiber}
    {values : ℕ → ℤ} {bits : ℕ → ℕ} (caller : IsCaller c k w thread)
    (runs : RunsFiber k thread p f values bits) where
  others : (g : Option Fiber) → All (OtherThread c.pid w.t (put_fiber p g k)) w.right
  others g = OtherThread-put_fiber c.pid w.t k p g w.right caller.right

  alloc_on-free :
      (index : ℤ) (i : ℕ)
      → find_free fls_size 0 bits index ≡ pos i
      → i < fls_size
      → alloc_on w.t index k ≡ ok (pos i) (with_storage p f values (update bits i 1) k)
  unfolding alloc_on
  alloc_on-free index i e lt = ground (arith, caller, runs, e)

  alloc_on-full :
      (index : ℤ) → find_free fls_size 0 bits index ≡ minus_one → alloc_on w.t index k ≡ fault
  unfolding alloc_on
  alloc_on-full index e = ground (arith, caller, runs, e)

  -- The least free slot is returned and marked; nothing else changes.
  pub fls_alloc-free :
      (i : ℕ)
      → IsFirstFree bits 0 i
      → i < fls_size
      → fls_alloc c k ≡ ok (pos i) (with_storage p f values (update bits i 1) k)
  unfolding fls_alloc
  fls_alloc-free i first lt =
      for_caller-one caller alloc_on minus_one (pos i) _
        (alloc_on-free minus_one i (find_free-first fls_size 0 bits minus_one i first (omega arith))
          lt)
        refl (others _)

  -- With every slot in use the code stores into `bitmap_fls[-1]`.
  pub fls_alloc-full : ((i : ℕ) → i < fls_size → bits i ≢ 0) → fls_alloc c k ≡ fault
  unfolding fls_alloc
  fls_alloc-full full =
      for_caller-fault caller alloc_on minus_one
        (alloc_on-full minus_one (find_free-none fls_size 0 bits minus_one (λ j a b. full j b)))

  get_on_lem :
      (i : ℕ) (ret : ℤ)
      → i < fls_size
      → get_on (pos i) w.t ret k ≡ ok (if bits i == 0 then ret else values i) k
  unfolding get_on
  get_on_lem i ret lt = ground (arith, caller, runs)

  pub fls_get_value_lem :
      (i : ℕ)
      → i < fls_size
      → fls_get_value c (pos i) k ≡ ok (if bits i == 0 then minus_one else values i) k
  unfolding fls_get_value
  fls_get_value_lem i lt =
      for_caller-one caller (get_on (pos i)) minus_one _ k (get_on_lem i minus_one lt) refl
        caller.right

  set_on_lem :
      (i : ℕ) (v : ℤ) (ret : Unit {0})
      → i < fls_size
      → set_on (pos i) v w.t ret k
        ≡ ok tt (with_storage p f (if bits i == 0 then values else update values i v) bits k)
  unfolding set_on
  set_on_lem i v ret lt = ground (arith, caller, runs)

  pub fls_set_value_lem :
      (i : ℕ) (v : ℤ)
      → i < fls_size
      → fls_set_value c (pos i) v k
        ≡ ok tt (with_storage p f (if bits i == 0 then values else update values i v) bits k)
  unfolding fls_set_value
  fls_set_value_lem i v lt =
      for_caller-one caller (set_on (pos i) v) tt tt _ (set_on_lem i v tt lt) refl (others _)

  free_on_lem :
      (i : ℕ)
      → i < fls_size
      → free_on (pos i) w.t false k
        ≡ ok (if bits i == 0 then false else true) (with_storage p f values (update bits i 0) k)
  unfolding free_on
  free_on_lem i lt = ground (arith, caller, runs)

  pub fls_free_lem :
      (i : ℕ)
      → i < fls_size
      → fls_free c (pos i) k
        ≡ ok (if bits i == 0 then false else true) (with_storage p f values (update bits i 0) k)
  unfolding fls_free
  fls_free_lem i lt =
      for_caller-one caller (free_on (pos i)) false _ _ (free_on_lem i lt) refl (others _)

  get_on-fault : (index ret : ℤ) → OutOfRange index → get_on index w.t ret k ≡ fault
  unfolding get_on
  get_on-fault (pos i) ret h = ground (arith, caller, runs)
  get_on-fault (negsuc i) ret h = ground (arith, caller, runs)

  set_on-fault : (index v : ℤ) → OutOfRange index → set_on index v w.t tt k ≡ fault
  unfolding set_on
  set_on-fault (pos i) v h = ground (arith, caller, runs)
  set_on-fault (negsuc i) v h = ground (arith, caller, runs)

  free_on-fault : (index : ℤ) → OutOfRange index → free_on index w.t false k ≡ fault
  unfolding free_on
  free_on-fault (pos i) h = ground (arith, caller, runs)
  free_on-fault (negsuc i) h = ground (arith, caller, runs)

  -- For a thread that runs an unlocked fiber with both arrays, an index that is negative or 128
  -- or more passes the guard of flsGetValue, flsSetValue and flsFree, and makes each of them a
  -- fault.
  pub out_of_range :
      (index v : ℤ)
      → OutOfRange index
      → (fls_get_value c index k ≡ fault)
        × (fls_set_value c index v k ≡ fault)
        × (fls_free c index k ≡ fault)
  unfolding fls_get_value fls_set_value fls_free
  out_of_range index v h = (
    for_caller-fault caller (get_on index) minus_one (get_on-fault index minus_one h),
    for_caller-fault caller (set_on index v) tt (set_on-fault index v h),
    for_caller-fault caller (free_on index) false (free_on-fault index h),
  )
