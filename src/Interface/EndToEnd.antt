-- ===== src/Interface/EndToEnd.antt =====
-- Storage through the library, the system call and the module.
use linux_fibers.Common.{
  ℕ, ◌≡◌, ◌≢◌, ◌<◌, ◌∙◌, arith, true, false, ℤ, pos, update, if◌then◌else◌, ◌==◌, minus_one,
}
use linux_fibers.Kernel.{Ptr, fls_size, Fiber, Thread, FiberArguments, Kernel, Current}
use linux_fibers.Kernel.Store.{ok, ◌>>=◌, ◌>>◌}
use linux_fibers.Kernel.Caller.{Place, IsCaller}
use linux_fibers.Fls.Slots.{IsFirstFree}
use linux_fibers.Fls.Runs.{RunsFiber, with_storage, kept, still_runs}
use linux_fibers.Fls.Steps.{fls_alloc-free, fls_get_value_lem, fls_set_value_lem, fls_free_lem}
use linux_fibers.Ioctl.{fib_ioctl}
use linux_fibers.Interface.{fib_fls_alloc, fib_fls_set, fib_fls_get, fib_fls_dealloc}

module _ (bytes : FiberArguments) {c : Current} {k : Kernel} {w : Place} {thread : Thread} {p : Ptr}
    {f : Fiber} {values : ℕ → ℤ} {bits : ℕ → ℕ} (caller : IsCaller c k w thread)
    (runs : RunsFiber k thread p f values bits) where
  fib_fls_set_lem :
      (i : ℕ) (v : ℤ)
      → i < fls_size
      → bits i ≢ 0
      → fib_fls_set bytes c (pos i) v k ≡ ok tt (with_storage p f (update values i v) bits k)
  unfolding fib_fls_set fib_ioctl
  fib_fls_set_lem i v lt used = rw (fls_set_value_lem caller runs i v lt) (ground (arith, used))

  fib_fls_get_lem :
      (i : ℕ)
      → i < fls_size
      → fib_fls_get bytes c (pos i) k ≡ ok (if bits i == 0 then minus_one else values i) k
  unfolding fib_fls_get fib_ioctl
  fib_fls_get_lem i lt = rw (fls_get_value_lem caller runs i lt)

  fib_fls_alloc_lem :
      (i : ℕ)
      → IsFirstFree bits 0 i
      → i < fls_size
      → fib_fls_alloc bytes c k ≡ ok (pos i) (with_storage p f values (update bits i 1) k)
  unfolding fib_fls_alloc fib_ioctl
  fib_fls_alloc_lem i first lt = rw (fls_alloc-free caller runs i first lt)

  fib_fls_dealloc_lem :
      (i : ℕ)
      → i < fls_size
      → fib_fls_dealloc bytes c (pos i) k
        ≡ ok (if bits i == 0 then false else true) (with_storage p f values (update bits i 0) k)
  unfolding fib_fls_dealloc fib_ioctl
  fib_fls_dealloc_lem i lt = rw (fls_free_lem caller runs i lt) (ground arith)

module _ (bytes : FiberArguments) {c : Current} {k : Kernel} {w : Place} {thread : Thread} {p : Ptr}
    {f : Fiber} {values : ℕ → ℤ} {bits : ℕ → ℕ} (caller : IsCaller c k w thread)
    (runs : RunsFiber k thread p f values bits) where
  -- Through the library, for a thread that runs an unlocked fiber with both arrays and slots i
  -- in use and j, both in range: after fib_fls_set of i, fib_fls_get of j returns the value if
  -- j is i, and otherwise what it returned before.
  pub get-set :
      (i j : ℕ) (v : ℤ)
      → i < fls_size
      → j < fls_size
      → bits i ≢ 0
      → (fib_fls_set bytes c (pos i) v >> fib_fls_get bytes c (pos j)) k
        ≡ ok
            (if j == i then v else if bits j == 0 then minus_one else values j)
            (with_storage p f (update values i v) bits k)
  get-set i j v lt lt' used = rw (fib_fls_set_lem bytes caller runs i v lt used) (
      fib_fls_get_lem bytes (kept caller runs _) (still_runs caller runs (update values i v) bits) j
        lt'
      ∙ ground (arith, used))

  -- Through the library, when a slot in range is the first free one of the fiber that the
  -- thread runs: fib_fls_alloc gives that slot, fib_fls_set of it and fib_fls_get of it give
  -- the value that was set.
  pub get-set-alloc :
      (i : ℕ) (v : ℤ)
      → IsFirstFree bits 0 i
      → i < fls_size
      → (fib_fls_alloc bytes c >>= λ at. fib_fls_set bytes c at v >> fib_fls_get bytes c at) k
        ≡ ok v (with_storage p f (update values i v) (update bits i 1) k)
  get-set-alloc i v first lt = rw (fib_fls_alloc_lem bytes caller runs i first lt) (
      rw
        (fib_fls_set_lem bytes (kept caller runs _)
          (still_runs caller runs values (update bits i 1)) i v lt (ground arith))
        (rw
          (fib_fls_get_lem bytes
            (kept (kept caller runs _) (still_runs caller runs values (update bits i 1)) _)
            (still_runs (kept caller runs _) (still_runs caller runs values (update bits i 1))
              (update values i v) (update bits i 1))
            i lt)
          (ground arith)))

  -- Through the library, for a thread that runs an unlocked fiber with both arrays: fib_fls_get
  -- of a slot in range that was given back returns -1.
  pub get-dealloc :
      (i : ℕ)
      → i < fls_size
      → (fib_fls_dealloc bytes c (pos i) >> fib_fls_get bytes c (pos i)) k
        ≡ ok minus_one (with_storage p f values (update bits i 0) k)
  get-dealloc i lt = rw (fib_fls_dealloc_lem bytes caller runs i lt) (
      rw
        (fib_fls_get_lem bytes (kept caller runs _)
          (still_runs caller runs values (update bits i 0)) i lt)
        (ground arith))

  -- Through the library, when a slot in range is the first free one: fib_fls_get of it right
  -- after fib_fls_alloc returns what the array holds there, the value of its last user.
  pub get-alloc :
      (i : ℕ)
      → IsFirstFree bits 0 i
      → i < fls_size
      → (fib_fls_alloc bytes c >>= fib_fls_get bytes c) k
        ≡ ok (values i) (with_storage p f values (update bits i 1) k)
  get-alloc i first lt = rw (fib_fls_alloc_lem bytes caller runs i first lt) (
      rw
        (fib_fls_get_lem bytes (kept caller runs _)
          (still_runs caller runs values (update bits i 1)) i lt)
        (ground arith))
