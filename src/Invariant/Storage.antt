-- ===== src/Invariant/Storage.antt =====
-- The storage functions in a valid memory.
use linux_fibers.Common.{
  ℕ, ◌≡◌, ◌<◌, refl, ◌⊎◌, inl, inr, arith, false, Bool, ℤ, pos, negsuc, minus_one,
}
use native.Mathlib.Decide.{dec_lt}
use linux_fibers.Kernel.{Ptr, fls_size, Fiber, Thread, Kernel, Current}
use linux_fibers.Kernel.Store.{ok, M}
use linux_fibers.Kernel.Loops.{for_caller}
use linux_fibers.Kernel.Caller.{Place, IsCaller, for_process-none, for_thread-none}
use linux_fibers.Fls.{
  fls_alloc, fls_free, fls_get_value, fls_set_value, alloc_on, free_on, get_on, set_on,
}
use linux_fibers.Fls.Runs.{RunsFiber, with_storage}
use linux_fibers.Fls.Steps.{
  OutOfRange, fls_get_value_lem, fls_set_value_lem, fls_free_lem, out_of_range,
}
use linux_fibers.Fls.Refine.{fls_alloc_cases}
use linux_fibers.Invariant.{IsValid}
use linux_fibers.Invariant.Find.{find_process, find_thread}
use linux_fibers.Invariant.Keeps.{put_fiber-IsValid}
use linux_fibers.Invariant.Safe.{Safe, good, faulty}

in_range : (index : ℤ) → ((i : ℕ) × (index ≡ pos i) × (i < fls_size)) ⊎ OutOfRange index
in_range (pos i) = elim (dec_lt i fls_size) [
  | yes lt ↦ inl (i, refl, lt)
  | no ge ↦ inr (omega arith)
]
in_range (negsuc i) = inr tt

-- The caller is a thread with a fiber, or the functions return at once.
record Active (c : Current) (k : Kernel) : Type 0 where
  w : Place
  thread : Thread
  caller : IsCaller c k w thread
  p : Ptr
  f : Fiber
  values : ℕ → ℤ
  bits : ℕ → ℕ
  runs : RunsFiber k thread p f values bits

module _ (c : Current) (k : Kernel) (v : IsValid k) where
  active :
      Active c k ⊎ ((A : Type 0) (on : Ptr → A → M A) (ret : A) → for_caller c on ret k ≡ ok ret k)
  active = elim (find_process c k v) [
    | inr closed ↦ inr λ A on ret. for_process-none c k _ ret closed
    | inl h ↦ elim (find_thread c k h v) [
      | inr new ↦ inr λ A on ret. for_thread-none h.here k.next_address new (λ _. on) ret
      | inl s ↦
          let (ne, r) = v.running s.t s.thread s.caller.stored in
          let (f, at, sel) = r in
          let (values, bits, a, b) = v.storage s.thread.runner f at in
          inl (record {
            w = _;
            thread = s.thread;
            caller = s.caller;
            p = s.thread.runner;
            f = f;
            values = values;
            bits = bits;
            runs = record {
              runner = refl;
              ne_null = ne;
              stored = at;
              unlocked = v.unlocked _ f at;
              values_eq = a;
              bits_eq = b;
            };
          })
    ]
  ]

  storage-IsValid :
      (a : Active c k) (values' : ℕ → ℤ) (bits' : ℕ → ℕ)
      → IsValid (with_storage a.p a.f values' bits' k)
  storage-IsValid a values' bits' =
      put_fiber-IsValid k a.p a.f _ a.runs.stored refl refl a.runs.unlocked
        (values', bits', refl, refl) v

  pub fls_alloc-Safe : Safe (fls_alloc c k)
  unfolding fls_alloc
  fls_alloc-Safe = elim active [
    | inr idle ↦ rw (idle ℤ alloc_on minus_one) (good v)
    | inl a ↦ elim (fls_alloc_cases a.caller a.runs) [
      | inl (i, lt, first, e) ↦ rw e (good (storage-IsValid a _ _))
      | inr (used, e) ↦ rw e faulty
    ]
  ]

  pub fls_get_value-Safe : (index : ℤ) → Safe (fls_get_value c index k)
  unfolding fls_get_value
  fls_get_value-Safe index = elim active [
    | inr idle ↦ rw (idle ℤ (get_on index) minus_one) (good v)
    | inl a ↦ elim (in_range index) [
      | inl (i, e, lt) ↦ rw (e, fls_get_value_lem a.caller a.runs i lt) (good v)
      | inr out ↦ rw ((out_of_range a.caller a.runs index minus_one out).0) faulty
    ]
  ]

  pub fls_set_value-Safe : (index val : ℤ) → Safe (fls_set_value c index val k)
  unfolding fls_set_value
  fls_set_value-Safe index val = elim active [
    | inr idle ↦ rw (idle (Unit {0}) (set_on index val) tt) (good v)
    | inl a ↦ elim (in_range index) [
      | inl (i, e, lt) ↦
          rw (e, fls_set_value_lem a.caller a.runs i val lt) (good (storage-IsValid a _ _))
      | inr out ↦ rw ((out_of_range a.caller a.runs index val out).1) faulty
    ]
  ]

  pub fls_free-Safe : (index : ℤ) → Safe (fls_free c index k)
  unfolding fls_free
  fls_free-Safe index = elim active [
    | inr idle ↦ rw (idle Bool (free_on index) false) (good v)
    | inl a ↦ elim (in_range index) [
      | inl (i, e, lt) ↦ rw (e, fls_free_lem a.caller a.runs i lt) (good (storage-IsValid a _ _))
      | inr out ↦ rw ((out_of_range a.caller a.runs index minus_one out).2) faulty
    ]
  ]
