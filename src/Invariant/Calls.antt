-- ===== src/Invariant/Calls.antt =====
-- Every call of the module in a valid memory.
use linux_fibers.Common.{ℕ, ◌≡◌, ◌≢◌, refl, ◌⊎◌, inl, inr, arith, All, All-mono, minus_one}
use native.Mathlib.Decide.{dec_lt}
use linux_fibers.Kernel.{Process, Kernel, Current}
use linux_fibers.Kernel.Store.{fault}
use linux_fibers.Kernel.Caller.{for_process-none}
use linux_fibers.Entries.{n_fib}
use linux_fibers.Fiber.{fib_convert, fib_create, convert_in, fresh_fiber}
use linux_fibers.Fiber.Create.{
  fib_convert-new, fib_convert-again, fib_create-room, fib_create-full, fib_convert-full,
}
use linux_fibers.Process.{fib_open, empty_stuff}
use linux_fibers.Invariant.Safe.{Good, returns}
use linux_fibers.Invariant.{IsValid}
use linux_fibers.Invariant.Find.{Here, find_process, find_thread}
use linux_fibers.Invariant.Create.{with_created-IsValid}
use linux_fibers.Invariant.Keeps.{IsGood-keeps}
use linux_fibers.Invariant.Convert.{with_converted-IsValid}

-- The caller's process has as many fibers as its listing has room for.
abbrev pub IsFull : Current → Kernel → Type 0
IsFull c k = (h : Here c k) × (h.p.last_fib_id ≡ n_fib)

module _ (c : Current) (k : Kernel) (v : IsValid k) where
  -- fib_open: the process was not open, and the memory stays valid.
  pub fib_open-Good : All (λ (q : Process). q.id ≢ c.tgid) k.processi → Good (fib_open c k)
  unfolding fib_open empty_stuff
  fib_open-Good closed = returns (record {
    apart = (closed, v.apart);
    good = (
      record {
        threads = tt;
        fibers = tt;
        numbered = tt;
        stuff = empty_stuff;
        one = refl;
        counted = refl;
        room = omega arith;
      },
      All-mono k.processi (λ q. IsGood-keeps k _ q (λ t s e. (s, e, refl)) (λ p f e. (f, e, refl)))
          v.good,
    );
    running = v.running;
    selected = v.selected;
    unlocked = v.unlocked;
    storage = v.storage;
    null_thread = v.null_thread;
    null_fiber = v.null_fiber;
    positive = v.positive;
    fresh = v.fresh;
  })

  -- From a valid memory, in an open process, fib_create returns and leaves a valid memory, or
  -- the process has as many fibers as its listing has room for and the call is a fault.
  pub fib_create-Good :
      (func parameters stack_pointer stack_size : ℕ)
      → Here c k
      → Good (fib_create c func parameters stack_pointer stack_size k)
        ⊎ (IsFull c k × (fib_create c func parameters stack_pointer stack_size k ≡ fault))
  unfolding fresh_fiber
  fib_create-Good func parameters stack_pointer stack_size h = elim (dec_lt h.p.last_fib_id n_fib) [
    | yes room ↦ inl (
        rw
          (fib_create-room c k h.here v.positive h.good.one func parameters stack_pointer stack_size
            (omega (arith, h.good.counted)))
          (returns (with_created-IsValid c k h _ v room refl refl refl (_, _, refl, refl))))
    | no full ↦ inr (
      (h, omega (arith, h.good.room)),
      fib_create-full c k h.here v.positive h.good.one func parameters stack_pointer stack_size
          (omega (arith, h.good.counted)),
    )
  ]

  -- From a valid memory fib_convert returns and leaves a valid memory, whether the process is
  -- open or not and the thread a fiber or not, or the process has as many fibers as its listing
  -- has room for and the call is a fault.
  pub fib_convert-Good : Good (fib_convert c k) ⊎ (IsFull c k × (fib_convert c k ≡ fault))
  unfolding fresh_fiber fib_convert
  fib_convert-Good = elim (find_process c k v) [
    | inr closed ↦ inl (rw (for_process-none c k (convert_in c) minus_one closed) (returns v))
    | inl h ↦ elim (find_thread c k h v) [
      | inl s ↦ inl (rw (fib_convert-again s.caller) (returns v))
      | inr new ↦ elim (dec_lt h.p.last_fib_id n_fib) [
        | yes room ↦ inl (
            rw
              (fib_convert-new c k h.here v.positive h.good.one new (omega (arith, h.good.counted)))
              (returns
                (with_converted-IsValid c k h _ v room refl refl refl (_, _, refl, refl) new)))
        | no full ↦ inr (
          (h, omega (arith, h.good.room)),
          fib_convert-full c k h.here v.positive h.good.one new (omega (arith, h.good.counted)),
        )
      ]
    ]
  ]
