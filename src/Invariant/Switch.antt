-- ===== src/Invariant/Switch.antt =====
-- fib_switch_to in a valid memory.
use linux_fibers.Common.{ℕ, ◌≡◌, ◌≢◌, refl, ◌⊎◌, inl, inr, some, ℤ, pos, minus_one}
use native.Mathlib.Decide.{ℕ_discrete}
use linux_fibers.Kernel.{Ptr, null, Fiber, Thread, Kernel, Current}
use linux_fibers.Kernel.Store.{ok, put_fiber}
use linux_fibers.Kernel.Caller.{for_process-none, for_thread-none}
use linux_fibers.Fiber.{switch_from, fib_switch_to}
use linux_fibers.Fiber.Switch.{
  RunsOld, failed_fiber, switch_self, switch-missing, switch-running, switch-idle,
}
use linux_fibers.Invariant.{IsValid}
use linux_fibers.Invariant.Find.{Here, Standing, find_process, find_thread, find_fiber}
use linux_fibers.Invariant.Keeps.{put_fiber-IsValid, switched-IsValid}

-- The call returned 0 or -1 and left a valid memory.
abbrev pub Switches : Current → ℕ → Kernel → Type 0
Switches c id k =
    (r : ℤ) × (k' : Kernel) × (fib_switch_to c id k ≡ ok r k')
    × ((r ≡ pos 0) ⊎ (r ≡ minus_one))
    × IsValid k'

module _ (c : Current) (k : Kernel) (id : ℕ) (v : IsValid k) where
  runs_old :
      (s : Thread) (f : Fiber)
      → s.runner ≢ null
      → k.fibers s.runner ≡ some f
      → RunsOld k s s.runner f
  runs_old s f ne at = record {
    runner = refl;
    ne_null = ne;
    stored = at;
    unlocked = v.unlocked s.runner f at;
  }

  fails :
      (p : Ptr) (f : Fiber)
      → k.fibers p ≡ some f
      → (fib_switch_to c id k ≡ ok minus_one (put_fiber p (some (failed_fiber f)) k))
      → Switches c id k
  fails p f at e = (
    minus_one,
    put_fiber p (some (failed_fiber f)) k,
    e,
    inr refl,
    put_fiber-IsValid k p f (failed_fiber f) at refl refl (v.unlocked p f at) (v.storage p f at) v,
  )

  from_thread : (h : Here c k) (s : Standing c k h) → Switches c id k
  from_thread h s =
      let (ne, r) = v.running s.t s.thread s.caller.stored in
      let (f, at, sel) = r in
      let runs = runs_old s.thread f ne at in
      elim (ℕ_discrete f.id id) [
        | yes same ↦ fails s.thread.runner f at (switch_self c k s.caller runs id same)
        | no differ ↦ elim (find_fiber c k h id) [
          | inr missing ↦
              (minus_one, k, switch-missing c k s.caller runs id differ missing, inr refl, v)
          | inl g ↦
              let unlocked = v.unlocked g.place.f g.fiber g.target.stored in
              elim (ℕ_discrete g.fiber.selected_thread null) [
                | yes idle ↦ (
                  pos 0,
                  _,
                  switch-idle c k s.caller runs id differ g.target unlocked idle,
                  inl refl,
                  switched-IsValid c k s.caller.ne_null s.caller.stored refl at g.target.stored idle
                      v,
                )
                | no busy ↦
                    fails s.thread.runner f at
                      (switch-running c k s.caller runs id differ g.target unlocked busy)
              ]
        ]
      ]

  -- From a valid memory fib_switch_to always returns, whatever the id: it meets no fault and no
  -- held lock, the result is 0 or -1, and the memory is valid again.
  pub fib_switch_to-IsValid : Switches c id k
  unfolding fib_switch_to
  fib_switch_to-IsValid = elim (find_process c k v) [
    | inr unopened ↦ (minus_one, k, for_process-none c k _ minus_one unopened, inr refl, v)
    | inl h ↦ elim (find_thread c k h v) [
      | inl s ↦ from_thread h s
      | inr no_thread ↦ (
        minus_one,
        k,
        for_thread-none h.here k.next_address no_thread (switch_from c id) minus_one,
        inr refl,
        v,
      )
    ]
  ]
