-- ===== src/Tests/Contention.antt =====
-- Threads 0 and 1, which run the fibers 10 and 11.
use linux_fibers.Common.{ℕ, ◌+◌, ◌-◌, ◌≡◌, ◌≢◌, refl, arith, true, none, some, ltb, if◌then◌else◌}
use linux_fibers.Contention.{
  outside, wants, holds, Cores, goes, sets_lock, CoreStep, enters, locks_old, Interleaving, idle,
  after,
}
use linux_fibers.Contention.Exclusion.{contended_exclusive}
use linux_fibers.Contention.Deadlock.{switch_deadlock}

-- Thread t runs fiber t + 10.
abbrev quiet : Cores
quiet = record {
  runner = λ t. t + 10;
  selected = λ f. if ltb f 10 then none else some (f - 10);
  lock = λ f. none;
  listed = λ f. true;
  place = λ t. outside;
}

quiet_runs : (t : ℕ) → quiet.selected (quiet.runner t) ≡ some t
quiet_runs t = ground arith

abbrev one_waits : Cores
one_waits = goes 0 (holds 10 5) (sets_lock 10 (some 0) (goes 0 (wants 10 5) quiet))

one_waits_reached : Interleaving quiet one_waits
one_waits_reached = after {t = 0} (after {t = 0} idle (enters 5 refl)) (locks_old 10 5 refl refl)

contended_exclusive_example : one_waits.runner 0 ≢ one_waits.runner 1
contended_exclusive_example =
    contended_exclusive (λ t. refl) quiet_runs one_waits_reached 0 1 (omega arith)

switch_deadlock_example :
    (s' : Cores) × (Interleaving quiet s'
      × (((x : Cores) → CoreStep 0 s' x → ⊥) × ((x : Cores) → CoreStep 1 s' x → ⊥)))
switch_deadlock_example =
    switch_deadlock quiet 0 1 (omega arith) (omega arith) refl refl refl refl refl refl
