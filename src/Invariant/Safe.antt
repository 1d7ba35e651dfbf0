-- ===== src/Invariant/Safe.antt =====
-- What a call may do to a valid memory.
use linux_fibers.Common.{◌≡◌, subst, ap}
use linux_fibers.Kernel.{Kernel}
use linux_fibers.Kernel.Store.{Run, ok, fault, M, and_then}
use linux_fibers.Invariant.{IsValid}

-- The run returns and leaves a valid memory.
pub data Good {A : Type 0} : Run A → Type 0 where
  returns : {a : A} {k : Kernel} → IsValid k → Good (ok a k)

-- The run leaves a valid memory, or stops in a fault; it never waits for a lock.
pub data Safe {A : Type 0} : Run A → Type 0 where
  good : {a : A} {k : Kernel} → IsValid k → Safe (ok a k)
  faulty : Safe fault

pub Safe-bind :
    {A B : Type 0} {r : Run A} (f : A → M B)
    → Safe r
    → ((a : A) (k : Kernel) → IsValid k → Safe (f a k))
    → Safe (and_then r f)
Safe-bind f (good v) next = next _ _ v
Safe-bind f faulty next = faulty

pub Good-Safe : {A : Type 0} {r : Run A} → Good r → Safe r
Good-Safe (returns v) = good v

memory_of : {A : Type 0} → Kernel → Run A → Kernel
memory_of d (ok a k) = k
memory_of d _ = d

-- A run that returned left a valid memory.
pub Safe-ok : {A : Type 0} {r : Run A} {a : A} {k : Kernel} → Safe r → r ≡ ok a k → IsValid k
unfolding memory_of
Safe-ok (good {k = k'} v) e = subst IsValid (ap (memory_of k') e) v
Safe-ok faulty e = cc
