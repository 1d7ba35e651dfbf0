-- ===== src/Contention.antt =====
-- Calls of fib_switch_to (SviluppoHashTable/Module/Fiber.c) that run at the same time on several
-- processors: the accesses that decide which fiber a thread runs, one by one, in any interleaving.
pub mod Places
pub mod Exclusion
pub mod Deadlock
use linux_fibers.Common.{ℕ, ◌≡◌, ◌≢◌, Bool, true, false, Option, none, some, update}

-- Where a thread is in fib_switch_to, with the old and the new fiber: outside; before and behind
-- the lock of the old fiber; behind that of the new one; behind the test of its `selected_thread`;
-- behind the writes of the two `selected_thread`; before the unlock of the new and of the old fiber.
pub data Place : Type 0 where
  outside : Place
  wants : (old new : ℕ) → Place
  holds : (old new : ℕ) → Place
  both : (old new : ℕ) → Place
  tested : (old new : ℕ) → Place
  cleared : (old new : ℕ) → Place
  taken : (old new : ℕ) → Place
  finishes : (old new : ℕ) → Place
  leaves : ℕ → Place

-- `runner` of a thread; `selected_thread` and the holder of `lock_fiber` of a fiber, and whether it
-- is one of the process.
pub record Cores : Type 0 where
  pub runner : ℕ → ℕ
  pub selected : ℕ → Option ℕ
  pub lock : ℕ → Option ℕ
  pub listed : ℕ → Bool
  pub place : ℕ → Place

abbrev pub goes : ℕ → Place → Cores → Cores
goes t p s = record s { place = update s.place t p }

abbrev pub sets_lock : ℕ → Option ℕ → Cores → Cores
sets_lock f o s = record s { lock = update s.lock f o }

abbrev pub sets_selected : ℕ → Option ℕ → Cores → Cores
sets_selected f o s = record s { selected = update s.selected f o }

abbrev pub sets_runner : ℕ → ℕ → Cores → Cores
sets_runner t f s = record s { runner = update s.runner t f }

-- A step of thread t. A lock is taken when it is free; until then the thread spins, which is no step.
pub data CoreStep (t : ℕ) (s : Cores) : Cores → Type 0 where
  enters : (new : ℕ) → s.place t ≡ outside → CoreStep t s (goes t (wants (s.runner t) new) s)
  locks_old :
      (old new : ℕ)
      → s.place t ≡ wants old new
      → s.lock old ≡ none
      → CoreStep t s (goes t (holds old new) (sets_lock old (some t) s))
  refuses_missing :
      (old new : ℕ)
      → s.place t ≡ holds old new
      → s.listed new ≡ false
      → CoreStep t s (goes t (leaves old) s)
  refuses_same :
      (old new : ℕ) → s.place t ≡ holds old new → old ≡ new → CoreStep t s (goes t (leaves old) s)
  locks_new :
      (old new : ℕ)
      → s.place t ≡ holds old new
      → old ≢ new
      → s.listed new ≡ true
      → s.lock new ≡ none
      → CoreStep t s (goes t (both old new) (sets_lock new (some t) s))
  refuses_running :
      (old new u : ℕ)
      → s.place t ≡ both old new
      → s.selected new ≡ some u
      → CoreStep t s (goes t (finishes old new) s)
  tests :
      (old new : ℕ)
      → s.place t ≡ both old new
      → s.selected new ≡ none
      → CoreStep t s (goes t (tested old new) s)
  clears_old :
      (old new : ℕ)
      → s.place t ≡ tested old new
      → CoreStep t s (goes t (cleared old new) (sets_selected old none s))
  takes_new :
      (old new : ℕ)
      → s.place t ≡ cleared old new
      → CoreStep t s (goes t (taken old new) (sets_selected new (some t) s))
  moves :
      (old new : ℕ)
      → s.place t ≡ taken old new
      → CoreStep t s (goes t (finishes old new) (sets_runner t new s))
  unlocks_new :
      (old new : ℕ)
      → s.place t ≡ finishes old new
      → CoreStep t s (goes t (leaves old) (sets_lock new none s))
  unlocks_old :
      (old : ℕ) → s.place t ≡ leaves old → CoreStep t s (goes t outside (sets_lock old none s))

-- Any interleaving.
pub data Interleaving (s : Cores) : Cores → Type 0 where
  idle : Interleaving s s
  after : {s' s'' : Cores} {t : ℕ} → Interleaving s s' → CoreStep t s' s'' → Interleaving s s''
