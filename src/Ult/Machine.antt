-- ===== src/Ult/Machine.antt =====
-- The state of 2018-fibers/src/ult.c and commands on it.
use linux_fibers.Common.{ℕ, ◌==◌, if◌then◌else◌, Bool, Option, none, some, ℤ, update}
use linux_fibers.Kernel.{Ptr, null}

-- A saved context by the place where it goes on: cleared memory, a place of the program, behind
-- context_save in context_create_trampoline, behind set_jmp in context_switch_create, and behind
-- set_jmp in context_create_boot, where the fiber's function is called.
pub data Context : Type 0 where
  blank : Context
  program : ℕ → Context
  trampoline : Context
  creating : Context
  starts : (entry_point args : ℕ) → Context

pub record Ult : Type 0 where
  pub running : Bool
  pub context : Context
  pub id : ℕ

-- The globals, the blocks of `malloc`, and for each thread its `current` and where it is.
pub record Ults : Type 0 where
  pub ults : Ptr → Option Ult
  pub next_address : Ptr
  pub ult_id : ℕ
  pub current : ℕ → Ptr
  pub cpu : ℕ → Context
  pub fls : ℕ → ℤ
  pub fls_idx : ℕ

pub data Run (A : Type 0) : Type 0 where
  ran : A → Ults → Run A
  failed : Run A
  waits : Run A

abbrev pub M : Type 0 → Type 0
M A = Ults → Run A

abbrev pub pure : {A : Type 0} → A → M A
pure = ran

abbrev pub crash : {A : Type 0} → M A
crash s = failed

module _ {A B : Type 0} where
  abbrev pub and_then : Run A → (A → M B) → Run B
  and_then (ran a s) f = f a s
  and_then failed f = failed
  and_then waits f = waits

  infixl 5 ◌>>=◌ ◌>>◌
  abbrev pub ◌>>=◌ : M A → (A → M B) → M B
  m >>= f = λ s. and_then (m s) f

  abbrev pub ◌>>◌ : M A → M B → M B
  m >> n = m >>= λ _. n

abbrev pub get : {A : Type 0} → (Ults → A) → M A
get f s = ran (f s) s

abbrev pub modify : (Ults → Ults) → M (Unit {0})
modify f s = ran tt (f s)

abbrev pub put_ult : Ptr → Ult → Ults → Ults
put_ult p u s = record s { ults = update s.ults p (some u) }

unfoldable pub load_ult : Ptr → M Ult
load_ult p s = if p == null then failed else elim (s.ults p) [ none ↦ failed | some u ↦ ran u s ]

unfoldable pub write_ult : Ptr → (Ult → Ult) → M (Unit {0})
unfolding load_ult
write_ult p g = do u ← load_ult p; modify (put_ult p (g u))
