-- ===== src/Fls.antt =====
-- Fiber-local storage: flsAlloc, flsFree, flsGetValue and flsSetValue of
-- SviluppoHashTable/Module/Fiber.c. Each function loops over the processes of the caller's tgid and
-- their threads of the caller's pid; what it does with one such thread has a function of its own.
pub mod Runs
pub mod Slots
pub mod Steps
pub mod Refine
use linux_fibers.Common.{
  ℕ, zero, suc, ◌+◌, ◌==◌, if◌then◌else◌, Bool, true, false, ◌||◌, Option, none, some, ℤ, pos,
  minus_one, lt_bound, is_nonneg,
}
use linux_fibers.Kernel.{Ptr, null, fls_size, Fiber, Current}
use linux_fibers.Kernel.Store.{
  M, pure, ◌>>=◌, ◌>>◌, load_fiber, load_thread, write_fiber, spin_lock, spin_unlock, read_at,
  write_at,
}
use linux_fibers.Kernel.Loops.{for_process, each_thread, for_caller}

-- `for(i = 0; i < FLS_SIZE; i++)` with its break: `rounds` are left, `index` is what it was before.
pub find_free : (rounds i : ℕ) → (ℕ → ℕ) → ℤ → ℤ
find_free zero i bits index = index
find_free (suc rounds) i bits index =
    let rest = find_free rounds (i + 1) bits index in if bits i == 0 then pos i else rest

-- `if (index < FLS_SIZE) bitmap_fls[index] = 1`
pub mark_used : (ℕ → ℕ) → ℤ → M (ℕ → ℕ)
unfolding write_at
mark_used bits index = if lt_bound index fls_size then write_at fls_size bits index 1 else pure bits

pub alloc_in : Ptr → Fiber → ℤ → M ℤ
unfolding mark_used write_fiber
alloc_in p f index = elim f.fls [
  | none ↦ pure index
  | some _ ↦ elim f.bitmap_fls [
    | none ↦ pure index
    | some bits ↦ do
      let index' = find_free fls_size 0 bits index
      bits' ← mark_used bits index'
      write_fiber p λ f. record f { bitmap_fls = some bits' }
      pure index'
  ]
]

pub alloc_on : Ptr → ℤ → M ℤ
unfolding load_thread load_fiber spin_lock spin_unlock alloc_in
alloc_on t index = do
  thread ← load_thread t
  if thread.runner == null then pure index else do
    spin_lock thread.runner
    f ← load_fiber thread.runner
    index ← alloc_in thread.runner f index
    spin_unlock thread.runner
    pure index

unfoldable pub fls_alloc : Current → M ℤ
unfolding for_process each_thread alloc_on
fls_alloc c = for_caller c alloc_on minus_one

-- The guard of flsFree, flsGetValue and flsSetValue: `index < FLS_SIZE || index >= 0`.
abbrev pub index_guard : ℤ → Bool
index_guard index = lt_bound index fls_size || is_nonneg index

-- `if(bitmap_fls[index] != 0)` behind the guard and the two NULL tests: the arrays if it holds.
pub used_slot : Fiber → ℤ → M (Option ((ℕ → ℤ) × (ℕ → ℕ)))
unfolding read_at
used_slot f index = elim f.fls [
  | none ↦ pure none
  | some values ↦ elim f.bitmap_fls [
    | none ↦ pure none
    | some bits ↦
        if index_guard index
        then (do
          bit ← read_at fls_size bits index
          pure (if bit == 0 then none else some (values, bits)))
        else pure none
  ]
]

pub free_on : ℤ → Ptr → Bool → M Bool
unfolding load_thread load_fiber spin_lock spin_unlock used_slot write_at write_fiber
free_on index t ret = do
  thread ← load_thread t
  if thread.runner == null then pure ret else do
    f ← load_fiber thread.runner
    slot ← used_slot f index
    elim slot [
      | none ↦ pure ret
      | some (values, bits) ↦ do
        spin_lock thread.runner
        bits' ← write_at fls_size bits index 0
        write_fiber thread.runner λ f. record f { bitmap_fls = some bits' }
        spin_unlock thread.runner
        pure true
    ]

unfoldable pub fls_free : Current → ℤ → M Bool
unfolding for_process each_thread free_on
fls_free c index = for_caller c (free_on index) false

pub get_on : ℤ → Ptr → ℤ → M ℤ
unfolding load_thread load_fiber used_slot read_at
get_on index t ret = do
  thread ← load_thread t
  if thread.runner == null then pure ret else do
    f ← load_fiber thread.runner
    slot ← used_slot f index
    elim slot [ none ↦ pure ret | some (values, bits) ↦ read_at fls_size values index ]

unfoldable pub fls_get_value : Current → ℤ → M ℤ
unfolding for_process each_thread get_on
fls_get_value c index = for_caller c (get_on index) minus_one

pub set_on : ℤ → ℤ → Ptr → Unit {0} → M (Unit {0})
unfolding load_thread load_fiber spin_lock spin_unlock used_slot write_at write_fiber
set_on index val t ret = do
  thread ← load_thread t
  if thread.runner == null then pure ret else do
    f ← load_fiber thread.runner
    slot ← used_slot f index
    elim slot [
      | none ↦ pure ret
      | some (values, bits) ↦ do
        spin_lock thread.runner
        values' ← write_at fls_size values index val
        write_fiber thread.runner λ f. record f { fls = some values' }
        spin_unlock thread.runner
    ]

unfoldable pub fls_set_value : Current → ℤ → ℤ → M (Unit {0})
unfolding for_process each_thread set_on
fls_set_value c index val = for_caller c (set_on index val) tt
