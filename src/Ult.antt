-- ===== src/Ult.antt =====
-- User-level threads: ult_convert, ult_creat, ult_switch_to and the storage functions of
-- 2018-fibers/src/ult.c, with the macros of ult.h. set_jmp and long_jmp (jmp.S) save and load the
-- context of a thread.
pub mod Machine
pub mod Laws
pub mod Valid
pub mod Reach
use linux_fibers.Common.{
  ℕ, suc, ◌+◌, ◌%◌, ◌^◌, ◌==◌, if◌then◌else◌, ltb, Bool, true, false, ℤ, pos, negsuc, minus_one,
  update,
}
use linux_fibers.Kernel.{Ptr, null}
use linux_fibers.Fiber.{int_word, word}
use linux_fibers.Interface.{aligned, stack_size_max}
use Machine.{
  Context, Ult, Ults, M, ran, failed, waits, pure, crash, ◌>>=◌, ◌>>◌, get, modify, load_ult,
  put_ult, write_ult,
}

-- `MAX_FLS`
abbrev pub max_fls : ℕ
max_fls = 4096

-- It takes the flag if it is clear.
unfoldable pub ult_trylock : Ptr → M Bool
unfolding load_ult
ult_trylock p = do
  u ← load_ult p
  modify (put_ult p (record u { running = true }))
  pure (if u.running then false else true)

-- It waits for the flag.
unfoldable pub ult_lock : Ptr → M (Unit {0})
unfolding load_ult
ult_lock p = do
  u ← load_ult p
  if u.running then (λ s. waits) else modify (put_ult p (record u { running = true }))

unfoldable pub ult_unlock : Ptr → M (Unit {0})
unfolding write_ult
ult_unlock p = write_ult p λ u. record u { running = false }

-- The size that is cleared in the block of `STACK_SIZE` bytes; `sigstksz` is the system's.
unfoldable pub get_ult_stack : (page_size sigstksz size : ℕ) → M (Unit {0})
get_ult_stack page_size sigstksz size =
    if ltb stack_size_max (aligned page_size (if size == 0 then sigstksz else size))
    then crash
    else pure tt

module _ (t : ℕ) where
  -- `set_jmp` in `from`, at a place of the code, and `long_jmp` to `to`.
  unfoldable pub save_context : Ptr → Context → M (Unit {0})
  unfolding write_ult
  save_context p place = write_ult p λ u. record u { context = place }

  unfoldable pub load_context : Ptr → M (Unit {0})
  unfolding load_ult
  load_context p = do u ← load_ult p; modify λ s. record s { cpu = update s.cpu t u.context }

  -- `context_switch(from, to)`, from a place of the code.
  unfoldable pub context_switch : Context → Ptr → Ptr → M (Unit {0})
  unfolding save_context load_context ult_unlock
  context_switch place from to = do save_context from place; ult_unlock from; load_context to

  -- The thread goes on at a place: a fault if the last `long_jmp` went elsewhere.
  unfoldable pub arrives : (Context → Bool) → M (Unit {0})
  arrives here = do c ← get λ s. s.cpu t; if here c then pure tt else crash

  -- `context_switch_create(current, context)`, and what runs on the new stack: it locks the creator
  -- again and switches back to it, at the place where the new fiber starts.
  unfoldable pub context_create : Ptr → (entry_point args : ℕ) → M (Unit {0})
  unfolding save_context load_context ult_lock ult_unlock context_switch arrives
  context_create ctx entry_point args = do
    user ← get λ s. s.cpu t
    current ← get λ s. s.current t
    save_context ctx Context.trampoline
    ult_lock ctx
    save_context current Context.creating
    ult_unlock current
    load_context ctx
    arrives is_trampoline
    ult_lock current
    context_switch (Context.starts entry_point args) ctx current
    arrives is_creating
    modify λ s. record s { cpu = update s.cpu t user }
    where
      is_trampoline : Context → Bool
      is_trampoline Context.trampoline = true
      is_trampoline _ = false

      is_creating : Context → Bool
      is_creating Context.creating = true
      is_creating _ = false

  unfoldable pub ult_convert : M Ptr
  unfolding ult_lock save_context
  ult_convert = do
    ctx ← get λ s. s.next_address
    modify λ s.
        record (put_ult ctx (record { running = false; context = Context.blank; id = s.ult_id })
          s) { next_address = suc s.next_address; ult_id = (s.ult_id + 1) % int_word }
    ult_lock ctx
    place ← get λ s. s.cpu t
    save_context ctx place
    modify λ s. record s { current = update s.current t ctx }
    pure ctx

  unfoldable pub ult_creat : (page_size sigstksz stack_size entry_point args : ℕ) → M Ptr
  unfolding get_ult_stack context_create
  ult_creat page_size sigstksz stack_size entry_point args = do
    get_ult_stack page_size sigstksz stack_size
    ctx ← get λ s. s.next_address
    modify λ s.
        record (put_ult ctx (record { running = false; context = Context.blank; id = s.ult_id })
          s) { next_address = suc s.next_address; ult_id = (s.ult_id + 1) % int_word }
    context_create ctx entry_point args
    pure ctx

  unfoldable pub ult_switch_to : Ptr → M (Unit {0})
  unfolding ult_trylock context_switch
  ult_switch_to to = if to == null then pure tt else do
    from ← get λ s. s.current t
    taken ← ult_trylock to
    if taken
        then (do
          modify λ s. record s { current = update s.current t to }
          place ← get λ s. s.cpu t
          context_switch place from to)
        else pure tt

unfoldable pub fls_alloc : M ℤ
fls_alloc = do
  ret ← get λ s. s.fls_idx
  modify λ s. record s { fls_idx = (s.fls_idx + 1) % word }
  pure (if ltb ret max_fls then pos ret else minus_one)

unfoldable pub fls_get : ℤ → M ℤ
fls_get (pos i) = if ltb i max_fls then get (λ s. s.fls i) else crash
fls_get (negsuc i) = crash

pub fls_free : ℤ → M Bool
fls_free idx = pure true

unfoldable pub fls_set : ℤ → ℤ → M (Unit {0})
fls_set (pos i) value =
    if ltb i max_fls then modify (λ s. record s { fls = update s.fls i value }) else crash
fls_set (negsuc i) value = crash
