-- ===== src/Ult/Laws.antt =====
-- What each function of ult.c does.
use linux_fibers.Common.{
  ℕ, suc, ◌+◌, ◌%◌, ◌==◌, ◌≡◌, ◌≢◌, ◌≤◌, ◌<◌, refl, arith, if◌then◌else◌, true, false, some, none,
  update,
}
use linux_fibers.Kernel.{Ptr, null}
use linux_fibers.Fiber.{int_word}
use linux_fibers.Interface.{aligned, stack_size_max}
use linux_fibers.Ult.Machine.{Context, Ult, Ults, ran, failed, ◌>>◌}
use linux_fibers.Ult.{ult_convert, ult_creat, ult_switch_to}

-- A new user-level thread at the next address.
abbrev pub with_new : Ults → Ult → Ults
with_new s u = record s {
  ults = update s.ults s.next_address (some u);
  next_address = suc s.next_address;
  ult_id = (s.ult_id + 1) % int_word;
}

abbrev pub converted : ℕ → Ults → Ults
converted t s = record (with_new s (record { running = true; context = s.cpu t; id = s.ult_id })) {
  current = update s.current t s.next_address;
}

pub ult_convert_lem :
    (t : ℕ) (s : Ults)
    → s.next_address ≢ null
    → ult_convert t s ≡ ran s.next_address (converted t s)
unfolding ult_convert
ult_convert_lem t s ne = ground (arith, ne)

-- The memory after the thread `t`, which runs `w` at `from`, made a fiber.
abbrev pub with_fiber : Ptr → Ult → (entry_point args : ℕ) → Ults → Ults
with_fiber from w entry_point args s = record s {
  ults =
      update
        (update s.ults s.next_address (
          some
            (record { running = false; context = Context.starts entry_point args; id = s.ult_id })))
        from (some (record w { context = Context.creating }));
  next_address = suc s.next_address;
  ult_id = (s.ult_id + 1) % int_word;
}

-- The memory after the thread `t` switched from `w` at `from` to `v` at `to`.
abbrev pub switched : ℕ → Ults → Ptr → Ult → Ptr → Ult → Ults
switched t s from w to v = record s {
  ults =
      update (update s.ults to (some (record v { running = true }))) from
        (some (record w { running = false; context = s.cpu t }));
  current = update s.current t to;
  cpu = update s.cpu t v.context;
}

module _ (t : ℕ) (s : Ults) {from : Ptr} {w : Ult} (runs : s.current t ≡ from)
    (from_ne : from ≢ null) (stored : s.ults from ≡ some w) (running : w.running ≡ true) where
  -- When a thread runs a fiber and the size, rounded up to pages, fits the block of 8192 bytes,
  -- ult_creat returns a new fiber with the next id that is free and starts at the function with
  -- its argument; the thread goes on with its own fiber, locked as before, and nothing else
  -- changes.
  pub ult_creat_lem :
      (page_size sigstksz stack_size entry_point args : ℕ)
      → aligned page_size (if stack_size == 0 then sigstksz else stack_size) ≤ stack_size_max
      → s.next_address ≢ null
      → from ≢ s.next_address
      → ult_creat t page_size sigstksz stack_size entry_point args s
        ≡ ran s.next_address (with_fiber from w entry_point args s)
  unfolding ult_creat
  ult_creat_lem page_size sigstksz stack_size entry_point args fits ne apart =
      ground (arith, fits, ne, apart, runs, from_ne, stored, running)

  -- A switch of a thread that runs a fiber to one that is free locks that one, makes it the
  -- current fiber and loads its context, and saves the place of the thread in the old fiber and
  -- frees it; nothing else changes.
  pub switch_free :
      (to : Ptr) (v : Ult)
      → to ≢ null
      → s.ults to ≡ some v
      → v.running ≡ false
      → ult_switch_to t to s ≡ ran tt (switched t s from w to v)
  unfolding ult_switch_to
  switch_free to v ne at free = ground (arith, ne, at, free, runs, from_ne, stored, running)

-- A switch to a fiber that is taken changes nothing.
pub switch_taken :
    (t : ℕ) (s : Ults) (to : Ptr) (v : Ult)
    → s.ults to ≡ some v
    → v.running ≡ true
    → ult_switch_to t to s ≡ ran tt s
unfolding ult_switch_to
switch_taken t s to v at taken = ground (arith, at, taken)

pub switch_null : (t : ℕ) (s : Ults) → ult_switch_to t null s ≡ ran tt s
unfolding ult_switch_to
switch_null t s = refl

-- The calls that do not return: a size that the block does not hold, no current fiber, and an
-- address of no fiber.
pub creat_big :
    (t : ℕ) (s : Ults) (page_size sigstksz stack_size entry_point args : ℕ)
    → stack_size_max < aligned page_size (if stack_size == 0 then sigstksz else stack_size)
    → ult_creat t page_size sigstksz stack_size entry_point args s ≡ failed
unfolding ult_creat
creat_big t s page_size sigstksz stack_size entry_point args big = ground (arith, big)

pub creat_nobody :
    (t : ℕ) (s : Ults) (page_size sigstksz stack_size entry_point args : ℕ)
    → s.current t ≡ null
    → s.next_address ≢ null
    → ult_creat t page_size sigstksz stack_size entry_point args s ≡ failed
unfolding ult_creat
creat_nobody t s page_size sigstksz stack_size entry_point args nobody ne =
    ground (arith, nobody, ne)

pub switch_dangling :
    (t : ℕ) (s : Ults) (to : Ptr) → to ≢ null → s.ults to ≡ none → ult_switch_to t to s ≡ failed
unfolding ult_switch_to
switch_dangling t s to ne at = ground (arith, ne, at)

pub switch_nobody :
    (t : ℕ) (s : Ults) (to : Ptr) (v : Ult)
    → s.current t ≡ null
    → to ≢ null
    → s.ults to ≡ some v
    → v.running ≡ false
    → ult_switch_to t to s ≡ failed
unfolding ult_switch_to
switch_nobody t s to v nobody ne at free = ground (arith, nobody, ne, at, free)

-- A thread that runs a fiber and switches to another one that is free, and then back, is where it
-- was: its place is saved in its own fiber, and everything else is as before.
pub switch-switch :
    (t : ℕ) (s : Ults) {from : Ptr} {w : Ult}
    → s.current t ≡ from
    → from ≢ null
    → s.ults from ≡ some w
    → w.running ≡ true
    → (to : Ptr) (v : Ult) → to ≢ null
    → s.ults to ≡ some v
    → v.running ≡ false
    → (ult_switch_to t to >> ult_switch_to t from) s
      ≡ ran tt (record s { ults = update s.ults from (some (record w { context = s.cpu t })) })
unfolding ult_switch_to
switch-switch t s {from} {w} runs from_ne stored running to v ne at free =
    let apart : from ≢ to = λ e. ground (arith, e, stored, at, running, free) in
    ground (arith, runs, from_ne, stored, running, ne, at, free, apart)
