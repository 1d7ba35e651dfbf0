-- ===== src/Entries.antt =====
-- The entries of a process's listing, as do_fib_create of SviluppoHashTable/Module/Fiber.c makes
-- and adds them.
pub mod Decimal
pub mod Names
use linux_fibers.Common.{
  ℕ, zero, suc, ◌+◌, ◌/◌, ◌%◌, ◌==◌, if◌then◌else◌, ltb, Bool, true, false, List, [], ◌∷◌, length,
  update,
}
use linux_fibers.Kernel.{Ptr, null, PidEntry, FiberStuff}
use linux_fibers.Kernel.Store.{M, pure, crash, ◌>>=◌}

-- fib_open gives each process an array of this many entries.
abbrev pub n_fib : ℕ
n_fib = 1000

-- `%d` of a number that is not negative; it has at most ten digits.
unfoldable pub decimal : (fuel : ℕ) → ℕ → List ℕ → List ℕ
decimal zero n rest = rest
decimal (suc fuel) n rest =
    let shorter = decimal fuel (n / 10) ((48 + n % 10) ∷ rest) in
    if n / 10 == 0 then (48 + n % 10) ∷ rest else shorter

-- `sprintf(name, "f%d", id)`
unfoldable pub fiber_name : ℕ → List ℕ
unfolding decimal
fiber_name id = b'f' ∷ decimal 10 id []

-- `S_IFREG|(S_IRUGO)`
abbrev pub log_mode : ℕ
log_mode = 0o100444

-- The address of `fops_proc`.
abbrev pub fops_proc : Ptr
fops_proc = 1

unfoldable pub log_entry : ℕ → PidEntry
unfolding fiber_name
log_entry id = record {
  name = fiber_name id;
  len = length (fiber_name id);
  mode = log_mode;
  iop = null;
  fop = fops_proc;
}

-- The loop of do_fib_create over `listafiber_stuff`.
unfoldable pub add_entry : PidEntry → List FiberStuff → M (List FiberStuff)
add_entry entry [] = pure []
add_entry entry (s ∷ rest) =
    if ltb s.len_fiber_stuff n_fib
    then (do
      rest ← add_entry entry rest
      pure (
          record {
            fiber_base_stuff = update s.fiber_base_stuff s.len_fiber_stuff entry;
            len_fiber_stuff = s.len_fiber_stuff + 1;
          }
          ∷ rest))
    else crash
