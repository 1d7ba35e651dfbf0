-- ===== src/Listing.antt =====
-- The directory /proc/<pid>/fibers: the probes Pre_Handler_Readdir, Post_Handler_Readdir,
-- Pre_Handler_Lookup and Post_Handler_Lookup of SviluppoHashTable/Module/Fiber.c, which run when
-- the kernel lists or looks up a directory of /proc, and change the table of entries it uses.
pub mod Tables
pub mod Handlers
use Prim.Native.String.{String}
use Prim.Native.Char.{code}
use linux_fibers.Common.{
  ℕ, zero, suc, ◌+◌, ◌-◌, ◌*◌, ◌/◌, ◌%◌, ◌^◌, ◌==◌, ◌&&◌, if◌then◌else◌, ltb, Bool, true, false,
  List, [], ◌∷◌, update,
}
use linux_fibers.Kernel.{Ptr, null, PidEntry, FiberStuff, Process}
use linux_fibers.Kernel.Store.{M, pure, crash, ◌>>=◌, ◌>>◌}
use linux_fibers.Kernel.Loops.{for_process}
use linux_fibers.Entries.{n_fib}
use linux_fibers.Fiber.{word, int_word, sign_extend}
use linux_fibers.Process.{zero_entry}

-- The bytes of a literal.
abbrev pub codes : String → List ℕ
codes String.[] = []
codes (String.◌∷◌ c s) = code c ∷ codes s

-- `strcmp(a, b) == 0`
abbrev pub same_name : List ℕ → List ℕ → Bool
same_name [] [] = true
same_name [] (_ ∷ _) = false
same_name (_ ∷ _) [] = false
same_name (a ∷ as') (b ∷ bs) = (a == b) && same_name as' bs

abbrev pub fibers_name : List ℕ
fibers_name = codes "fibers"

abbrev pub attr_name : List ℕ
attr_name = codes "attr"

-- `S_IFDIR|S_IRUGO|S_IXUGO`
abbrev pub dir_mode : ℕ
dir_mode = 0o040555

-- An array of entries: its address, how many it has room for, and what stands in it.
pub record Table : Type 0 where
  pub address : Ptr
  pub room : ℕ
  pub entry : ℕ → PidEntry

-- What the probes see and change: the registers that pass the table and its length, the module's
-- `new_tgid_base_stuff`, the link count of the directory's inode, and the address that `kzalloc`
-- gives next.
pub record Probe : Type 0 where
  pub dx : Table
  pub cx : ℕ
  pub new_tgid_base_stuff : Table
  pub nlink : ℕ
  pub next_table : Ptr

-- The names of the directory and of its parent.
pub record Dentry : Type 0 where
  pub name : List ℕ
  pub parent_name : List ℕ

-- `kstrtol(name, 10, &v)` with `v` before: `v` after, as a bit pattern. `listing_at` is where the
-- array of a process stands. The `stack_` fields are the uninitialised variables.
pub record Machine : Type 0 where
  pub kstrtol : List ℕ → ℕ → ℕ
  pub listing_at : ℕ → Ptr
  pub stack_parent : ℕ
  pub stack_myid : ℕ
  pub stack_int : ℕ
  pub stack_entry : PidEntry

-- `sizeof(struct pid_entry)`
abbrev pub entry_size : ℕ
entry_size = 40

-- The loop over `listafiber_stuff`: it sets `n_fibers` and the registers.
pub show_stuff : Ptr → List FiberStuff → ℕ × Probe → ℕ × Probe
show_stuff at [] r = r
show_stuff at (s ∷ rest) (n_fibers, r) = show_stuff at rest (
  s.len_fiber_stuff,
  record r {
    dx = (record { address = at; room = n_fib; entry = s.fiber_base_stuff });
    cx = s.len_fiber_stuff;
  },
)

-- The branch of the directory "fibers".
pub list_fibers : Machine → ℕ → Probe → M Probe
unfolding for_process show_stuff
list_fibers m id r = do
  (n_fibers, r) ←
      for_process id (λ p r. pure (show_stuff (m.listing_at p.id) p.listafiber_stuff r, p))
        (m.stack_int, r)
  pure (if n_fibers == 0 then record r { cx = n_fibers } else r)

-- The entry "fibers" before the loop, on top of what stands in the variable.
abbrev pub fibers_entry : PidEntry → PidEntry
fibers_entry e = record e { name = fibers_name; len = 6; mode = dir_mode }

-- The loop that copies the table; `rounds` are left. It gives the new entry too.
pub copy_entries : (rounds i : ℕ) → Table → Table → PidEntry → M (Table × PidEntry)
copy_entries zero i old new e = pure (new, e)
copy_entries (suc rounds) i old new e =
    let e' =
      if same_name (old.entry i).name attr_name
      then record e { iop = (old.entry i).iop; fop = (old.entry i).fop }
      else e in
    let rest =
      copy_entries rounds (i + 1) old (record new { entry = update new.entry i (old.entry i) })
        e' in
    if ltb i old.room && ltb i new.room then rest else crash

-- `new[i] = fibers_entry`
pub append_entry : ℕ → PidEntry → Table → M Table
append_entry i e new =
    if ltb i new.room then pure (record new { entry = update new.entry i e }) else crash

-- `size` and the array: an `int` that is negative is a size that `kzalloc` refuses.
pub new_table : ℕ → ℕ → Table
new_table n at =
    let size = (entry_size * (n + 1)) % int_word in
    record {
      address = if ltb size (2 ^ 31) then at else null;
      room = if ltb size (2 ^ 31) then size / entry_size else 0;
      entry = λ _. zero_entry;
    }

-- The rounds of `for (i = 0; i < n; i++)` for an `int`.
abbrev pub rounds_of : ℕ → ℕ
rounds_of n = if ltb n (2 ^ 31) then n else 0

-- One process of the id in the branch of the other directories.
pub extend_table : Machine → Probe → M Probe
unfolding copy_entries append_entry new_table
extend_table m r = do
  let n = r.cx % int_word
  (new, e) ←
      copy_entries (rounds_of n) 0 r.dx (new_table n r.next_table) (fibers_entry m.stack_entry)
  new ← append_entry (rounds_of n) e new
  pure (record r {
    dx = new;
    cx = (sign_extend n + 1) % word;
    new_tgid_base_stuff = new;
    next_table = r.next_table + 1;
  })

unfoldable pub pre_handler_readdir : Machine → Dentry → Probe → M Probe
unfolding list_fibers extend_table
pre_handler_readdir m d r =
    let parent = m.kstrtol d.parent_name m.stack_parent in
    if same_name d.name fibers_name
    then list_fibers m (parent % int_word) r
    else for_process (m.kstrtol d.name m.stack_myid % int_word)
        (λ p r. do r ← extend_table m r; pure (record r { nlink = r.nlink + 1 }, p)) r

unfoldable pub post_handler_readdir : Probe → Probe
post_handler_readdir r =
    if r.new_tgid_base_stuff.address == r.dx.address then record r { nlink = r.nlink - 1 } else r

unfoldable pub pre_handler_lookup : Machine → Dentry → Probe → M Probe
unfolding list_fibers extend_table
pre_handler_lookup m d r =
    let parent = m.kstrtol d.parent_name m.stack_parent in
    if same_name d.name fibers_name
    then list_fibers m (parent % int_word) r
    else for_process (m.kstrtol d.name m.stack_myid % int_word)
        (λ p r. do r ← extend_table m r; pure (r, p)) r

-- The last probe changes nothing.
unfoldable pub post_handler_lookup : Probe → Probe
post_handler_lookup r = r
