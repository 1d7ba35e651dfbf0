-- ===== src/Reading.antt =====
-- Reading /proc/<pid>/fibers/f<id>: myread of SviluppoHashTable/Module/Fiber.c.
pub mod Text
pub mod Loops
pub mod Laws
use linux_fibers.Common.{
  ℕ, zero, suc, ◌+◌, ◌-◌, ◌/◌, ◌%◌, ◌^◌, ◌==◌, if◌then◌else◌, ltb, leb, Bool, true, false, Option,
  none, some, List, [], ◌∷◌, ◌++◌, length, ℤ, pos, minus_one,
}
use linux_fibers.Kernel.{Ptr, null, Fiber, Process}
use linux_fibers.Kernel.Store.{M, pure, crash, ◌>>=◌, ◌>>◌, get, load_fiber}
use linux_fibers.Entries.{decimal}
use linux_fibers.Fiber.{int_word, sign_extend}
use linux_fibers.Listing.{codes}
use linux_fibers.Ioctl.{efault}

-- `FIB_LOG_LEN`
abbrev pub fib_log_len : ℕ
fib_log_len = 1024

-- `kstrtoul(name, 10, &v)` and `kstrtol(name, 10, &v)` with `v` before: `v` after, as a bit
-- pattern; what `%p` prints; and the uninitialised variables.
pub record Reader : Type 0 where
  pub kstrtoul : List ℕ → ℕ → ℕ
  pub kstrtol : List ℕ → ℕ → ℕ
  pub print_pointer : Ptr → List ℕ
  pub stack_fib_id : ℕ
  pub stack_tmp_pid : ℕ

-- The name of the file, and of the directory above "fibers".
pub record FilePath : Type 0 where
  pub name : List ℕ
  pub pid_name : List ℕ

-- `*off`, and what stands in the user's buffer.
pub record Cursor : Type 0 where
  pub off : ℕ
  pub buf : List ℕ

abbrev pub take : ℕ → List ℕ → List ℕ
take zero xs = []
take (suc n) [] = []
take (suc n) (x ∷ xs) = x ∷ take n xs

-- `s + 1` of a C string.
abbrev pub behind_first : List ℕ → List ℕ
behind_first [] = []
behind_first (x ∷ xs) = xs

-- The bytes in front of the terminating zero, at most `n`.
pub strnlen : List ℕ → ℕ → ℕ
strnlen xs zero = 0
strnlen [] (suc n) = 0
strnlen (x ∷ xs) (suc n) = let rest = strnlen xs n in if x == 0 then 0 else suc rest

-- `%lu` of a word, which has at most twenty digits.
abbrev pub print_word : ℕ → List ℕ
print_word n = decimal 20 n []

abbrev pub join : List (List ℕ) → List ℕ
join [] = []
join (x ∷ xs) = x ++ join xs

-- What `sprintf` writes for a fiber, piece by piece.
abbrev pub pieces : (Ptr → List ℕ) → Fiber → List (List ℕ)
pieces print_pointer f =
    codes "##FIBER STATISTICS##\n\n - This fiber is currently "
    ∷ (if f.selected_thread == null then codes "not " else [])
    ∷ codes "running.\n - The initial entry point is: "
    ∷ print_pointer f.entry_point
    ∷ codes "\n - This fiber was created by: "
    ∷ print_word f.creator
    ∷ codes " (pid)\n - Succesful activations: "
    ∷ print_word f.correct_counter
    ∷ codes "\n - Unsuccesful activations: "
    ∷ print_word f.failed_counter
    ∷ codes "\n - Total running time: "
    ∷ print_word (f.exec_time / 1000)
    ∷ codes " msec\n"
    ∷ []

unfoldable pub stat_text : (Ptr → List ℕ) → Fiber → List ℕ
stat_text print_pointer f = join (pieces print_pointer f)

-- The body of the two loops: the value returned at once, if it is, and `i`.
pub read_fiber : Reader → Bool → ℕ → Fiber → ℤ → Cursor → M (Option ℤ × ℤ × Cursor)
read_fiber m copy_ok len f i r =
    let text = stat_text m.print_pointer f in
    let total = strnlen text fib_log_len in
    let count = if ltb len total then len else total in
    if ltb (length text) fib_log_len
    then (if leb total r.off
        then pure (some (pos 0), i, r)
        else if copy_ok
        then pure (none, pos count, record { off = r.off + count; buf = take count text })
        else pure (some efault, i, r))
    else crash

pub read_fibers :
    Reader → Bool → (len fib_id : ℕ) → List Ptr → ℤ → Cursor → M (Option ℤ × ℤ × Cursor)
unfolding load_fiber
read_fibers m copy_ok len fib_id [] i r = pure (none, i, r)
read_fibers m copy_ok len fib_id (p ∷ ps) i r = do
  f ← load_fiber p
  (stop, i, r) ←
      if sign_extend f.id == fib_id then read_fiber m copy_ok len f i r else pure (none, i, r)
  elim stop [ none ↦ read_fibers m copy_ok len fib_id ps i r | some v ↦ pure (some v, i, r) ]

pub read_processes :
    Reader → Bool → (len fib_id pid : ℕ) → List Process → ℤ → Cursor → M (Option ℤ × ℤ × Cursor)
unfolding read_fibers
read_processes m copy_ok len fib_id pid [] i r = pure (none, i, r)
read_processes m copy_ok len fib_id pid (q ∷ qs) i r = do
  (stop, i, r) ←
      if q.id == pid then read_fibers m copy_ok len fib_id q.listafiber i r else pure (none, i, r)
  elim stop [ none ↦ read_processes m copy_ok len fib_id pid qs i r | some v ↦ pure (some v, i, r) ]

-- `i` starts as `(size_t) -1`, and is returned as a signed number.
unfoldable pub myread : Reader → FilePath → (copy_ok : Bool) → (len : ℕ) → Cursor → M (ℤ × Cursor)
unfolding read_processes
myread m path copy_ok len r = do
  let fib_id = m.kstrtoul (behind_first path.name) m.stack_fib_id
  let pid = m.kstrtol path.pid_name m.stack_tmp_pid % int_word
  ps ← get λ k. k.processi
  (stop, i, r) ← read_processes m copy_ok len fib_id pid ps minus_one r
  pure (elim stop [ none ↦ i | some v ↦ v ], r)
