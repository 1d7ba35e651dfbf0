-- ===== src/Reading/Laws.antt =====
-- What a read of the statistics returns.
use linux_fibers.Common.{
  ℕ, ◌+◌, ◌%◌, ◌^◌, ◌≡◌, ◌≤◌, ◌<◌, refl, sym, subst, arith, Bool, true, false, some, none, Option,
  List, All, length, ℤ, pos, minus_one,
}
use linux_fibers.Kernel.{Fiber, Process, Kernel, Current}
use linux_fibers.Kernel.Store.{Run, ok}
use linux_fibers.Kernel.Caller.{IsProcess}
use linux_fibers.Kernel.Target.{OtherFiber, FiberPlace, IsTarget}
use linux_fibers.Fiber.{int_word}
use linux_fibers.Ioctl.{efault}
use linux_fibers.Reading.{
  Reader, FilePath, Cursor, take, behind_first, stat_text, read_fibers, read_processes, myread,
}
use linux_fibers.Reading.Text.{Short}
use linux_fibers.Reading.Loops.{
  read_text, answer, take-length, read_fibers-others, read_fibers-one, read_processes-one,
}

module _ (m : Reader) (path : FilePath) {c : Current} {k : Kernel} {before : List Process}
    {p : Process} {after : List Process} {v : FiberPlace} {g : Fiber}
    (here : IsProcess c k before p after)
    (pid : m.kstrtol path.pid_name m.stack_tmp_pid % int_word ≡ c.tgid)
    (target : IsTarget (m.kstrtoul (behind_first path.name) m.stack_fib_id) k p v g)
    (small : m.kstrtoul (behind_first path.name) m.stack_fib_id < 2 ^ 31)
    (short : Short (m.print_pointer g.entry_point)) where
  abbrev text : List ℕ
  text = stat_text m.print_pointer g

  myread_lem :
      (copy_ok : Bool) (len : ℕ) (r : Cursor)
      → myread m path copy_ok len r k ≡ ok (answer (read_text text copy_ok len minus_one r)) k
  unfolding myread
  myread_lem copy_ok len r = rw processes (finish (read_text text copy_ok len minus_one r))
    where
      finish :
          (a : Option ℤ × ℤ × Cursor)
          → ◌≡◌ {A = Run (ℤ × Cursor)}
              (ok (elim a.0 as (λ _. ℤ) [ none ↦ a.1 | some v ↦ v ], a.2) k)
              (ok (answer a) k)
      finish (none, i, r) = refl
      finish (some v, i, r) = refl

      fib_id : ℕ
      fib_id = m.kstrtoul (behind_first path.name) m.stack_fib_id

      fibers :
          read_fibers m copy_ok len fib_id p.listafiber minus_one r k
          ≡ ok (read_text text copy_ok len minus_one r) k
      fibers = rw (target.listed) (
          read_fibers-one m copy_ok len k fib_id small v.left v.f v.right g minus_one r target.left
            target.ne_null target.stored target.named target.right short)

      processes :
          read_processes m copy_ok len fib_id
            (m.kstrtol path.pid_name m.stack_tmp_pid % int_word)
            k.processi
            minus_one
            r
            k
          ≡ ok (read_text text copy_ok len minus_one r) k
      processes = rw pid (
          subst
            (λ qs.
              read_processes m copy_ok len fib_id c.tgid qs minus_one r k
              ≡ ok (read_text text copy_ok len minus_one r) k)
            (sym here.table)
            (read_processes-one m copy_ok len k fib_id c.tgid before p after minus_one r
              here.none_before here.tgid here.none_after (read_text text copy_ok len minus_one r)
              fibers))

  text_positive : 0 < length text
  unfolding stat_text
  text_positive = omega arith

  -- When the file names a fiber of an open process and the printed entry point has at most 60
  -- bytes, none of them zero: a read from the start with room for the text returns its length
  -- and the whole text, and the next read returns 0, whatever its size, with nothing written.
  pub myread-whole :
      (len : ℕ) (buf : List ℕ)
      → length text ≤ len
      → (myread m path true len (record { off = 0; buf = buf }) k
          ≡ ok (pos (length text), record { off = length text; buf = text }) k)
        × ((copy_ok : Bool) (len' : ℕ)
            → myread m path copy_ok len' (record { off = length text; buf = text }) k
              ≡ ok (pos 0, record { off = length text; buf = text }) k)
  myread-whole len buf room = (
    rw (myread_lem true len (record { off = 0; buf = buf }))
        (ground (arith, room, text_positive, take-length text)),
    λ copy_ok len'.
        rw (myread_lem copy_ok len' (record { off = length text; buf = text })) (ground arith),
  )

  -- Under the same conditions, a read from the start with less room than the text, but some,
  -- returns that many of its first bytes; and a second read of that size returns the same first
  -- bytes again.
  pub myread-part :
      (len : ℕ) (buf : List ℕ)
      → 0 < len
      → len < length text
      → (myread m path true len (record { off = 0; buf = buf }) k
          ≡ ok (pos len, record { off = len; buf = take len text }) k)
        × (myread m path true len (record { off = len; buf = take len text }) k
            ≡ ok (pos len, record { off = len + len; buf = take len text }) k)
  myread-part len buf positive short_room = (
    rw (myread_lem true len (record { off = 0; buf = buf })) (ground (arith, text_positive)),
    rw (myread_lem true len (record { off = len; buf = take len text })) (ground arith),
  )

  -- Under the same conditions, a read before the end of the text into a buffer that cannot be
  -- written returns -EFAULT, with the offset and the buffer as they were.
  pub myread-unwritable :
      (len : ℕ) (r : Cursor) → r.off < length text → myread m path false len r k ≡ ok (efault, r) k
  myread-unwritable len r before_end = rw (myread_lem false len r) (ground arith)

-- When the file names no fiber of an open process, with an id below 2^31, a read returns -1,
-- whatever its size, and changes nothing.
pub myread-missing :
    (m : Reader) (path : FilePath) {c : Current} {k : Kernel} {before : List Process} {p : Process}
    {after : List Process}
    → IsProcess c k before p after
    → m.kstrtol path.pid_name m.stack_tmp_pid % int_word ≡ c.tgid
    → m.kstrtoul (behind_first path.name) m.stack_fib_id < 2 ^ 31
    → All (OtherFiber (m.kstrtoul (behind_first path.name) m.stack_fib_id) k) p.listafiber
    → (copy_ok : Bool) (len : ℕ) (r : Cursor) → myread m path copy_ok len r k ≡ ok (minus_one, r) k
unfolding myread
myread-missing m path {c} {k} {before} {p} {after} here pid small missing copy_ok len r =
    rw processes
  where
    fib_id : ℕ
    fib_id = m.kstrtoul (behind_first path.name) m.stack_fib_id

    processes :
        read_processes m copy_ok len fib_id
          (m.kstrtol path.pid_name m.stack_tmp_pid % int_word)
          k.processi
          minus_one
          r
          k
        ≡ ok (none, minus_one, r) k
    processes = rw pid (
        subst
          (λ qs.
            read_processes m copy_ok len fib_id c.tgid qs minus_one r k ≡ ok (none, minus_one, r) k)
          (sym here.table)
          (read_processes-one m copy_ok len k fib_id c.tgid before p after minus_one r
            here.none_before here.tgid here.none_after (none, minus_one, r)
            (read_fibers-others m copy_ok len k fib_id small p.listafiber minus_one r missing)))
