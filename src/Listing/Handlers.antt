-- ===== src/Listing/Handlers.antt =====
-- The probes in the directory of a process, in its "fibers" directory, and elsewhere.
use linux_fibers.Common.{
  ℕ, ◌+◌, ◌*◌, ◌%◌, ◌^◌, ◌≡◌, ◌≢◌, ◌≤◌, ◌<◌, refl, arith, true, false, List, [], ◌∷◌, All,
}
use linux_fibers.Kernel.{null, FiberStuff, Process, Kernel, Current}
use linux_fibers.Kernel.Store.{ok, pure, ◌>>=◌}
use linux_fibers.Kernel.Loops.{for_process}
use linux_fibers.Kernel.Caller.{IsProcess, for_process-same, for_process-none}
use linux_fibers.Entries.{n_fib}
use linux_fibers.Fiber.{int_word, fib_create}
use linux_fibers.Fiber.Create.{created, with_fiber, next_id, listed, fib_create-room, new_fiber_at}
use linux_fibers.Listing.{
  Table, Probe, Dentry, Machine, same_name, fibers_name, entry_size, list_fibers, show_stuff,
  pre_handler_readdir, post_handler_readdir, pre_handler_lookup,
}
use linux_fibers.Listing.Tables.{IsAttr, Extends, with_table, extend_table-Extends}

-- The registers with the listing of a process in them.
abbrev pub shows : Machine → ℕ → FiberStuff → Probe → Probe
shows m id s r = record r {
  dx = (record { address = m.listing_at id; room = n_fib; entry = s.fiber_base_stuff });
  cx = s.len_fiber_stuff;
}

module _ (m : Machine) (d : Dentry) (r : Probe) (c : Current) (k : Kernel) where
  module _ {before : List Process} {p : Process} {after : List Process}
      (here : IsProcess c k before p after) where
    -- In the directory of an open process (not named "fibers"), when the table of the kernel
    -- holds at least as many entries as the register says, these fit an int of bytes, and the
    -- last entry named "attr" is a: both probes pass a new table with the same entries and
    -- one more, the directory "fibers" with the operations of entry a; the readdir probe adds
    -- one to the link count and its post handler takes it off; nothing else changes.
    pub readdir-Extends :
        same_name d.name fibers_name ≡ false
        → m.kstrtol d.name m.stack_myid % int_word ≡ c.tgid
        → r.cx ≤ r.dx.room
        → entry_size * (r.cx + 1) < 2 ^ 31
        → (a : ℕ) → IsAttr r.dx a r.cx
        → (t : Table) × (pre_handler_readdir m d r k
            ≡ ok (record (with_table r t) { nlink = r.nlink + 1 }) k)
          × (pre_handler_lookup m d r k ≡ ok (with_table r t) k)
          × (post_handler_readdir (record (with_table r t) { nlink = r.nlink + 1 })
              ≡ with_table r t)
          × Extends r.dx r.cx a t
    unfolding pre_handler_readdir pre_handler_lookup post_handler_readdir
    readdir-Extends other id inside small a attr =
        let (t, run, ext) = extend_table-Extends m r k a inside small attr in
        (
          t,
          rw (other, id)
              (for_process-same here _ r (record (with_table r t) { nlink = r.nlink + 1 })
                (rw run)),
          rw (other, id) (for_process-same here _ r (with_table r t) (rw run)),
          ground arith,
          ext,
        )

    -- In the "fibers" directory of an open process both probes pass the listing of the
    -- process and its length, and change nothing else.
    pub readdir-listing :
        same_name d.name fibers_name ≡ true
        → m.kstrtol d.parent_name m.stack_parent % int_word ≡ c.tgid
        → (s : FiberStuff) → p.listafiber_stuff ≡ s ∷ []
        → (pre_handler_readdir m d r k ≡ ok (shows m p.id s r) k)
          × (pre_handler_lookup m d r k ≡ ok (shows m p.id s r) k)
    unfolding pre_handler_readdir pre_handler_lookup list_fibers show_stuff
    readdir-listing named id s one =
        (rw (named, id, loop) (ground arith), rw (named, id, loop) (ground arith))
      where
        loop :
            for_process c.tgid
              (λ p r. pure (show_stuff (m.listing_at p.id) p.listafiber_stuff r, p))
              (m.stack_int, r)
              k
            ≡ ok (s.len_fiber_stuff, shows m p.id s r) k
        loop =
            for_process-same here _ (m.stack_int, r) (s.len_fiber_stuff, shows m p.id s r) (rw one)

  -- In a directory that is not named "fibers" and whose name is the id of no open process both
  -- probes change nothing.
  pub readdir-other :
      same_name d.name fibers_name ≡ false
      → m.kstrtol d.name m.stack_myid % int_word ≡ c.tgid
      → All (λ (q : Process). q.id ≢ c.tgid) k.processi
      → (pre_handler_readdir m d r k ≡ ok r k) × (pre_handler_lookup m d r k ≡ ok r k)
  unfolding pre_handler_readdir pre_handler_lookup
  readdir-other other id closed = (
    rw (other, id) (for_process-none c k _ r closed),
    rw (other, id) (for_process-none c k _ r closed),
  )

module _ (m : Machine) (d : Dentry) (r : Probe) {c : Current} {k : Kernel} {before : List Process}
    {p : Process} {after : List Process} {s : FiberStuff} (here : IsProcess c k before p after)
    (ne : k.next_address ≢ null) (one : p.listafiber_stuff ≡ s ∷ [])
    (room : s.len_fiber_stuff < n_fib) where
  -- In an open process whose listing has room, a lookup in its "fibers" directory right after
  -- fib_create passes the listing with one more entry at its end, that of the new fiber.
  pub lookup-created :
      (func parameters stack_pointer stack_size : ℕ)
      → same_name d.name fibers_name ≡ true
      → m.kstrtol d.parent_name m.stack_parent % int_word ≡ c.tgid
      → (fib_create c func parameters stack_pointer stack_size >>= λ _. pre_handler_lookup m d r) k
        ≡ ok (shows m p.id (listed (next_id p) s) r) (
            created before p after s
              (new_fiber_at c k func parameters stack_pointer stack_size p)
              k)
  lookup-created func parameters stack_pointer stack_size named id =
      rw (fib_create-room c k here ne one func parameters stack_pointer stack_size room) (
        (readdir-listing m d r c _ {p = with_fiber k.next_address s p}
          (record {
            table = refl;
            tgid = here.tgid;
            none_before = here.none_before;
            none_after = here.none_after;
          })
          named id (listed (next_id p) s) refl).1)
