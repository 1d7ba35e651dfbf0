-- ===== src/Reading/Loops.antt =====
-- What the loops of myread do: no fiber of the id, or one.
use linux_fibers.Common.{
  ℕ, ◌+◌, ◌^◌, ◌==◌, ◌≡◌, ◌≢◌, ◌<◌, refl, ap, arith, if◌then◌else◌, Bool, true, false, some, none,
  Option, List, [], ◌∷◌, ◌++◌, All, length, leb, ltb, ℤ, pos, eq→==, ne→==,
}
use linux_fibers.Kernel.{Ptr, null, Fiber, Process, Kernel}
use linux_fibers.Kernel.Store.{M, ok, load_fiber, pure}
use linux_fibers.Kernel.Target.{OtherFiber}
use linux_fibers.Ioctl.{efault}
use linux_fibers.Fiber.{sign_extend}
use linux_fibers.Reading.{Reader, Cursor, take, stat_text, read_fiber, read_fibers, read_processes}
use linux_fibers.Reading.Text.{Short, stat_text-fits}

-- What the read of one text does: the value returned at once, if it is, the count, and the cursor.
abbrev pub read_text : List ℕ → Bool → ℕ → ℤ → Cursor → Option ℤ × ℤ × Cursor
read_text text copy_ok len i r =
    if leb (length text) r.off
    then (some (pos 0), i, r)
    else if copy_ok
    then (
      none,
      pos (if ltb len (length text) then len else length text),
      record {
        off = r.off + (if ltb len (length text) then len else length text);
        buf = take (if ltb len (length text) then len else length text) text;
      },
    )
    else (some efault, i, r)

abbrev pub answer : Option ℤ × ℤ × Cursor → ℤ × Cursor
answer (none, i, r) = (i, r)
answer (some v, i, r) = (v, r)

pub take-length : (xs : List ℕ) → take (length xs) xs ≡ xs
take-length [] = refl
take-length (x ∷ xs) = ap (λ ys. x ∷ ys) (take-length xs)

module _ (m : Reader) (copy_ok : Bool) (len : ℕ) (k : Kernel) where
  read_fiber_lem :
      (f : Fiber) (i : ℤ) (r : Cursor)
      → Short (m.print_pointer f.entry_point)
      → read_fiber m copy_ok len f i r k
        ≡ ok (read_text (stat_text m.print_pointer f) copy_ok len i r) k
  unfolding read_fiber
  read_fiber_lem f i r short = ground (arith, stat_text-fits m.print_pointer f short)

  module _ (id : ℕ) (small : id < 2 ^ 31) where
    sign_extend-same : (sign_extend id == id) ≡ true
    sign_extend-same = ground arith

    sign_extend-other : (n : ℕ) → n ≢ id → (sign_extend n == id) ≡ false
    sign_extend-other n ne = ground arith

    pub read_fibers-others :
        (ps : List Ptr) (i : ℤ) (r : Cursor)
        → All (OtherFiber id k) ps
        → read_fibers m copy_ok len id ps i r k ≡ ok (none, i, r) k
    unfolding read_fibers load_fiber
    read_fibers-others [] i r h = refl
    read_fibers-others (p ∷ ps) i r h = rw (
      ne→== p null h.0.ne_null,
      h.0.stored,
      sign_extend-other h.0.fiber.id h.0.ne_id,
      read_fibers-others ps i r h.1,
    )

    -- After the fiber the loop stops, or finds no other.
    after_fiber :
        (right : List Ptr)
        → All (OtherFiber id k) right
        → (a : Option ℤ × ℤ × Cursor)
        → (elim a.0 as (λ _. M (Option ℤ × ℤ × Cursor)) [
          | none ↦ read_fibers m copy_ok len id right a.1 a.2
          | some v ↦ pure (some v, a.1, a.2)
        ])
            k
          ≡ ok a k
    after_fiber right rest (none, i, r) = read_fibers-others right i r rest
    after_fiber right rest (some v, i, r) = refl

    pub read_fibers-one :
        (left : List Ptr) (p : Ptr) (right : List Ptr) (f : Fiber) (i : ℤ) (r : Cursor)
        → All (OtherFiber id k) left
        → p ≢ null
        → k.fibers p ≡ some f
        → f.id ≡ id
        → All (OtherFiber id k) right
        → Short (m.print_pointer f.entry_point)
        → read_fibers m copy_ok len id (left ++ p ∷ right) i r k
          ≡ ok (read_text (stat_text m.print_pointer f) copy_ok len i r) k
    unfolding read_fibers load_fiber
    read_fibers-one [] p right f i r l ne at named rest short =
        let hit : (sign_extend f.id == id) ≡ true = rw named sign_extend-same in
        rw (ne→== p null ne, at, hit, read_fiber_lem f i r short) (after_fiber right rest _)
    read_fibers-one (q ∷ left) p right f i r l ne at named rest short = rw (
      ne→== q null l.0.ne_null,
      l.0.stored,
      sign_extend-other l.0.fiber.id l.0.ne_id,
      read_fibers-one left p right f i r l.1 ne at named rest short,
    )

  read_processes-none :
      (fib_id pid : ℕ) (qs : List Process) (i : ℤ) (r : Cursor)
      → All (λ (q : Process). q.id ≢ pid) qs
      → read_processes m copy_ok len fib_id pid qs i r k ≡ ok (none, i, r) k
  unfolding read_processes
  read_processes-none fib_id pid [] i r h = refl
  read_processes-none fib_id pid (q ∷ qs) i r h =
      rw (ne→== q.id pid h.0, read_processes-none fib_id pid qs i r h.1)

  pub read_processes-one :
      (fib_id pid : ℕ) (before : List Process) (p : Process) (after : List Process) (i : ℤ)
      (r : Cursor)
      → All (λ (q : Process). q.id ≢ pid) before
      → p.id ≡ pid
      → All (λ (q : Process). q.id ≢ pid) after
      → (a : Option ℤ × ℤ × Cursor) → read_fibers m copy_ok len fib_id p.listafiber i r k ≡ ok a k
      → read_processes m copy_ok len fib_id pid (before ++ p ∷ after) i r k ≡ ok a k
  unfolding read_processes
  read_processes-one fib_id pid [] p after i r b e h (none, i', r') run =
      rw (eq→== p.id pid e, run, read_processes-none fib_id pid after i' r' h)
  read_processes-one fib_id pid [] p after i r b e h (some v, i', r') run =
      rw (eq→== p.id pid e, run)
  read_processes-one fib_id pid (q ∷ before) p after i r b e h a run =
      rw (ne→== q.id pid b.0, read_processes-one fib_id pid before p after i r b.1 e h a run)
