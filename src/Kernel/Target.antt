-- ===== src/Kernel/Target.antt =====
-- The fiber of a process that an id names, and the loop that looks for it.
use linux_fibers.Common.{
  ℕ, ◌≡◌, refl, ◌≢◌, List, [], ◌∷◌, ◌++◌, some, arith, All, eq→==, ne→==, ◌==◌, if◌then◌else◌,
}
use linux_fibers.Kernel.{Ptr, null, Fiber, Process, Kernel}
use linux_fibers.Kernel.Store.{M, ok, load_fiber, put_fiber}
use linux_fibers.Kernel.Loops.{each_fiber}

-- `s` is a live fiber of another id.
pub record OtherFiber (id : ℕ) (k : Kernel) (s : Ptr) : Type 0 where
  pub ne_null : s ≢ null
  pub fiber : Fiber
  pub stored : k.fibers s ≡ some fiber
  pub ne_id : fiber.id ≢ id

-- Where a fiber stands in the list of its process.
pub record FiberPlace : Type 0 where
  pub left : List Ptr
  pub f : Ptr
  pub right : List Ptr

-- The process has one fiber of the id.
pub record IsTarget (id : ℕ) (k : Kernel) (p : Process) (v : FiberPlace) (g : Fiber) : Type 0 where
  pub listed : p.listafiber ≡ v.left ++ v.f ∷ v.right
  pub ne_null : v.f ≢ null
  pub stored : k.fibers v.f ≡ some g
  pub named : g.id ≡ id
  pub left : All (OtherFiber id k) v.left
  pub right : All (OtherFiber id k) v.right

-- A write that keeps the id of a fiber keeps the others other.
pub OtherFiber-put :
    (id : ℕ) (k : Kernel) (p : Ptr) (f g : Fiber)
    → k.fibers p ≡ some f
    → g.id ≡ f.id
    → (s : Ptr) → OtherFiber id k s
    → OtherFiber id (put_fiber p (some g) k) s
OtherFiber-put id k p f g e same s o = record {
  ne_null = o.ne_null;
  fiber = if s == p then g else o.fiber;
  stored = ground (arith, o.stored);
  ne_id = ground (arith, o.stored, o.ne_id);
}

module _ {A : Type 0} (id : ℕ) (body : Ptr → A → M A) where
  pub each_fiber-others :
      (fs : List Ptr) (ret : A) (k : Kernel)
      → All (OtherFiber id k) fs
      → each_fiber id body fs ret k ≡ ok ret k
  unfolding each_fiber load_fiber
  each_fiber-others [] ret k h = refl
  each_fiber-others (s ∷ fs) ret k h = rw (
    ne→== s null h.0.ne_null,
    h.0.stored,
    ne→== h.0.fiber.id id h.0.ne_id,
    each_fiber-others fs ret k h.1,
  )

  each_fiber-split :
      (left right : List Ptr) (f : Ptr) (g : Fiber) (ret : A) (k : Kernel)
      → All (OtherFiber id k) left
      → f ≢ null
      → k.fibers f ≡ some g
      → g.id ≡ id
      → (ret' : A) (k' : Kernel) → body f ret k ≡ ok ret' k'
      → All (OtherFiber id k') right
      → each_fiber id body (left ++ f ∷ right) ret k ≡ ok ret' k'
  unfolding each_fiber load_fiber
  each_fiber-split [] right f g ret k l n s m ret' k' e r =
      rw (ne→== f null n, s, eq→== g.id id m, e, each_fiber-others right ret' k' r)
  each_fiber-split (q ∷ left) right f g ret k l n s m ret' k' e r = rw (
    ne→== q null l.0.ne_null,
    l.0.stored,
    ne→== l.0.fiber.id id l.0.ne_id,
    each_fiber-split left right f g ret k l.1 n s m ret' k' e r,
  )

  -- The loop is its body at the target.
  pub each_fiber-one :
      {k : Kernel} {p : Process} {v : FiberPlace} {g : Fiber}
      → IsTarget id k p v g
      → (ret ret' : A) (k' : Kernel) → body v.f ret k ≡ ok ret' k'
      → All (OtherFiber id k') v.right
      → each_fiber id body p.listafiber ret k ≡ ok ret' k'
  each_fiber-one {k} {p} {v} {g} target ret ret' k' e r = rw (
    target.listed,
    each_fiber-split v.left v.right v.f g ret k target.left target.ne_null target.stored
        target.named ret' k' e r,
  )
