-- ===== src/Invariant/Create.antt =====
-- The memory after a fiber was created in a process.
use linux_fibers.Common.{
  ℕ, suc, ◌+◌, ◌≡◌, ◌≢◌, ◌≤◌, ◌<◌, refl, sym, ap, ◌∙◌, subst, inl, inr, arith, false, Option, none,
  some, List, [], ◌∷◌, ◌++◌, All, All-mono, update, update-some, ℤ,
}
use linux_fibers.Kernel.{Ptr, null, Fiber, Process, Kernel, Current}
use linux_fibers.Entries.{n_fib}
use linux_fibers.Fiber.Create.{with_fiber, next_id, listed}
use linux_fibers.Invariant.Lists.{Other, Listed, KeepsIds, Listed-keeps, Other-keeps}
use linux_fibers.Invariant.Find.{All-split, Here}
use linux_fibers.Invariant.Keeps.{IsGood-keeps}
use linux_fibers.Invariant.{IsGood, Apart, IsValid, fiber_id}

module _ {A : Type 0} (id : A → ℕ) (h : Ptr → Option A) (n : Ptr) (a : A) (new : h n ≡ none) where
  pub update-KeepsIds : KeepsIds id h (update h n (some a))
  update-KeepsIds p b e = (b, ground (arith, new, e), refl)

  pub Listed-cons :
      (ps : List Ptr)
      → n ≢ null
      → All (Other h id (id a)) ps
      → Listed h id ps
      → Listed (update h n (some a)) id (n ∷ ps)
  Listed-cons ps ne o l = (
    ne,
    (a, ground arith, All-mono ps (Other-keeps id h _ update-KeepsIds (id a)) o),
    Listed-keeps id h _ update-KeepsIds ps l,
  )

pub All-replace {ℓ κ} :
    {A : Type ℓ} (P : A → Type κ) (xs ys : List A) (x y : A)
    → P y
    → All P (xs ++ x ∷ ys)
    → All P (xs ++ y ∷ ys)
All-replace P [] ys x y p h = (p, h.1)
All-replace P (z ∷ xs) ys x y p h = (h.0, All-replace P xs ys x y p h.1)

pub Apart-replace :
    (xs ys : List Process) (x y : Process)
    → y.id ≡ x.id
    → Apart (xs ++ x ∷ ys)
    → Apart (xs ++ y ∷ ys)
Apart-replace [] ys x y e a = (subst (λ i. All (λ (q : Process). q.id ≢ i) ys) (sym e) a.0, a.1)
Apart-replace (z ∷ xs) ys x y e a = (
  All-replace (λ q. q.id ≢ z.id) xs ys x y
      (λ z'. All-split (λ (q : Process). q.id ≢ z.id) xs ys x a.0 (sym e ∙ z')) a.0,
  Apart-replace xs ys x y e a.1,
)

-- A number beyond the last is the id of no fiber of the process.
unused_id :
    (h : Ptr → Option Fiber) (last i : ℕ) (ps : List Ptr)
    → last < i
    → Listed h fiber_id ps
    → All (λ (f : Ptr). (g : Fiber) → h f ≡ some g → g.id ≤ last) ps
    → All (Other h fiber_id i) ps
unused_id h last i [] lt l a = tt
unused_id h last i (p ∷ ps) lt l a = (
  record { ne_null = l.0; item = l.1.0; stored = l.1.1; ne_id = omega (arith, a.0 l.1.0 l.1.1) },
  unused_id h last i ps lt l.2 a.1,
)

still_numbered :
    (h : Ptr → Option Fiber) (n : Ptr) (f : Fiber) (last : ℕ) (ps : List Ptr)
    → f.id ≡ last + 1
    → h n ≡ none
    → Listed h fiber_id ps
    → All (λ (q : Ptr). (g : Fiber) → h q ≡ some g → g.id ≤ last) ps
    → All (λ (q : Ptr). (g : Fiber) → update h n (some f) q ≡ some g → g.id ≤ last + 1) ps
still_numbered h n f last [] same new l a = tt
still_numbered h n f last (p ∷ ps) same new l a = (
  λ g e. elim (update-some h n f p g e) [
    | inl (here, is) ↦ omega (arith, ap fiber_id is)
    | inr (other, old) ↦ omega (arith, a.0 g old)
  ],
  still_numbered h n f last ps same new l.2 a.1,
)

-- The process with one more fiber, idle or not, at a fresh address.
module _ (k : Kernel) (p : Process) (n : Ptr) (f : Fiber) (good : IsGood k p) (ne : n ≢ null)
    (new : k.fibers n ≡ none) (room : p.last_fib_id < n_fib) (named : f.id ≡ next_id p) where
  next_id_lem : next_id p ≡ p.last_fib_id + 1
  next_id_lem = omega arith

  pub with_fiber-IsGood :
      IsGood (record k { fibers = update k.fibers n (some f) }) (with_fiber n good.stuff p)
  with_fiber-IsGood = record {
    threads = good.threads;
    fibers =
        Listed-cons fiber_id k.fibers n f new p.listafiber ne
          (subst (λ i. All (Other k.fibers fiber_id i) p.listafiber) (sym named)
            (unused_id k.fibers p.last_fib_id (next_id p) p.listafiber (omega (arith, next_id_lem))
              good.fibers good.numbered))
          good.fibers;
    numbered =
        subst
          (λ i.
            All (λ (q : Ptr). (g : Fiber) → update k.fibers n (some f) q ≡ some g → g.id ≤ i)
              (n ∷ p.listafiber))
          (sym next_id_lem)
          (
            (λ g e. ground (arith, e, named, next_id_lem)),
            still_numbered k.fibers n f p.last_fib_id p.listafiber (named ∙ next_id_lem) new
                good.fibers good.numbered,
          );
    stuff = listed (next_id p) good.stuff;
    one = refl;
    counted = omega (arith, good.counted, next_id_lem);
    room = omega (arith, next_id_lem);
  }

-- The memory with the fiber `f` at the next address, idle, in the process.
module _ (c : Current) (k : Kernel) (h : Here c k) (f : Fiber) (v : IsValid k)
    (room : h.p.last_fib_id < n_fib) (named : f.id ≡ next_id h.p) (idle : f.selected_thread ≡ null)
    (unlocked : f.lock_fiber ≡ false)
    (storage : (a : ℕ → ℤ) × (b : ℕ → ℕ) × (f.fls ≡ some a) × (f.bitmap_fls ≡ some b)) where
  abbrev pub with_created : Kernel
  with_created = record k {
    processi = h.before ++ with_fiber k.next_address h.good.stuff h.p ∷ h.after;
    fibers = update k.fibers k.next_address (some f);
    next_address = suc k.next_address;
  }

  no_fiber : k.fibers k.next_address ≡ none
  no_fiber = (v.fresh k.next_address (omega arith)).0

  created-All : All (IsGood with_created) (h.before ++ h.p ∷ h.after)
  created-All =
      All-mono _
        (λ q.
          IsGood-keeps k with_created q (λ t s e. (s, e, refl))
            (update-KeepsIds fiber_id k.fibers k.next_address f no_fiber))
        (subst (All (IsGood k)) h.here.table v.good)

  created-IsGood : IsGood with_created (with_fiber k.next_address h.good.stuff h.p)
  created-IsGood =
      let g = with_fiber-IsGood k h.p k.next_address f h.good v.positive no_fiber room named in
      IsGood-keeps _ with_created _ (λ t s e. (s, e, refl)) (λ q a e. (a, e, refl)) g

  pub with_created-IsValid : IsValid with_created
  with_created-IsValid = record {
    apart =
        Apart-replace h.before h.after h.p (with_fiber k.next_address h.good.stuff h.p) refl
          (subst Apart h.here.table v.apart);
    good =
        All-replace (IsGood with_created) h.before h.after h.p
          (with_fiber k.next_address h.good.stuff h.p) created-IsGood created-All;
    running = λ t s e.
        let (ne, r) = v.running t s e in
        let (g, at, sel) = r in (ne, (g, ground (arith, at, no_fiber), sel));
    selected = λ p g e ne. elim (update-some k.fibers k.next_address f p g e) [
      | inl (here, is) ↦ absurd (ne (ap (λ (x : Fiber). x.selected_thread) is ∙ idle))
      | inr (other, old) ↦ v.selected p g old ne
    ];
    unlocked = λ p g e. ground (arith, unlocked, e, v.unlocked p g);
    storage = λ p g e. elim (update-some k.fibers k.next_address f p g e) [
      | inl (here, is) ↦
          let (a, b, x, y) = storage in (a, b, ground (arith, is, x), ground (arith, is, y))
      | inr (other, old) ↦ v.storage p g old
    ];
    null_thread = v.null_thread;
    null_fiber = ground (arith, v.null_fiber, v.positive);
    positive = ground arith;
    fresh = λ q le. (ground (arith, (v.fresh q (omega arith)).0), (v.fresh q (omega arith)).1);
  }
