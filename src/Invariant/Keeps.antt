-- ===== src/Invariant/Keeps.antt =====
-- Changes of memory that keep it valid.
use linux_fibers.Common.{
  ℕ, ◌≡◌, ◌≢◌, ◌≤◌, refl, sym, ap, ◌∙◌, subst, inl, inr, arith, false, Option, some, List, [], ◌∷◌,
  All, All-mono, update, ◌==◌, if◌then◌else◌, ℤ, update-some,
}
use linux_fibers.Kernel.{Ptr, null, Fiber, Thread, Process, Kernel, Current}
use linux_fibers.Kernel.Store.{put_fiber}
use linux_fibers.Fiber.Switch.{switched, left_fiber, entered_fiber}
use linux_fibers.Invariant.Lists.{Listed, KeepsIds, Listed-keeps}
use linux_fibers.Invariant.{IsGood, IsValid, thread_id, fiber_id}

numbered_keeps :
    (h h' : Ptr → Option Fiber) (n : ℕ)
    → KeepsIds fiber_id h h'
    → (ps : List Ptr) → Listed h fiber_id ps
    → All (λ (f : Ptr). (g : Fiber) → h f ≡ some g → g.id ≤ n) ps
    → All (λ (f : Ptr). (g : Fiber) → h' f ≡ some g → g.id ≤ n) ps
numbered_keeps h h' n keeps [] l a = tt
numbered_keeps h h' n keeps (p ∷ ps) l a = (
  λ g e. let (b, e', same) = keeps p l.1.0 l.1.1 in ground (arith, e, e', same, a.0 l.1.0 l.1.1),
  numbered_keeps h h' n keeps ps l.2 a.1,
)

pub IsGood-keeps :
    (k k' : Kernel) (p : Process)
    → KeepsIds thread_id k.threads k'.threads
    → KeepsIds fiber_id k.fibers k'.fibers
    → IsGood k p
    → IsGood k' p
IsGood-keeps k k' p kt kf g = record {
  threads = Listed-keeps thread_id k.threads k'.threads kt p.listathread g.threads;
  fibers = Listed-keeps fiber_id k.fibers k'.fibers kf p.listafiber g.fibers;
  numbered = numbered_keeps k.fibers k'.fibers p.last_fib_id kf p.listafiber g.fibers g.numbered;
  stuff = g.stuff;
  one = g.one;
  counted = g.counted;
  room = g.room;
}

-- A write to a fiber that keeps its id and its thread.
module _ (k : Kernel) (p : Ptr) (f g : Fiber) (at : k.fibers p ≡ some f) (same_id : g.id ≡ f.id)
    (same_thread : g.selected_thread ≡ f.selected_thread) where
  pub put_fiber-keeps : KeepsIds fiber_id k.fibers (update k.fibers p (some g))
  put_fiber-keeps q a e = (if q == p then g else a, ground arith, ground (arith, at, e, same_id))

  pub put_fiber-IsValid :
      g.lock_fiber ≡ false
      → ((v : ℕ → ℤ) × (b : ℕ → ℕ) × (g.fls ≡ some v) × (g.bitmap_fls ≡ some b))
      → IsValid k
      → IsValid (put_fiber p (some g) k)
  put_fiber-IsValid unlocked storage v = record {
    apart = v.apart;
    good =
        All-mono k.processi
          (λ q. IsGood-keeps k (put_fiber p (some g) k) q (λ t s e. (s, e, refl)) put_fiber-keeps)
          v.good;
    running = λ t s e.
        let (ne, r) = v.running t s e in
        let (f', at', sel) = r in
        (
          ne,
          (
            if s.runner == p then g else f',
            ground arith,
            ground (arith, at, at', sel, same_thread),
          ),
        );
    selected = λ q f' e ne. elim (update-some k.fibers p g q f' e) [
      | inl (here, is) ↦
          let (s, at', runs) =
            v.selected p f at
              (λ z. ne (ap (λ (x : Fiber). x.selected_thread) is ∙ same_thread ∙ z)) in
          (s, ground (arith, is, same_thread, at'), ground (arith, here, runs))
      | inr (other, old) ↦ v.selected q f' old ne
    ];
    unlocked = λ q f' e. ground (arith, unlocked, v.unlocked q f');
    storage = λ q f' e. elim (update-some k.fibers p g q f' e) [
      | inl (here, is) ↦
          let (values, bits, a, b) = storage in
          (values, bits, ground (arith, is, a), ground (arith, is, b))
      | inr (other, old) ↦ v.storage q f' old
    ];
    null_thread = v.null_thread;
    null_fiber = ground (arith, at, v.null_fiber);
    positive = v.positive;
    fresh = λ q le. (ground (arith, at, (v.fresh q le).0), (v.fresh q le).1);
  }

-- A thread that leaves one fiber for another, which is idle.
module _ (c : Current) (k : Kernel) {t : Ptr} {s : Thread} {old : Ptr} {f : Fiber} {new : Ptr}
    {g : Fiber} (ne_t : t ≢ null) (at_t : k.threads t ≡ some s) (runs : s.runner ≡ old)
    (at_old : k.fibers old ≡ some f) (at_new : k.fibers new ≡ some g)
    (idle : g.selected_thread ≡ null) (v : IsValid k) where
  abbrev k' : Kernel
  k' = switched c t s old f new g k

  selected_t : f.selected_thread ≡ t
  selected_t =
      let (ne, r) = v.running t s at_t in
      let (f', at', sel) = r in ground (arith, at', at_old, runs, sel)

  apart : new ≢ old
  apart e = ground (arith, at_old, at_new, e, selected_t, idle, ne_t)

  ne_new : new ≢ null
  ne_new e = ground (arith, e, at_new, v.null_fiber)

  switched-running :
      (t' : Ptr) (s' : Thread)
      → k'.threads t' ≡ some s'
      → (s'.runner ≢ null)
        × ((f' : Fiber) × (k'.fibers s'.runner ≡ some f') × (f'.selected_thread ≡ t'))
  switched-running t' s' e = elim (update-some k.threads t (record s { runner = new }) t' s' e) [
    | inl (here, is) ↦
        (ground (arith, is, ne_new), (entered_fiber c t g, ground (arith, is), sym here))
    | inr (other, stored) ↦
        let (ne, r) = v.running t' s' stored in
        let (f', at', sel) = r in
        let not_old : s'.runner ≢ old =
          λ z. ground (arith, at', at_old, z, sel, selected_t, other) in
        let not_new : s'.runner ≢ new =
          λ z. ground (arith, at', at_new, z, sel, idle, stored, v.null_thread) in
        (ne, (f', ground (arith, not_old, not_new, at'), sel))
  ]

  switched-selected :
      (p : Ptr) (f' : Fiber)
      → k'.fibers p ≡ some f'
      → f'.selected_thread ≢ null
      → (s' : Thread) × (k'.threads f'.selected_thread ≡ some s') × (s'.runner ≡ p)
  switched-selected p f' e ne =
      elim (update-some (update k.fibers old (some (left_fiber c k f))) new (entered_fiber c t g) p
        f' e) [
          | inl (here, is) ↦ (record s { runner = new }, ground (arith, is), sym here)
          | inr (other, e') ↦ elim (update-some k.fibers old (left_fiber c k f) p f' e') [
            | inl (at', is) ↦ absurd (ne (ap (λ (x : Fiber). x.selected_thread) is))
            | inr (other', stored) ↦
                let (s', at', run) = v.selected p f' stored ne in
                (s', ground (arith, at', at_t, run, runs, other'), run)
          ]
        ]

  -- A fiber of the new memory is one of the old, but for what a switch changes.
  switched-fiber {ℓ} :
      (P : Fiber → Type ℓ) (p : Ptr) (f' : Fiber)
      → k'.fibers p ≡ some f'
      → P (left_fiber c k f)
      → P (entered_fiber c t g)
      → (k.fibers p ≡ some f' → P f')
      → P f'
  switched-fiber P p f' e l n o =
      elim (update-some (update k.fibers old (some (left_fiber c k f))) new (entered_fiber c t g) p
        f' e) [
          | inl (here, is) ↦ subst P (sym is) n
          | inr (other, e') ↦ elim (update-some k.fibers old (left_fiber c k f) p f' e') [
            | inl (at', is) ↦ subst P (sym is) l
            | inr (other', stored) ↦ o stored
          ]
        ]

  pub switched-IsValid : IsValid k'
  switched-IsValid = record {
    apart = v.apart;
    good =
        All-mono k.processi
          (λ q.
            IsGood-keeps k k' q
              (λ t' s' e. (
                if t' == t then record s { runner = new } else s',
                ground arith,
                ground (arith, at_t, e),
              ))
              (λ p f' e. (
                if p == new then entered_fiber c t g else if p == old then left_fiber c k f else f',
                ground arith,
                ground (arith, at_old, at_new, e),
              )))
          v.good;
    running = switched-running;
    selected = switched-selected;
    unlocked = λ p f' e.
        switched-fiber (λ x. x.lock_fiber ≡ false) p f' e (v.unlocked old f at_old)
          (v.unlocked new g at_new) (v.unlocked p f');
    storage = λ p f' e.
        switched-fiber (λ x. (a : ℕ → ℤ) × (b : ℕ → ℕ) × (x.fls ≡ some a) × (x.bitmap_fls ≡ some b))
          p f' e (v.storage old f at_old) (v.storage new g at_new) (v.storage p f');
    null_thread = ground (arith, v.null_thread, ne_t);
    null_fiber = ground (arith, v.null_fiber, at_old, ne_new);
    positive = v.positive;
    fresh = λ q le.
        (ground (arith, at_old, at_new, (v.fresh q le).0), ground (arith, at_t, (v.fresh q le).1));
  }
