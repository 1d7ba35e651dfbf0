-- ===== src/Invariant/Find.antt =====
-- In a valid memory each search has one answer: the caller's process, its thread, and a fiber by id.
use native.Mathlib.Decide.{ℕ_discrete}
use linux_fibers.Common.{
  ℕ, ◌≡◌, ◌≢◌, refl, ap, subst, ◌⊎◌, inl, inr, arith, some, List, [], ◌∷◌, ◌++◌, All, All-mono,
}
use linux_fibers.Kernel.{Ptr, Fiber, Thread, Process, Kernel, Current}
use linux_fibers.Kernel.Caller.{IsProcess, IsCaller}
use linux_fibers.Kernel.Rounds.{OtherThread}
use linux_fibers.Kernel.Target.{FiberPlace, IsTarget, OtherFiber}
use linux_fibers.Invariant.Lists.{Other, Found, search_list}
use linux_fibers.Invariant.{IsGood, Apart, IsValid, thread_id, fiber_id}

-- A process of the tgid, with what stands before and behind it.
record Split (tgid : ℕ) (ps : List Process) : Type 0 where
  before : List Process
  p : Process
  after : List Process
  table : ps ≡ before ++ p ∷ after
  named : p.id ≡ tgid
  none_before : All (λ (q : Process). q.id ≢ tgid) before
  none_after : All (λ (q : Process). q.id ≢ tgid) after

Split-table :
    (tgid : ℕ) (ps : List Process)
    → Apart ps
    → Split tgid ps ⊎ All (λ (q : Process). q.id ≢ tgid) ps
Split-table tgid [] a = inr tt
Split-table tgid (p ∷ ps) a = elim (ℕ_discrete p.id tgid) [
  | yes e ↦ inl (record {
    before = [];
    p = p;
    after = ps;
    table = refl;
    named = e;
    none_before = tt;
    none_after = subst (λ j. All (λ (q : Process). q.id ≢ j) ps) e a.0;
  })
  | no ne ↦ elim (Split-table tgid ps a.1) [
    | inl s ↦ inl (record {
      before = p ∷ s.before;
      p = s.p;
      after = s.after;
      table = ap (λ qs. p ∷ qs) s.table;
      named = s.named;
      none_before = (ne, s.none_before);
      none_after = s.none_after;
    })
    | inr o ↦ inr (ne, o)
  ]
]

pub All-split {ℓ κ} :
    {A : Type ℓ} (P : A → Type κ) (xs ys : List A) (x : A) → All P (xs ++ x ∷ ys) → P x
All-split P [] ys x h = h.0
All-split P (z ∷ xs) ys x h = All-split P xs ys x h.1

-- The caller's process: it is good, and the only one.
pub record Here (c : Current) (k : Kernel) : Type 0 where
  pub before : List Process
  pub p : Process
  pub after : List Process
  pub here : IsProcess c k before p after
  pub good : IsGood k p

pub find_process :
    (c : Current) (k : Kernel)
    → IsValid k
    → Here c k ⊎ All (λ (q : Process). q.id ≢ c.tgid) k.processi
find_process c k v = elim (Split-table c.tgid k.processi v.apart) [
  | inl s ↦ inl (record {
    before = s.before;
    p = s.p;
    after = s.after;
    here = record {
      table = s.table;
      tgid = s.named;
      none_before = s.none_before;
      none_after = s.none_after;
    };
    good = All-split (IsGood k) s.before s.after s.p (subst (All (IsGood k)) s.table v.good);
  })
  | inr o ↦ inr o
]

module _ (c : Current) (k : Kernel) (h : Here c k) where
  -- The caller's thread.
  pub record Standing : Type 0 where
    pub left : List Ptr
    pub t : Ptr
    pub right : List Ptr
    pub thread : Thread
    pub caller :
        IsCaller c k
          (record {
            before = h.before;
            p = h.p;
            after = h.after;
            left = left;
            t = t;
            right = right;
          })
          thread

  others :
      (t : Ptr) (thread : Thread)
      → k.threads t ≡ some thread
      → thread.id ≡ c.pid
      → (q : Ptr) → Other k.threads thread_id c.pid q
      → OtherThread c.pid t k q
  others t thread e m q o = record {
    ne_null = o.ne_null;
    ne_self = λ same. ground (arith, same, e, m, o.stored, o.ne_id);
    thread = o.item;
    stored = o.stored;
    ne_pid = o.ne_id;
  }

  standing : Found k.threads thread_id c.pid h.p.listathread → Standing
  standing f = record {
    left = f.left;
    t = f.at;
    right = f.right;
    thread = f.item;
    caller = record {
      table = h.here.table;
      tgid = h.here.tgid;
      before = h.here.none_before;
      after = h.here.none_after;
      listed = f.split;
      ne_null = f.ne_null;
      stored = f.stored;
      pid = f.named;
      left = All-mono f.left (others f.at f.item f.stored f.named) f.others_left;
      right = All-mono f.right (others f.at f.item f.stored f.named) f.others_right;
    };
  }

  pub find_thread : IsValid k → Standing ⊎ All (OtherThread c.pid k.next_address k) h.p.listathread
  find_thread v = elim (search_list k.threads thread_id c.pid h.p.listathread h.good.threads) [
    | inl f ↦ inl (standing f)
    | inr o ↦ inr (
        All-mono h.p.listathread
          (λ q o. record {
            ne_null = o.ne_null;
            ne_self = λ e. ground (arith, o.stored, (v.fresh q (omega (arith, e))).1);
            thread = o.item;
            stored = o.stored;
            ne_pid = o.ne_id;
          })
          o)
  ]

  -- The fiber of an id in the caller's process.
  pub record Target (id : ℕ) : Type 0 where
    pub place : FiberPlace
    pub fiber : Fiber
    pub target : IsTarget id k h.p place fiber

  pub find_fiber : (id : ℕ) → Target id ⊎ All (OtherFiber id k) h.p.listafiber
  find_fiber id = elim (search_list k.fibers fiber_id id h.p.listafiber h.good.fibers) [
    | inl f ↦ inl (record {
      place = record { left = f.left; f = f.at; right = f.right };
      fiber = f.item;
      target = record {
        listed = f.split;
        ne_null = f.ne_null;
        stored = f.stored;
        named = f.named;
        left = All-mono f.left other f.others_left;
        right = All-mono f.right other f.others_right;
      };
    })
    | inr o ↦ inr (All-mono h.p.listafiber other o)
  ]
    where
      other : (q : Ptr) → Other k.fibers fiber_id id q → OtherFiber id k q
      other q o = record { ne_null = o.ne_null; fiber = o.item; stored = o.stored; ne_id = o.ne_id }
