-- ===== src/Invariant/Convert.antt =====
-- The memory after fib_convert made a thread of the process a fiber.
use linux_fibers.Common.{
  ℕ, suc, ◌≡◌, ◌<◌, refl, sym, ◌∙◌, subst, inl, inr, arith, false, none, some, ◌∷◌, ◌++◌, All,
  All-mono, update, update-some, ℤ,
}
use linux_fibers.Kernel.{Ptr, Fiber, Thread, Process, Kernel, Current}
use linux_fibers.Kernel.Rounds.{OtherThread}
use linux_fibers.Entries.{n_fib}
use linux_fibers.Fiber.Create.{with_fiber, next_id}
use linux_fibers.Invariant.Find.{Here}
use linux_fibers.Invariant.Keeps.{IsGood-keeps}
use linux_fibers.Invariant.Create.{
  update-KeepsIds, Listed-cons, All-replace, Apart-replace, with_fiber-IsGood,
}
use linux_fibers.Invariant.{IsGood, Apart, IsValid, thread_id, fiber_id}

module _ (c : Current) (k : Kernel) (h : Here c k) (f : Fiber) (v : IsValid k)
    (room : h.p.last_fib_id < n_fib) (named : f.id ≡ next_id h.p)
    (runs : f.selected_thread ≡ k.next_address) (unlocked : f.lock_fiber ≡ false)
    (storage : (a : ℕ → ℤ) × (b : ℕ → ℕ) × (f.fls ≡ some a) × (f.bitmap_fls ≡ some b))
    (new_thread : All (OtherThread c.pid k.next_address k) h.p.listathread) where
  abbrev n : Ptr
  n = k.next_address

  abbrev thread : Thread
  thread = record { runner = suc k.next_address; id = c.pid }

  abbrev process : Process
  process = record (with_fiber (suc k.next_address) h.good.stuff h.p) {
    listathread = k.next_address ∷ h.p.listathread;
  }

  abbrev pub with_converted : Kernel
  with_converted = record k {
    processi =
        h.before
        ++ record (with_fiber (suc k.next_address) h.good.stuff h.p) {
          listathread = k.next_address ∷ h.p.listathread;
        }
          ∷ h.after;
    threads =
        update k.threads k.next_address (some (record { runner = suc k.next_address; id = c.pid }));
    fibers = update k.fibers (suc k.next_address) (some f);
    next_address = suc (suc k.next_address);
  }

  no_fiber : k.fibers (suc n) ≡ none
  no_fiber = (v.fresh (suc n) (omega arith)).0

  no_thread : k.threads n ≡ none
  no_thread = (v.fresh n (omega arith)).1

  converted-All : All (IsGood with_converted) (h.before ++ h.p ∷ h.after)
  converted-All =
      All-mono _
        (λ q.
          IsGood-keeps k with_converted q (update-KeepsIds thread_id k.threads n thread no_thread)
            (update-KeepsIds fiber_id k.fibers (suc n) f no_fiber))
        (subst (All (IsGood k)) h.here.table v.good)

  converted-IsGood : IsGood with_converted process
  converted-IsGood =
      let g = with_fiber-IsGood k h.p (suc n) f h.good (omega arith) no_fiber room named in
      record {
        threads =
            Listed-cons thread_id k.threads n thread no_thread h.p.listathread v.positive
              (All-mono h.p.listathread
                (λ q o. record {
                  ne_null = o.ne_null;
                  item = o.thread;
                  stored = o.stored;
                  ne_id = o.ne_pid;
                })
                new_thread)
              h.good.threads;
        fibers = g.fibers;
        numbered = g.numbered;
        stuff = g.stuff;
        one = g.one;
        counted = g.counted;
        room = g.room;
      }

  pub with_converted-IsValid : IsValid with_converted
  with_converted-IsValid = record {
    apart = Apart-replace h.before h.after h.p process refl (subst Apart h.here.table v.apart);
    good =
        All-replace (IsGood with_converted) h.before h.after h.p process converted-IsGood
          converted-All;
    running = λ t s e. elim (update-some k.threads n thread t s e) [
      | inl (here, is) ↦ (ground (arith, is), (f, ground (arith, is), runs ∙ sym here))
      | inr (other, old) ↦
          let (ne, r) = v.running t s old in
          let (g, at, sel) = r in (ne, (g, ground (arith, at, no_fiber), sel))
    ];
    selected = λ p g e ne. elim (update-some k.fibers (suc n) f p g e) [
      | inl (here, is) ↦ (thread, ground (arith, is, runs), sym here)
      | inr (other, old) ↦
          let (s, at, run) = v.selected p g old ne in (s, ground (arith, at, no_thread), run)
    ];
    unlocked = λ p g e. ground (arith, unlocked, e, v.unlocked p g);
    storage = λ p g e. elim (update-some k.fibers (suc n) f p g e) [
      | inl (here, is) ↦
          let (a, b, x, y) = storage in (a, b, ground (arith, is, x), ground (arith, is, y))
      | inr (other, old) ↦ v.storage p g old
    ];
    null_thread = ground (arith, v.null_thread, v.positive);
    null_fiber = ground (arith, v.null_fiber);
    positive = ground arith;
    fresh = λ q le.
        (ground (arith, (v.fresh q (omega arith)).0), ground (arith, (v.fresh q (omega arith)).1));
  }
