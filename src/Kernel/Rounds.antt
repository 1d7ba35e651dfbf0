-- ===== src/Kernel/Rounds.antt =====
-- What the loops over the processes and over the threads do: where no node has the id, and where
-- one has it.
use linux_fibers.Common.{
  ℕ, ◌≡◌, refl, ◌≢◌, ◌∙◌, List, [], ◌∷◌, ◌++◌, some, All, All-mono, Option, eq→==, ne→==,
}
use linux_fibers.Kernel.{Ptr, null, Fiber, Process, Thread, Kernel}
use linux_fibers.Kernel.Store.{M, ok, fault, load_thread, put_fiber}
use linux_fibers.Kernel.Loops.{each_process, each_thread}

-- `s` is a live thread, other than `t`, and not of the pid.
pub record OtherThread (pid : ℕ) (t : Ptr) (k : Kernel) (s : Ptr) : Type 0 where
  pub ne_null : s ≢ null
  pub ne_self : s ≢ t
  pub thread : Thread
  pub stored : k.threads s ≡ some thread
  pub ne_pid : thread.id ≢ pid

-- A change of memory that leaves the other threads alone leaves them other.
pub OtherThread-change :
    (pid : ℕ) (t : Ptr) (k k' : Kernel) (ts : List Ptr)
    → ((s : Ptr) → s ≢ t → k'.threads s ≡ k.threads s)
    → All (OtherThread pid t k) ts
    → All (OtherThread pid t k') ts
OtherThread-change pid t k k' ts same = All-mono ts λ s o. record {
  ne_null = o.ne_null;
  ne_self = o.ne_self;
  thread = o.thread;
  stored = same s o.ne_self ∙ o.stored;
  ne_pid = o.ne_pid;
}

pub OtherThread-put_fiber :
    (pid : ℕ) (t : Ptr) (k : Kernel) (p : Ptr) (f : Option Fiber) (ts : List Ptr)
    → All (OtherThread pid t k) ts
    → All (OtherThread pid t (put_fiber p f k)) ts
OtherThread-put_fiber pid t k p f ts = OtherThread-change pid t k _ ts (λ s n. refl)

module _ {A : Type 0} (tgid : ℕ) (body : Process → A → M (A × Process)) where
  -- Without a process of the tgid the loop does nothing.
  pub each_process-none :
      (ps : List Process) (ret : A) (k : Kernel)
      → All (λ (q : Process). q.id ≢ tgid) ps
      → each_process tgid body ps ret k ≡ ok (ret, ps) k
  unfolding each_process
  each_process-none [] ret k h = refl
  each_process-none (p ∷ ps) ret k h = rw (ne→== p.id tgid h.0, each_process-none ps ret k h.1)

  -- With one it runs the body there.
  pub each_process-one :
      (before : List Process) (p : Process) (after : List Process) (ret : A) (k : Kernel)
      → All (λ (q : Process). q.id ≢ tgid) before
      → p.id ≡ tgid
      → All (λ (q : Process). q.id ≢ tgid) after
      → (ret' : A) (p' : Process) (k' : Kernel) → body p ret k ≡ ok (ret', p') k'
      → each_process tgid body (before ++ p ∷ after) ret k ≡ ok (ret', before ++ p' ∷ after) k'
  unfolding each_process
  each_process-one [] p after ret k b m a ret' p' k' e =
      rw (eq→== p.id tgid m, e, each_process-none after ret' k' a)
  each_process-one (q ∷ before) p after ret k b m a ret' p' k' e =
      rw (ne→== q.id tgid b.0, each_process-one before p after ret k b.1 m a ret' p' k' e)

  pub each_process-fault :
      (before : List Process) (p : Process) (after : List Process) (ret : A) (k : Kernel)
      → All (λ (q : Process). q.id ≢ tgid) before
      → p.id ≡ tgid
      → body p ret k ≡ fault
      → each_process tgid body (before ++ p ∷ after) ret k ≡ fault
  unfolding each_process
  each_process-fault [] p after ret k b m e = rw (eq→== p.id tgid m, e)
  each_process-fault (q ∷ before) p after ret k b m e =
      rw (ne→== q.id tgid b.0, each_process-fault before p after ret k b.1 m e)

module _ {A : Type 0} (pid : ℕ) (t : Ptr) (body : Ptr → A → M A) where
  pub each_thread-others :
      (ts : List Ptr) (ret : A) (k : Kernel)
      → All (OtherThread pid t k) ts
      → each_thread pid body ts ret k ≡ ok ret k
  unfolding each_thread load_thread
  each_thread-others [] ret k h = refl
  each_thread-others (s ∷ ts) ret k h = rw (
    ne→== s null h.0.ne_null,
    h.0.stored,
    ne→== h.0.thread.id pid h.0.ne_pid,
    each_thread-others ts ret k h.1,
  )

  pub each_thread-one :
      (left right : List Ptr) (thread : Thread) (ret : A) (k : Kernel)
      → All (OtherThread pid t k) left
      → t ≢ null
      → k.threads t ≡ some thread
      → thread.id ≡ pid
      → (ret' : A) (k' : Kernel) → body t ret k ≡ ok ret' k'
      → All (OtherThread pid t k') right
      → each_thread pid body (left ++ t ∷ right) ret k ≡ ok ret' k'
  unfolding each_thread load_thread
  each_thread-one [] right thread ret k l n s m ret' k' e r =
      rw (ne→== t null n, s, eq→== thread.id pid m, e, each_thread-others right ret' k' r)
  each_thread-one (q ∷ left) right thread ret k l n s m ret' k' e r = rw (
    ne→== q null l.0.ne_null,
    l.0.stored,
    ne→== l.0.thread.id pid l.0.ne_pid,
    each_thread-one left right thread ret k l.1 n s m ret' k' e r,
  )

  pub each_thread-fault :
      (left right : List Ptr) (thread : Thread) (ret : A) (k : Kernel)
      → All (OtherThread pid t k) left
      → t ≢ null
      → k.threads t ≡ some thread
      → thread.id ≡ pid
      → body t ret k ≡ fault
      → each_thread pid body (left ++ t ∷ right) ret k ≡ fault
  unfolding each_thread load_thread
  each_thread-fault [] right thread ret k l n s m e =
      rw (ne→== t null n, s, eq→== thread.id pid m, e)
  each_thread-fault (q ∷ left) right thread ret k l n s m e = rw (
    ne→== q null l.0.ne_null,
    l.0.stored,
    ne→== l.0.thread.id pid l.0.ne_pid,
    each_thread-fault left right thread ret k l.1 n s m e,
  )
