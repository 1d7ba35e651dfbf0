-- ===== src/Kernel/Caller.antt =====
-- The calling thread's place in the tables, and what the loops do there.
use linux_fibers.Common.{◌≡◌, ◌≢◌, sym, subst, ◌∙◌, ap, List, ◌∷◌, ◌++◌, some, All}
use linux_fibers.Kernel.{Ptr, null, Process, Thread, Kernel, Current}
use linux_fibers.Kernel.Store.{M, ok, fault, pure, ◌>>=◌}
use linux_fibers.Kernel.Rounds.{
  OtherThread, each_process-none, each_process-one, each_process-fault, each_thread-others,
  each_thread-one, each_thread-fault,
}
use linux_fibers.Kernel.Loops.{each_process, for_process, each_thread, for_caller}

-- A process of the table and a thread of it, with what stands before and behind them.
pub record Place : Type 0 where
  pub before : List Process
  pub p : Process
  pub after : List Process
  pub left : List Ptr
  pub t : Ptr
  pub right : List Ptr

-- The table has one process of the tgid.
pub record IsProcess (c : Current) (k : Kernel) (before : List Process) (p : Process)
    (after : List Process) : Type 0 where
  pub table : k.processi ≡ before ++ p ∷ after
  pub tgid : p.id ≡ c.tgid
  pub none_before : All (λ (q : Process). q.id ≢ c.tgid) before
  pub none_after : All (λ (q : Process). q.id ≢ c.tgid) after

-- The table has one process of the tgid, which has one thread of the pid.
pub record IsCaller (c : Current) (k : Kernel) (w : Place) (thread : Thread) : Type 0 where
  pub table : k.processi ≡ w.before ++ w.p ∷ w.after
  pub tgid : w.p.id ≡ c.tgid
  pub before : All (λ (q : Process). q.id ≢ c.tgid) w.before
  pub after : All (λ (q : Process). q.id ≢ c.tgid) w.after
  pub listed : w.p.listathread ≡ w.left ++ w.t ∷ w.right
  pub ne_null : w.t ≢ null
  pub stored : k.threads w.t ≡ some thread
  pub pid : thread.id ≡ c.pid
  pub left : All (OtherThread c.pid w.t k) w.left
  pub right : All (OtherThread c.pid w.t k) w.right

pub set_processi_same :
    (k : Kernel) (ps : List Process) → ps ≡ k.processi → record k { processi = ps } ≡ k
set_processi_same k ps e = λ i. record k { processi = e i }

-- A loop over the process of the tgid is its body there; the body sees the table as it was.
pub for_process-one :
    {A : Type 0} {c : Current} {k : Kernel} {before : List Process} {p : Process}
    {after : List Process}
    → IsProcess c k before p after
    → (body : Process → A → M (A × Process)) (ret ret' : A) (p' : Process) (k' : Kernel)
    → body p ret k ≡ ok (ret', p') k'
    → for_process c.tgid body ret k ≡ ok ret' (record k' { processi = before ++ p' ∷ after })
unfolding for_process
for_process-one {A} {c} {k} {before} {p} {after} here body ret ret' p' k' e = rw loop
  where
    loop : each_process c.tgid body k.processi ret k ≡ ok (ret', before ++ p' ∷ after) k'
    loop =
        subst (λ ps. each_process c.tgid body ps ret k ≡ ok (ret', before ++ p' ∷ after) k')
          (sym here.table)
          (each_process-one c.tgid body before p after ret k here.none_before here.tgid
            here.none_after ret' p' k' e)

-- A body that leaves the process and the memory alone.
pub for_process-same :
    {A : Type 0} {c : Current} {k : Kernel} {before : List Process} {p : Process}
    {after : List Process}
    → IsProcess c k before p after
    → (body : Process → A → M (A × Process)) (ret ret' : A) → body p ret k ≡ ok (ret', p) k
    → for_process c.tgid body ret k ≡ ok ret' k
for_process-same {k = k} {p = p} here body ret ret' e =
    for_process-one here body ret ret' p k e ∙ ap (ok ret') (set_processi_same k _ (sym here.table))

pub for_process-fault :
    {A : Type 0} {c : Current} {k : Kernel} {before : List Process} {p : Process}
    {after : List Process}
    → IsProcess c k before p after
    → (body : Process → A → M (A × Process)) (ret : A) → body p ret k ≡ fault
    → for_process c.tgid body ret k ≡ fault
unfolding for_process
for_process-fault {A} {c} {k} {before} {p} {after} here body ret e = rw loop
  where
    loop : each_process c.tgid body k.processi ret k ≡ fault
    loop =
        subst (λ ps. each_process c.tgid body ps ret k ≡ fault) (sym here.table)
          (each_process-fault c.tgid body before p after ret k here.none_before here.tgid e)

pub IsCaller-IsProcess :
    {c : Current} {k : Kernel} {w : Place} {thread : Thread}
    → IsCaller c k w thread
    → IsProcess c k w.before w.p w.after
IsCaller-IsProcess caller = record {
  table = caller.table;
  tgid = caller.tgid;
  none_before = caller.before;
  none_after = caller.after;
}

module _ {A : Type 0} {c : Current} {k : Kernel} {w : Place} {thread : Thread}
    (caller : IsCaller c k w thread) where
  pub each_thread-caller :
      (body : Ptr → A → M A) (ret ret' : A) (k' : Kernel)
      → body w.t ret k ≡ ok ret' k'
      → All (OtherThread c.pid w.t k') w.right
      → each_thread c.pid body w.p.listathread ret k ≡ ok ret' k'
  each_thread-caller body ret ret' k' e right = rw (
    caller.listed,
    each_thread-one c.pid w.t body w.left w.right thread ret k caller.left caller.ne_null
        caller.stored caller.pid ret' k' e right,
  )

  -- A loop over the caller's thread that leaves the process alone is its body there.
  pub for_thread-one :
      (on : Process → Ptr → A → M A) (ret ret' : A) (k' : Kernel)
      → on w.p w.t ret k ≡ ok ret' k'
      → k'.processi ≡ k.processi
      → All (OtherThread c.pid w.t k') w.right
      → for_process c.tgid
          (λ p ret. do ret ← each_thread c.pid (on p) p.listathread ret; pure (ret, p))
          ret
          k
        ≡ ok ret' k'
  for_thread-one on ret ret' k' e same right =
      for_process-one (IsCaller-IsProcess caller) _ ret ret' w.p k'
        (rw (each_thread-caller (on w.p) ret ret' k' e right))
      ∙ ap (ok ret') (set_processi_same k' _ (sym caller.table ∙ sym same))

  pub for_caller-one :
      (on : Ptr → A → M A) (ret ret' : A) (k' : Kernel)
      → on w.t ret k ≡ ok ret' k'
      → k'.processi ≡ k.processi
      → All (OtherThread c.pid w.t k') w.right
      → for_caller c on ret k ≡ ok ret' k'
  for_caller-one on = for_thread-one λ _. on

  -- A fault at the caller's thread is a fault of the loop.
  pub for_thread-fault :
      (on : Process → Ptr → A → M A) (ret : A)
      → on w.p w.t ret k ≡ fault
      → for_process c.tgid
          (λ p ret. do ret ← each_thread c.pid (on p) p.listathread ret; pure (ret, p))
          ret
          k
        ≡ fault
  for_thread-fault on ret e = for_process-fault (IsCaller-IsProcess caller) _ ret (rw loop)
    where
      loop : each_thread c.pid (on w.p) w.p.listathread ret k ≡ fault
      loop =
          subst (λ ts. each_thread c.pid (on w.p) ts ret k ≡ fault) (sym caller.listed)
            (each_thread-fault c.pid w.t (on w.p) w.left w.right thread ret k caller.left
              caller.ne_null caller.stored caller.pid e)

  pub for_caller-fault :
      (on : Ptr → A → M A) (ret : A) → on w.t ret k ≡ fault → for_caller c on ret k ≡ fault
  for_caller-fault on = for_thread-fault λ _. on

-- In a process that never opened the device a loop leaves the result at what it starts from.
pub for_process-none :
    {A : Type 0} (c : Current) (k : Kernel) (body : Process → A → M (A × Process)) (ret : A)
    → All (λ (q : Process). q.id ≢ c.tgid) k.processi
    → for_process c.tgid body ret k ≡ ok ret k
unfolding for_process
for_process-none c k body ret h = rw (each_process-none c.tgid body k.processi ret k h)

-- So it does on a thread that is none of the process's.
pub for_thread-none :
    {A : Type 0} {c : Current} {k : Kernel} {before : List Process} {p : Process}
    {after : List Process}
    → IsProcess c k before p after
    → (t : Ptr) → All (OtherThread c.pid t k) p.listathread
    → (on : Process → Ptr → A → M A) (ret : A)
    → for_process c.tgid
        (λ p ret. do ret ← each_thread c.pid (on p) p.listathread ret; pure (ret, p))
        ret
        k
      ≡ ok ret k
for_thread-none {k = k} {p = p} here t none_here on ret =
    for_process-one here _ ret ret p k
      (rw (each_thread-others _ t (on p) p.listathread ret k none_here))
    ∙ ap (ok ret) (set_processi_same k _ (sym here.table))
