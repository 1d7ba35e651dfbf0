-- ===== src/Kernel/Loops.antt =====
-- `hash_for_each_possible_rcu` with the test of the id that each of its loops begins with. The
-- other nodes of the bucket fail the test, so the loop visits the whole table for the id.
use linux_fibers.Common.{ℕ, List, [], ◌∷◌, ◌==◌, if◌then◌else◌}
use linux_fibers.Kernel.{Ptr, Process, Current}
use linux_fibers.Kernel.Store.{M, pure, ◌>>=◌, ◌>>◌, get, modify, load_fiber, load_thread}

module _ {A : Type 0} where
  -- The body may change the process, and carries the caller's variable.
  unfoldable pub each_process :
      ℕ → (Process → A → M (A × Process)) → List Process → A → M (A × List Process)
  each_process tgid body [] ret = pure (ret, [])
  each_process tgid body (p ∷ ps) ret = do
    (ret, p) ← if p.id == tgid then body p ret else pure (ret, p)
    (ret, ps) ← each_process tgid body ps ret
    pure (ret, p ∷ ps)

  unfoldable pub for_process : ℕ → (Process → A → M (A × Process)) → A → M A
  for_process tgid body ret = do
    ps ← get λ k. k.processi
    (ret, ps) ← each_process tgid body ps ret
    modify λ k. record k { processi = ps }
    pure ret

  unfoldable pub each_thread : ℕ → (Ptr → A → M A) → List Ptr → A → M A
  each_thread pid body [] ret = pure ret
  each_thread pid body (t ∷ ts) ret = do
    thread ← load_thread t
    ret ← if thread.id == pid then body t ret else pure ret
    each_thread pid body ts ret

  unfoldable pub each_fiber : ℕ → (Ptr → A → M A) → List Ptr → A → M A
  each_fiber id body [] ret = pure ret
  each_fiber id body (f ∷ fs) ret = do
    fiber ← load_fiber f
    ret ← if fiber.id == id then body f ret else pure ret
    each_fiber id body fs ret

-- The loops around the body `on`, which is called at a thread of the caller and carries the
-- function's result.
abbrev pub for_caller : {A : Type 0} → Current → (Ptr → A → M A) → A → M A
for_caller c on =
    for_process c.tgid λ p ret. do ret ← each_thread c.pid on p.listathread ret; pure (ret, p)
