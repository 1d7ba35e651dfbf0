-- ===== src/Kernel/Store.antt =====
-- Commands on the kernel memory. A command ends with a result, in a fault (a NULL or dangling
-- pointer, an array index out of bounds, an uninitialised pointer), or spins on a held lock.
use linux_fibers.Common.{
  ℕ, suc, true, false, Option, none, some, update, ◌==◌, if◌then◌else◌, ℤ, pos, negsuc, ltb,
}
use linux_fibers.Kernel.{Ptr, null, Fiber, Thread, Kernel}

pub data Run (A : Type 0) : Type 0 where
  ok : A → Kernel → Run A
  fault : Run A
  spins : Run A

abbrev pub M : Type 0 → Type 0
M A = Kernel → Run A

abbrev pub pure : {A : Type 0} → A → M A
pure = ok

abbrev pub crash : {A : Type 0} → M A
crash k = fault

module _ {A B : Type 0} where
  abbrev pub and_then : Run A → (A → M B) → Run B
  and_then (ok a k) f = f a k
  and_then fault f = fault
  and_then spins f = spins

  infixl 5 ◌>>=◌ ◌>>◌
  abbrev pub ◌>>=◌ : M A → (A → M B) → M B
  m >>= f = λ k. and_then (m k) f

  abbrev pub ◌>>◌ : M A → M B → M B
  m >> n = m >>= λ _. n

abbrev pub get : {A : Type 0} → (Kernel → A) → M A
get f k = ok (f k) k

abbrev pub modify : (Kernel → Kernel) → M (Unit {0})
modify f k = ok tt (f k)

-- `*p`: a fault at NULL and at an address that holds no fiber.
unfoldable pub load_fiber : Ptr → M Fiber
load_fiber p k = if p == null then fault else elim (k.fibers p) [ none ↦ fault | some f ↦ ok f k ]

unfoldable pub load_thread : Ptr → M Thread
load_thread p k = if p == null then fault else elim (k.threads p) [ none ↦ fault | some t ↦ ok t k ]

-- The raw writes: `none` gives the address back.
abbrev pub put_fiber : Ptr → Option Fiber → Kernel → Kernel
put_fiber p f k = record k { fibers = update k.fibers p f }

abbrev pub put_thread : Ptr → Option Thread → Kernel → Kernel
put_thread p t k = record k { threads = update k.threads p t }

-- A write through a pointer, as in `p->id = i`.
unfoldable pub write_fiber : Ptr → (Fiber → Fiber) → M (Unit {0})
unfolding load_fiber
write_fiber p g = do f ← load_fiber p; modify (put_fiber p (some (g f)))

unfoldable pub write_thread : Ptr → (Thread → Thread) → M (Unit {0})
unfolding load_thread
write_thread p g = do t ← load_thread p; modify (put_thread p (some (g t)))

-- `kzalloc` never returns an address twice and is taken to succeed.
unfoldable pub new_fiber : Fiber → M Ptr
new_fiber f k =
    ok k.next_address
      (record (put_fiber k.next_address (some f) k) { next_address = suc k.next_address })

unfoldable pub new_thread : Thread → M Ptr
new_thread t k =
    ok k.next_address
      (record (put_thread k.next_address (some t) k) { next_address = suc k.next_address })

unfoldable pub free_fiber : Ptr → M (Unit {0})
unfolding load_fiber
free_fiber p = load_fiber p >> modify (put_fiber p none)

unfoldable pub free_thread : Ptr → M (Unit {0})
unfolding load_thread
free_thread p = load_thread p >> modify (put_thread p none)

-- A lock that is held stays held: no other thread runs during the call.
unfoldable pub spin_lock : Ptr → M (Unit {0})
unfolding load_fiber
spin_lock p = do
  f ← load_fiber p
  if f.lock_fiber
      then (λ k. spins)
      else modify (put_fiber p (some (record f { lock_fiber = true })))

unfoldable pub spin_unlock : Ptr → M (Unit {0})
unfolding write_fiber
spin_unlock p = write_fiber p λ f. record f { lock_fiber = false }

-- `a[i]` of an array of `n` items, for a signed index.
unfoldable pub read_at : {A : Type 0} → ℕ → (ℕ → A) → ℤ → M A
read_at n a (pos i) = if ltb i n then pure (a i) else crash
read_at n a (negsuc i) = crash

-- `a[i] = v`, which gives the new array.
unfoldable pub write_at : {A : Type 0} → ℕ → (ℕ → A) → ℤ → A → M (ℕ → A)
write_at n a (pos i) v = if ltb i n then pure (update a i v) else crash
write_at n a (negsuc i) v = crash
