-- ===== src/Fls/Refine.antt =====
-- Fiber-local storage as the caller sees it: a partial map from slots to values.
use native.Mathlib.Decide.{dec_lt, ℕ_discrete as dec_eq}
use linux_fibers.Common.{
  ℕ, zero, suc, ◌<◌, ◌≡◌, ◌≢◌, refl, sym, ap, ◌∙◌, ◌⊎◌, inl, inr, arith, ◌==◌, if◌then◌else◌, ltb,
  Bool, true, false, Option, none, some, ℤ, pos, minus_one, update, List, [], ◌∷◌, ◌&&◌, not, All,
}
use linux_fibers.Kernel.{Ptr, fls_size, Fiber, Thread, Kernel, Current}
use linux_fibers.Kernel.Store.{Run, M, ok, fault, and_then, pure, ◌>>=◌}
use linux_fibers.Kernel.Caller.{Place, IsCaller}
use linux_fibers.Fls.{fls_alloc, fls_free, fls_get_value, fls_set_value}
use linux_fibers.Fls.Slots.{IsFirstFree}
use linux_fibers.Fls.Runs.{RunsFiber, with_storage, kept, still_runs, same_storage}
use linux_fibers.Fls.Steps.{
  fls_alloc-free, fls_alloc-full, fls_get_value_lem, fls_set_value_lem, fls_free_lem,
}

abbrev pub Slots : Type 0
Slots = ℕ → Option ℤ

-- The slots that are in use, with what they hold.
abbrev pub slots : (ℕ → ℤ) → (ℕ → ℕ) → Slots
slots values bits i = if ltb i fls_size && not (bits i == 0) then some (values i) else none

-- The calls with the value that reaches the caller.
pub data Call : Type 0 where
  alloc : Call
  release : ℕ → Call
  load : ℕ → Call
  store : ℕ → ℤ → Call

abbrev pub of_bool : Bool → ℤ
of_bool b = if b then pos 1 else pos 0

pub call : Current → Call → M ℤ
call c alloc = fls_alloc c
call c (release i) = do b ← fls_free c (pos i); pure (of_bool b)
call c (load i) = fls_get_value c (pos i)
call c (store i v) = do _ ← fls_set_value c (pos i) v; pure (pos 0)

pub run : Current → List Call → M (List ℤ)
unfolding call
run c [] = pure []
run c (x ∷ xs) = do r ← call c x; rs ← run c xs; pure (r ∷ rs)

abbrev pub InRange : Call → Type 0
InRange alloc = Unit
InRange (release i) = i < fls_size
InRange (load i) = i < fls_size
InRange (store i v) = i < fls_size

abbrev pub is_some : Option ℤ → Bool
is_some none = false
is_some (some _) = true

abbrev pub get_or : Option ℤ → ℤ → ℤ
get_or none d = d
get_or (some v) d = v

-- What one call may do to the map. A slot that is allocated starts with some value, which the
-- map does not determine.
abbrev pub Allows : Slots → Call → ℤ → Slots → Type 0
Allows m alloc r m' =
    (i : ℕ) × (v : ℤ) × (i < fls_size)
    × (m i ≡ none)
    × ((j : ℕ) → j < i → m j ≢ none)
    × (r ≡ pos i)
    × ((j : ℕ) → m' j ≡ update m i (some v) j)
Allows m (release i) r m' = (r ≡ of_bool (is_some (m i))) × ((j : ℕ) → m' j ≡ update m i none j)
Allows m (load i) r m' = (r ≡ get_or (m i) minus_one) × ((j : ℕ) → m' j ≡ m j)
Allows m (store i v) r m' =
    (r ≡ pos 0) × ((j : ℕ) → m' j ≡ (if is_some (m i) then update m i (some v) j else m j))

-- A history of calls: each is allowed by the map; the first `alloc` with no slot left is a fault.
pub data Follows : Slots → List Call → Run (List ℤ) → Type 0 where
  done : {m : Slots} {k : Kernel} → Follows m [] (ok [] k)
  next :
      {m : Slots} {x : Call} {xs : List Call} (m' : Slots) {r : ℤ} {rs : List ℤ} {k : Kernel}
      → Allows m x r m'
      → Follows m' xs (ok rs k)
      → Follows m (x ∷ xs) (ok (r ∷ rs) k)
  full :
      {m : Slots} {xs : List Call}
      → ((i : ℕ) → i < fls_size → m i ≢ none)
      → Follows m (alloc ∷ xs) fault
  later :
      {m : Slots} {x : Call} {xs : List Call} (m' : Slots) (r : ℤ)
      → Allows m x r m'
      → Follows m' xs fault
      → Follows m (x ∷ xs) fault

-- A slot is free below `n`, and then there is a least one, or none is.
first_free :
    (bits : ℕ → ℕ) (n : ℕ)
    → ((i : ℕ) × IsFirstFree bits 0 i × (i < n)) ⊎ ((i : ℕ) → i < n → bits i ≢ 0)
first_free bits zero = inr λ i h. absurd (omega arith)
first_free bits (suc n) = elim (first_free bits n) [
  | inl (i, first, lt) ↦ inl (i, first, omega arith)
  | inr used ↦ elim (dec_eq (bits n) 0) [
    | yes e ↦
        inl (n, record { from_le = omega arith; free = e; least = λ j a b. used j b }, omega arith)
    | no ne ↦ inr λ i h. elim (dec_lt i n) [
      | yes lt ↦ used i lt
      | no ge ↦ let e : i ≡ n = omega arith in λ z. ne (ap bits (sym e) ∙ z)
    ]
  ]
]

module _ {c : Current} {k : Kernel} {w : Place} {thread : Thread} {p : Ptr} {f : Fiber}
    {values : ℕ → ℤ} {bits : ℕ → ℕ} (caller : IsCaller c k w thread)
    (runs : RunsFiber k thread p f values bits) where
  -- For a thread that runs an unlocked fiber with both arrays, flsAlloc returns the least free
  -- slot and marks it used, which is all that it changes; or no slot is free and the call is a
  -- fault.
  pub fls_alloc_cases :
      ((i : ℕ) × (i < fls_size)
        × IsFirstFree bits 0 i
        × (fls_alloc c k ≡ ok (pos i) (with_storage p f values (update bits i 1) k)))
      ⊎ (((i : ℕ) → i < fls_size → bits i ≢ 0) × (fls_alloc c k ≡ fault))
  fls_alloc_cases = elim (first_free bits fls_size) [
    | inl (i, first, lt) ↦ inl (i, lt, first, fls_alloc-free caller runs i first lt)
    | inr used ↦ inr (used, fls_alloc-full caller runs used)
  ]

  -- A call in range returns, and does what the map allows; or it is `alloc` with no slot left.
  pub call-Allows :
      (x : Call)
      → InRange x
      → ((r : ℤ) × (values' : ℕ → ℤ) × (bits' : ℕ → ℕ) × (call c x k
            ≡ ok r (with_storage p f values' bits' k))
          × Allows (slots values bits) x r (slots values' bits'))
        ⊎ ((x ≡ alloc)
            × ((i : ℕ) → i < fls_size → slots values bits i ≢ none)
            × (call c x k ≡ fault))
  unfolding call
  call-Allows alloc h = elim fls_alloc_cases [
    | inl (i, lt, first, e) ↦ inl (
      pos i,
      values,
      update bits i 1,
      e,
      (
        i,
        values i,
        lt,
        ground (arith, first.free),
        (λ j b. ground (arith, first.least j (omega arith) b)),
        refl,
        λ j. ground arith,
      ),
    )
    | inr (used, e) ↦ inr (refl, λ i b. ground (arith, used i), e)
  ]
  call-Allows (release i) h = inl (
    of_bool (if bits i == 0 then false else true),
    values,
    update bits i 0,
    rw (fls_free_lem caller runs i h),
    (ground arith, λ j. ground arith),
  )
  call-Allows (load i) h = inl (
    if bits i == 0 then minus_one else values i,
    values,
    bits,
    rw (fls_get_value_lem caller runs i h, same_storage caller runs),
    (ground arith, λ j. refl),
  )
  call-Allows (store i v) h = inl (
    pos 0,
    (if bits i == 0 then values else update values i v),
    bits,
    rw (fls_set_value_lem caller runs i v h),
    (refl, λ j. ground arith),
  )

extend :
    {m : Slots} {x : Call} {xs : List Call} {res : Run (List ℤ)} (r : ℤ) (m' : Slots)
    → Allows m x r m'
    → Follows m' xs res
    → Follows m (x ∷ xs) (and_then res (λ rs. pure (r ∷ rs)))
extend r m' a done = next m' a done
extend r m' a (next m'' b f) = next m' a (next m'' b f)
extend r m' a (full used) = later m' r a (full used)
extend r m' a (later m'' q b f) = later m' r a (later m'' q b f)

run_full :
    (c : Current) (k : Kernel) {m : Slots} (x : Call) (xs : List Call)
    → x ≡ alloc
    → ((i : ℕ) → i < fls_size → m i ≢ none)
    → call c x k ≡ fault
    → Follows m (x ∷ xs) (run c (x ∷ xs) k)
unfolding run
run_full c k alloc xs e used e' = rw e' (full used)
run_full c k (release i) xs e used e' = cc
run_full c k (load i) xs e used e' = cc
run_full c k (store i v) xs e used e' = cc

module _ {c : Current} {w : Place} {thread : Thread} {p : Ptr} where
  -- The storage functions implement a partial map from slots to values: for a thread that runs
  -- an unlocked fiber with both arrays, a history of calls with indexes in range returns the
  -- results that the map allows, where an allocation takes the least free slot, up to the first
  -- allocation that finds no slot, which is a fault.
  pub run-Follows :
      (xs : List Call) {k : Kernel} {f : Fiber} {values : ℕ → ℤ} {bits : ℕ → ℕ}
      → IsCaller c k w thread
      → RunsFiber k thread p f values bits
      → All InRange xs
      → Follows (slots values bits) xs (run c xs k)
  unfolding run
  run-Follows [] caller runs h = done
  run-Follows (x ∷ xs) {k} {f} caller runs h = elim (call-Allows caller runs x h.0) [
    | inr (e, used, e') ↦ run_full c k x xs e used e'
    | inl (r, values', bits', e, allowed) ↦ rw e (
        extend r _ allowed
          (run-Follows xs (kept caller runs _) (still_runs caller runs values' bits') h.1))
  ]
