-- ===== src/Calendar/Machine.antt =====
-- The calendar queue of 2018-fibers/src/calqueue.h, and commands on it.
use linux_fibers.Common.{
  ℕ, suc, ◌+◌, ◌-◌, ◌%◌, Bool, true, false, List, ℤ, pos, negsuc, ltb, ◌==◌, if◌then◌else◌, update,
}

pub record Node (D P : Type 0) : Type 0 where
  pub priority : D
  pub payload : P

-- `calendar[i]` is `calq[firstsub + i]`. The thresholds are whole numbers.
pub record Queue (D P : Type 0) : Type 0 where
  pub calq : ℕ → List (Node D P)
  pub firstsub : ℕ
  pub nbuckets : ℕ
  pub qsize : ℕ
  pub lastbucket : ℤ
  pub resize_enabled : Bool
  pub top_threshold : ℤ
  pub bot_threshold : ℤ
  pub lastprio : D
  pub buckettop : D
  pub cwidth : D

abbrev pub calqspace : ℕ
calqspace = 65536

abbrev pub maxnbuckets : ℕ
maxnbuckets = 32768

-- A result, a use of a negative bucket number (it stands before the calendar), a fault (NULL, or
-- an index outside `calq`), or an end of the fuel.
pub data Run (Q A : Type 0) : Type 0 where
  ran : A → Q → Run Q A
  negative : Run Q A
  fault : Run Q A
  stuck : Run Q A

module _ {Q A B : Type 0} where
  abbrev pub and_then : Run Q A → (A → Q → Run Q B) → Run Q B
  and_then (ran a q) f = f a q
  and_then negative f = negative
  and_then fault f = fault
  and_then stuck f = stuck

  infixl 5 ◌>>=◌ ◌>>◌
  abbrev pub ◌>>=◌ : (Q → Run Q A) → (A → Q → Run Q B) → Q → Run Q B
  m >>= f = λ q. and_then (m q) f

  abbrev pub ◌>>◌ : (Q → Run Q A) → (Q → Run Q B) → Q → Run Q B
  m >> n = m >>= λ _. n

module _ {Q A : Type 0} where
  abbrev pub pure : A → Q → Run Q A
  pure = ran

  abbrev pub crash : Q → Run Q A
  crash q = fault

  abbrev pub before : Q → Run Q A
  before q = negative

  abbrev pub hang : Q → Run Q A
  hang q = stuck

  abbrev pub get : (Q → A) → Q → Run Q A
  get f q = ran (f q) q

abbrev pub modify : {Q : Type 0} → (Q → Q) → Q → Run Q (Unit {0})
modify f q = ran tt (f q)

abbrev pub M : Type 0 → Type 0 → Type 0 → Type 0
M D P A = Queue D P → Run (Queue D P) A

-- The C remainder of a signed number.
abbrev pub remainder : ℤ → ℕ → ℤ
remainder (pos n) m = pos (n % m)
remainder (negsuc n) m = if suc n % m == 0 then pos 0 else negsuc (suc n % m - 1)

-- `x < i` and `x > i` for a count.
abbrev pub is_below : ℕ → ℤ → Bool
is_below x (pos i) = ltb x i
is_below x (negsuc i) = false

abbrev pub is_above : ℕ → ℤ → Bool
is_above x (pos i) = ltb i x
is_above x (negsuc i) = true

-- `n - 2`
abbrev pub minus_two : ℕ → ℤ
minus_two n = if ltb n 2 then negsuc (1 - n) else pos (n - 2)

module _ {D P : Type 0} where
  -- `calendar[i]`, an index outside `calq` is a fault.
  unfoldable pub bucket : ℕ → M D P (List (Node D P))
  bucket i q = if ltb (q.firstsub + i) calqspace then ran (q.calq (q.firstsub + i)) q else fault

  unfoldable pub set_bucket : ℕ → List (Node D P) → M D P (Unit {0})
  set_bucket i ns q =
      if ltb (q.firstsub + i) calqspace
      then ran tt (record q { calq = update q.calq (q.firstsub + i) ns })
      else fault
