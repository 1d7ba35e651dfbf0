-- ===== src/Calendar.antt =====
-- The calendar queue: 2018-fibers/src/calqueue.c.
pub mod Machine
pub mod Buckets
pub mod Counts
pub mod Valid
pub mod Steps
pub mod Round
pub mod Locate
pub mod Search
pub mod Next
pub mod Resize
pub mod Width
pub mod Copy
pub mod Laws
pub mod Bag
pub mod Sorted
use linux_fibers.Common.{
  ℕ, zero, suc, ◌+◌, ◌-◌, ◌*◌, ◌/◌, Bool, true, false, not, ◌&&◌, List, [], ◌∷◌, Option, none, some,
  ℤ, pos, negsuc, ltb, leb, ◌==◌, if◌then◌else◌, update,
}
use linux_fibers.Doubles.{Doubles}
use Buckets.{
  top_after, next_bucket, clear_buckets, localinit, place_after, insert_sorted, enqueue_at, enqueue,
  starts_before, scan, improves, first_of, direct_search, locate, take_first,
}
use Machine.{
  Node, Queue, calqspace, maxnbuckets, Run, ran, stuck, M, ◌>>=◌, ◌>>◌, pure, crash, before, hang,
  get, modify, remainder, is_below, is_above, minus_two, bucket, set_bucket,
}

-- How many events are taken for a sample.
abbrev pub nsamples : ℕ → ℕ
nsamples qsize = let n = if leb qsize 5 then qsize else 5 + qsize / 10 in if ltb 25 n then 25 else n

module _ {D P : Type 0} ⦃d : Doubles D⦄ where
  -- The node behind a pointer.
  abbrev pub deref : Option (Node D P) → M D P (Node D P)
  deref none = crash
  deref (some e) = pure e

  -- The operations call one another through `resize`, which is an argument here.
  module _ (resize : ℕ → M D P (Unit {0})) where
    unfoldable pub put_with : D → P → M D P (Unit {0})
    unfolding enqueue
    put_with priority payload = do
      enqueue priority payload
      q ← get λ q. q
      if is_above q.qsize q.top_threshold && ltb q.nbuckets maxnbuckets
          then resize (2 * q.nbuckets)
          else pure tt

    unfoldable pub deq_with : M D P (Option (Node D P))
    unfolding locate take_first
    deq_with = do
      q ← get λ q. q
      if q.qsize == 0 then pure none else do
        i ← locate
        e ← take_first i
        q ← get λ q. q
        if is_below q.qsize q.bot_threshold then resize (q.nbuckets / 2) else pure tt
        pure (some e)

    -- `n` more samples behind the event `prev`; the sum of the differences.
    unfoldable pub sample : (n : ℕ) (prev : Node D P) (average : D) → M D P (List (Node D P) × D)
    unfolding deq_with
    sample zero prev average = pure ([], average)
    sample (suc n) prev average = do
      o ← deq_with
      e ← deref o
      (es, average) ← sample n e (d.add average (d.sub e.priority prev.priority))
      pure (e ∷ es, average)

    -- The samples go back; the sum and the number of the small differences.
    unfoldable pub put_back :
        (prev : Node D P) (es : List (Node D P)) (average newaverage : D) (j : ℕ) → M D P (D × ℕ)
    unfolding put_with
    put_back prev [] average newaverage j = pure (newaverage, j)
    put_back prev (e ∷ es) average newaverage j = do
      let difference = d.sub e.priority prev.priority
      let small = d.lt difference (d.mul average (d.lit 2 0))
      put_with e.priority e.payload
      put_back e es average (if small then d.add newaverage difference else newaverage)
          (if small then suc j else j)

    -- The width from a sample of a queue of two events or more.
    unfoldable pub measured_width : Queue D P → M D P D
    unfolding deq_with put_with sample put_back
    measured_width old = do
      modify λ q. record q { resize_enabled = false }
      o ← deq_with
      first ← deref o
      (es, sum) ← sample (nsamples old.qsize - 1) first (d.lit 0 0)
      let average = d.div sum (d.of_int (nsamples old.qsize - 1))
      put_with first.priority first.payload
      (newaverage, j) ← put_back first es average (d.lit 0 0) 0
      modify λ q. record q {
        lastbucket = old.lastbucket;
        lastprio = old.lastprio;
        buckettop = old.buckettop;
        resize_enabled = true;
      }
      pure (d.mul (d.div newaverage (d.of_int j)) (d.lit 3 0))

    unfoldable pub new_width : M D P D
    unfolding measured_width
    new_width = do q ← get λ q. q; if ltb q.qsize 2 then pure (d.lit 1 0) else measured_width q

    unfoldable pub put_all : List (Node D P) → M D P (Unit {0})
    unfolding put_with
    put_all [] = pure tt
    put_all (e ∷ es) = do put_with e.priority e.payload; put_all es

    -- The old calendar, from its bucket n - 1 down: nothing writes there.
    unfoldable pub copy_buckets : (base n : ℕ) → M D P (Unit {0})
    unfolding put_all
    copy_buckets base zero = pure tt
    copy_buckets base (suc n) = do ns ← get λ q. q.calq (base + n); put_all ns; copy_buckets base n

    unfoldable pub resize_with : (newsize : ℕ) → M D P (Unit {0})
    unfolding new_width localinit copy_buckets
    resize_with newsize = do
      enabled ← get λ q. q.resize_enabled
      if not enabled then pure tt else do
        bwidth ← new_width
        old ← get λ q. q
        localinit (if old.firstsub == 0 then calqspace - newsize else 0) newsize bwidth old.lastprio
        copy_buckets old.firstsub old.nbuckets

  -- `resize` calls itself through the other operations; the fuel bounds the depth of the calls.
  unfoldable pub resize : (fuel newsize : ℕ) → M D P (Unit {0})
  unfolding resize_with
  resize zero newsize = λ q. if q.resize_enabled then stuck else ran tt q
  resize (suc fuel) newsize = resize_with (resize fuel) newsize

  unfoldable pub calqueue_put : (fuel : ℕ) → D → P → M D P (Unit {0})
  unfolding put_with resize
  calqueue_put fuel = put_with (resize fuel)

  unfoldable pub calqueue_deq : (fuel : ℕ) → M D P (Option (Node D P))
  unfolding deq_with resize
  calqueue_deq fuel = deq_with (resize fuel)

  -- NULL for no node.
  abbrev pub payload_of : Option (Node D P) → Option P
  payload_of none = none
  payload_of (some node) = some node.payload

  unfoldable pub calqueue_get : (fuel : ℕ) → M D P (Option P)
  unfolding calqueue_deq
  calqueue_get fuel = do node ← calqueue_deq fuel; pure (payload_of node)

  unfoldable pub calqueue_init : M D P (Unit {0})
  unfolding localinit
  calqueue_init = do
    localinit 0 2 (d.lit 1 0) (d.lit 0 0)
    modify λ q. record q { resize_enabled = true }

  pub calqueue_empty : M D P Bool
  calqueue_empty = get λ q. q.qsize == 0
