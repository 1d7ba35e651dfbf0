-- ===== src/Tests/Threads.antt =====
-- Two threads that read the same counter; the second swap fails.
use linux_fibers.Common.{◌≡◌, ◌≢◌, ◌≤◌, refl, arith, some, none, update, Bool}
use linux_fibers.Threads.{
  numbered, Team, create_threads, load_counter, compare_and_swap, end_thread, tid_of, TeamReach,
  here, next, loads, swaps,
}
use linux_fibers.Threads.Numbers.{tid_unique, end_thread-twice}

abbrev raced : Team
unfolding load_counter compare_and_swap
raced = compare_and_swap 1 (
    load_counter 1
      (compare_and_swap 1 (compare_and_swap 0 (load_counter 1 (load_counter 0 create_threads)))))

raced_reached : TeamReach 2 create_threads raced
unfolding load_counter compare_and_swap
raced_reached =
    next
      (next
        (next
          (next (next (next here (loads 0 (omega arith))) (loads 1 (omega arith)))
            (swaps 0 (omega arith)))
          (swaps 1 (omega arith)))
        (loads 1 (omega arith)))
      (swaps 1 (omega arith))

raced_numbered : tid_of (raced.places 0) ≢ 0
unfolding raced
raced_numbered = omega arith

tid_unique_example :
    (tid_of (raced.places 0) ≢ tid_of (raced.places 1))
    × (tid_of (raced.places 0) ≤ raced.thread_counter)
tid_unique_example =
    tid_unique (omega arith) raced_reached 0 1 (omega arith) (omega arith) (omega arith)
      raced_numbered

abbrev both_running : Team
both_running = record {
  thread_counter = 2;
  places = update (λ _. numbered 2) 0 (numbered 1);
  arg_live = Bool.true;
}

end_thread-twice_example :
    (s' : Team) × ((end_thread 0 both_running ≡ some s') × (end_thread 1 s' ≡ none))
end_thread-twice_example = end_thread-twice 0 1 1 2 both_running refl refl (omega arith) refl
