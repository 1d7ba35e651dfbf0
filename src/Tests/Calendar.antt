-- ===== src/Tests/Calendar.antt =====
-- A calendar queue over whole numbers as times.
use linux_fibers.Common.{
  ℕ, zero, suc, ◌+◌, ◌-◌, ◌*◌, ◌/◌, ◌^◌, ◌==◌, ◌<◌, ◌≡◌, refl, ltb, leb, if◌then◌else◌, pos, negsuc,
  List, [], ◌∷◌, Option, some, none, true, false, inl, ◌++◌, All, update, arith,
}
use linux_fibers.Doubles.{Doubles, IsOrder, IsTotal}
use linux_fibers.Calendar.Machine.{Node, Queue, Run, ran, negative, fault, stuck, ◌>>◌, calqspace}
use linux_fibers.Calendar.Buckets.{insert_sorted, scan, locate}
use linux_fibers.Calendar.{
  calqueue_put, calqueue_get, calqueue_deq, calqueue_init, resize, resize_with, new_width,
}
use linux_fibers.Calendar.Valid.{IsCalendar, Ends}
use linux_fibers.Calendar.Steps.{event}
use linux_fibers.Calendar.Locate.{scan_lem}
use linux_fibers.Calendar.Round.{IsRound, with_top}
use linux_fibers.Calendar.Width.{IsUndisturbed, new_width-Ends}
use linux_fibers.Calendar.Laws.{IsQueue, IsResized, resize_with-Ends, resize-IsQuiet}
use linux_fibers.Calendar.Bag.{
  IsPut, IsServed, puts, gets, history, IsBalanced, calqueue_put-Ends, calqueue_deq-Ends,
  history-Balanced,
}
use linux_fibers.Calendar.Sorted.{
  IsSorted, IsNumber, IsLeast, not_after, from_later, insert_sorted-split, locate-Least,
}

-- Tenths; a quotient by zero is 0.
instance abbrev pub tenths : Doubles ℕ
tenths = record {
  lit = λ m e. if e == 0 then 10 * m else m;
  of_int = λ n. 10 * n;
  add = λ a b. a + b;
  sub = λ a b. a - b;
  mul = λ a b. a * b / 10;
  div = λ a b. if b == 0 then 0 else 10 * a / b;
  neg = λ a. a;
  log = λ a. a;
  pow = λ a b. a ^ b;
  lt = ltb;
  le = leb;
  is_zero = λ a. a == 0;
  to_int = λ a. pos (a / 10);
  to_long = λ a. pos (a / 10);
}

abbrev pub raw : {P : Type 0} → Queue ℕ P
raw = record {
  calq = λ _. [];
  firstsub = 0;
  nbuckets = 0;
  qsize = 0;
  lastbucket = pos 0;
  resize_enabled = false;
  top_threshold = pos 0;
  bot_threshold = pos 0;
  lastprio = 0;
  buckettop = 0;
  cwidth = 0;
}

abbrev result : {A : Type 0} → Run (Queue ℕ ℕ) A → Option A
result (ran a q) = some a
result negative = none
result fault = none
result stuck = none

first_event :
    result (
      (calqueue_init
          >> (calqueue_put 1 30 3
              >> (calqueue_put 1 70 7
                  >> (calqueue_put 1 50 5
                      >> (calqueue_put 1 70 8
                          >> (calqueue_put 1 10 1 >> (calqueue_put 1 20 2 >> calqueue_get 1)))))))
        raw)
    ≡ some (some 1)
unfolding calqueue_init calqueue_put calqueue_get
first_event = refl

-- After two direct searches 53 comes before 42: the top of the bucket is a whole year ahead.
out_of_order :
    result (
      (calqueue_init
          >> (calqueue_put 1 37 1
              >> (calqueue_get 1
                  >> (calqueue_put 1 37 2
                      >> (calqueue_get 1
                          >> (calqueue_put 1 42 3 >> (calqueue_put 1 53 4 >> calqueue_get 1)))))))
        raw)
    ≡ some (some 4)
unfolding calqueue_init calqueue_put calqueue_get
out_of_order = refl

pub tenths-IsOrder : IsOrder ℕ
tenths-IsOrder = record {
  lt_irrefl = λ x. ground arith;
  lt_below = λ x y z a b. ground (arith, a, b);
}

tenths-IsTotal : IsTotal ℕ
tenths-IsTotal = record {
  lt_of_not_le = λ x y a b c. ground (arith, c);
  not_lt_of_le = λ x y a. ground (arith, a);
  not_lt_trans = λ x y z a b c. ground (arith, b, c);
}

-- Two buckets with three events.
abbrev three : Queue ℕ ℕ
three = record {
  calq = update (update (λ _. []) 0 (event 5 7 ∷ event 20 8 ∷ [])) 1 (event 12 9 ∷ []);
  firstsub = 0;
  nbuckets = 2;
  qsize = 3;
  lastbucket = pos 0;
  resize_enabled = true;
  top_threshold = pos 4;
  bot_threshold = negsuc 0;
  lastprio = 0;
  buckettop = 15;
  cwidth = 10;
}

three-IsCalendar : IsCalendar three
three-IsCalendar = record {
  power = (1, (omega arith, refl));
  place = inl refl;
  last = omega arith;
  size = refl;
  top = refl;
  bottom = refl;
}

three-IsQueue : IsQueue three
three-IsQueue = record { valid = three-IsCalendar; roomy = inl (omega arith); enabled = refl }

calqueue_put-Ends_example :
    Ends (λ _. IsPut tenths-IsOrder (event 17 4) three) (calqueue_put 1 17 4 three)
calqueue_put-Ends_example = calqueue_put-Ends tenths-IsOrder 0 17 4 three three-IsQueue

calqueue_deq-Ends_example : Ends (IsServed tenths-IsOrder three) (calqueue_deq 1 three)
calqueue_deq-Ends_example = calqueue_deq-Ends tenths-IsOrder 0 three three-IsQueue

history-Balanced_example :
    Ends (IsBalanced (puts 30 1 ∷ gets ∷ []) three) (history (puts 30 1 ∷ gets ∷ []) three)
history-Balanced_example =
    history-Balanced tenths-IsOrder (puts 30 1 ∷ gets ∷ []) three three-IsQueue

resize_with-Ends_example : Ends (λ _. IsResized 4 three) (resize_with (resize 0) 4 three)
resize_with-Ends_example =
    resize_with-Ends (resize 0) (resize-IsQuiet 0) tenths-IsOrder 4 2 three (omega arith) refl
      (omega arith) (inl (omega arith)) three-IsCalendar refl

new_width-Ends_example : Ends (λ _. IsUndisturbed three) (new_width (resize 0) three)
new_width-Ends_example =
    new_width-Ends (resize 0) (resize-IsQuiet 0) tenths-IsOrder three three-IsCalendar refl

three_in_array : (j : ℕ) → j < 2 → 0 + j < calqspace
three_in_array j h = omega (arith, h)

scan_lem_example :
    (o : Option ℕ) × ((q' : Queue ℕ ℕ) × ((scan 2 0 0 three ≡ ran o q') × IsRound 0 0 three o q'))
scan_lem_example = scan_lem 2 0 0 three three_in_array (omega arith) (omega arith) (omega arith)

abbrev two_at : List (Node ℕ ℕ)
two_at = event 5 7 ∷ event 20 8 ∷ []

two_at-IsSorted : IsSorted two_at
two_at-IsSorted = ((refl, tt), (tt, tt))

two_at-IsNumber : All IsNumber two_at
two_at-IsNumber = (refl, (refl, tt))

insert_sorted-split_example :
    insert_sorted (event 20 6) two_at ≡ not_after 20 two_at ++ event 20 6 ∷ from_later 20 two_at
insert_sorted-split_example =
    insert_sorted-split tenths-IsTotal (event 20 6) two_at refl two_at-IsNumber

three-IsSorted : (j : ℕ) → j < 2 → IsSorted (three.calq (0 + j)) × All IsNumber (three.calq (0 + j))
three-IsSorted zero h = (two_at-IsSorted, two_at-IsNumber)
three-IsSorted (suc zero) h = ((tt, tt), (refl, tt))
three-IsSorted (suc (suc j)) h = let no_way : ⊥ = omega (arith, h) in elim no_way [ ]

locate-Least_example :
    (i : ℕ) × ((t : ℕ) × ((locate three ≡ ran i (with_top t three))
        × ((i < 2)
            × ((e : Node ℕ ℕ) × ((r : List (Node ℕ ℕ)) × ((three.calq (0 + i) ≡ e ∷ r)
                    × IsLeast three i t e))))))
locate-Least_example =
    locate-Least tenths-IsOrder tenths-IsTotal 0 three three-IsCalendar refl (omega arith)
      three-IsSorted
