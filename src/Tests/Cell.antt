-- ===== src/Tests/Cell.antt =====
-- A cell over whole numbers, and a C library whose random() is always 12345.
use linux_fibers.Common.{
  ℕ, ◌+◌, ◌<◌, ◌≡◌, refl, arith, Bool, true, false, [], ◌∷◌, some, none, update, pos,
}
use linux_fibers.Doubles.{IsSigned}
use linux_fibers.Random.{Generator}
use linux_fibers.Random.Laws.{IsRunning, draws, draws-IsRunning}
use linux_fibers.Cell.Machine.{Cell, World, ◌>>◌}
use linux_fibers.Cell.Radio.{allocation, deallocation, has_bit, has_id, channels_in_cell}
use linux_fibers.Cell.{main_start, main_loop, new_cell}
use linux_fibers.Cell.Valid.{IsWired}
use linux_fibers.Cell.Effects.{Ends}
use linux_fibers.Cell.Allocation.{IsAllocated, IsDeallocated, allocation-Ends, deallocation-Ends}
use linux_fibers.Cell.Steps.{IsBusy}
use linux_fibers.Cell.Start.{fiber_runs}
use linux_fibers.Tests.Calendar.{tenths, tenths-IsOrder, raw}

abbrev libc : ℕ → ℕ × ℕ
libc n = (12345, n + 1)

abbrev junk_words : ℕ → ℕ → Bool
junk_words w k = true

tenths-IsSigned : IsSigned ℕ
tenths-IsSigned = record { lit_nonneg = λ m e. ground arith; mul_nonneg = λ x y a b. ground arith }

abbrev cleared : Generator
cleared = record { seed1 = 0; seed2 = 0; libc_state = 7 }

draws-IsRunning_example : IsRunning (draws libc 5 cleared) × ((draws libc 5 cleared).libc_state ≡ 8)
draws-IsRunning_example = draws-IsRunning libc cleared refl refl (omega arith) (omega arith) 4

abbrev at_rest : World ℕ
at_rest = record { generator = cleared; cell = none; queue = raw }

fiber_runs_example :
    Ends
      (λ _ w'. IsBusy 1 w' 1)
      ((main_start libc 9 junk_words 1 >> main_loop libc 9 junk_words 4 1) at_rest)
fiber_runs_example = fiber_runs tenths-IsOrder tenths-IsSigned libc 9 junk_words 3 1 at_rest

-- Channel 0 is taken.
abbrev one_call : Cell ℕ
one_call = record (new_cell libc 9 junk_words) {
  channel_counter = 999;
  channel_state = update (λ _ _. false) 0 (update (λ _. false) 0 true);
  channels = record { channel_id = 0; fading = 10; power = 30 } ∷ [];
}

one_call-IsWired : IsWired one_call
one_call-IsWired = record {
  size = refl;
  listed = (omega arith, (refl, tt));
  agrees = λ i p. agrees i p;
  duration = refl;
  arrivals = refl;
}
  where
    agrees : (i : ℕ) → i < channels_in_cell → has_bit i one_call ≡ has_id i one_call.channels
    agrees i p = ground (arith, p)

abbrev calling : World ℕ
calling = record { generator = cleared; cell = some one_call; queue = raw }

allocation-Ends_example :
    Ends (IsAllocated tenths-IsSigned libc 9 calling one_call) (allocation libc 9 calling)
allocation-Ends_example =
    allocation-Ends tenths-IsSigned libc 9 calling one_call refl one_call-IsWired (omega arith)

deallocation-Ends_example :
    Ends
      (λ _. IsDeallocated tenths-IsSigned libc 9 calling one_call 0)
      (deallocation libc 9 (pos 0) calling)
deallocation-Ends_example =
    deallocation-Ends tenths-IsSigned libc 9 0 calling one_call refl one_call-IsWired (omega arith)
      refl
