-- ===== src/Reading/Text.antt =====
-- The text of the statistics fits its buffer and is a C string.
use linux_fibers.Common.{
  ℕ, zero, suc, ◌==◌, ◌≤◌, ◌<◌, ◌≡◌, refl, true, Bool-cases, inl, inr, List, [], ◌∷◌, length,
  length-append, All, ◌*◌, arith,
}
use linux_fibers.Kernel.{Ptr, Fiber}
use linux_fibers.Entries.Decimal.{no_zero, no_zero-append, length-decimal, no_zero-decimal}
use linux_fibers.Reading.{strnlen, stat_text, join, pieces, fib_log_len, print_word}

pub strnlen-no_zero :
    (xs : List ℕ) (n : ℕ) → no_zero xs ≡ true → length xs ≤ n → strnlen xs n ≡ length xs
unfolding strnlen
strnlen-no_zero [] zero h le = refl
strnlen-no_zero [] (suc n) h le = refl
strnlen-no_zero (x ∷ xs) zero h le = absurd (omega arith)
strnlen-no_zero (x ∷ xs) (suc n) h le = elim (Bool-cases (x == 0)) [
  | inl e ↦ ground (arith, e, h)
  | inr e ↦ rw (e, strnlen-no_zero xs n (ground (arith, e, h)) (omega arith)) refl
]

-- At most 60 bytes, none of them zero.
abbrev pub Short : List ℕ → Type 0
Short xs = (length xs ≤ 60) × (no_zero xs ≡ true)

Short-print_word : (n : ℕ) → Short (print_word n)
Short-print_word n = (omega (arith, length-decimal 20 n []), no_zero-decimal 20 n [] refl)

abbrev count : List (List ℕ) → ℕ
count [] = 0
count (p ∷ ps) = suc (count ps)

length-join : (ps : List (List ℕ)) → All Short ps → length (join ps) ≤ 60 * count ps
length-join [] h = omega arith
length-join (p ∷ ps) h = omega (arith, length-append p (join ps), length-join ps h.1, h.0.0)

no_zero-join : (ps : List (List ℕ)) → All Short ps → no_zero (join ps) ≡ true
no_zero-join [] h = refl
no_zero-join (p ∷ ps) h = no_zero-append p (join ps) h.0.1 (no_zero-join ps h.1)

module _ (print_pointer : Ptr → List ℕ) (f : Fiber)
    (pointer : Short (print_pointer f.entry_point)) where
  Short-pieces : All Short (pieces print_pointer f)
  Short-pieces = (
    (omega arith, refl),
    (
      (ground arith, ground arith),
      (
        (omega arith, refl),
        (
          pointer,
          (
            (omega arith, refl),
            (
              Short-print_word _,
              (
                (omega arith, refl),
                (
                  Short-print_word _,
                  (
                    (omega arith, refl),
                    (
                      Short-print_word _,
                      ((omega arith, refl), (Short-print_word _, ((omega arith, refl), tt))),
                    ),
                  ),
                ),
              ),
            ),
          ),
        ),
      ),
    ),
  )

  -- The text fits the buffer with its terminating zero, and strnlen counts all of it.
  pub stat_text-fits :
      (length (stat_text print_pointer f) < fib_log_len)
      × (strnlen (stat_text print_pointer f) fib_log_len ≡ length (stat_text print_pointer f))
  unfolding stat_text
  stat_text-fits =
      let fits : length (join (pieces print_pointer f)) < fib_log_len =
        omega (arith, length-join (pieces print_pointer f) Short-pieces) in
      (
        fits,
        strnlen-no_zero _ _ (no_zero-join (pieces print_pointer f) Short-pieces)
            (omega (arith, fits)),
      )
