-- ===== src/Entries/Decimal.antt =====
-- Numbers in decimal: how long they are and which bytes they have.
use linux_fibers.Common.{
  ℕ, zero, suc, ◌+◌, ◌/◌, ◌%◌, ◌==◌, ◌≤◌, ◌≡◌, if◌then◌else◌, true, false, Bool, Bool-cases, inl,
  inr, List, [], ◌∷◌, ◌++◌, length, arith,
}
use linux_fibers.Entries.{decimal}

-- No byte is the terminating zero.
abbrev pub no_zero : List ℕ → Bool
no_zero [] = true
no_zero (x ∷ xs) = if x == 0 then false else no_zero xs

pub no_zero-append :
    (xs ys : List ℕ) → no_zero xs ≡ true → no_zero ys ≡ true → no_zero (xs ++ ys) ≡ true
no_zero-append [] ys h h' = h'
no_zero-append (x ∷ xs) ys h h' = elim (Bool-cases (x == 0)) [
  | inl e ↦ ground (arith, e, h)
  | inr e ↦ rw e (no_zero-append xs ys (ground (arith, e, h)) h')
]

pub length-decimal :
    (fuel n : ℕ) (rest : List ℕ) → length (decimal fuel n rest) ≤ fuel + length rest
unfolding decimal
length-decimal zero n rest = omega arith
length-decimal (suc fuel) n rest = elim (Bool-cases (n / 10 == 0)) [
  | inl e ↦ rw e (omega arith)
  | inr e ↦ rw e (omega (arith, length-decimal fuel (n / 10) ((48 + n % 10) ∷ rest)))
]

pub no_zero-decimal :
    (fuel n : ℕ) (rest : List ℕ) → no_zero rest ≡ true → no_zero (decimal fuel n rest) ≡ true
unfolding decimal
no_zero-decimal zero n rest h = h
no_zero-decimal (suc fuel) n rest h = elim (Bool-cases (n / 10 == 0)) [
  | inl e ↦ rw e (ground (arith, h))
  | inr e ↦ rw e (no_zero-decimal fuel (n / 10) ((48 + n % 10) ∷ rest) (ground (arith, h)))
]
