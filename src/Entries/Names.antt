-- ===== src/Entries/Names.antt =====
-- The name of a fiber in the listing: what the digits behind its "f" write.
use mathlib.Core.List.{append_assoc, append-nil}
use linux_fibers.Common.{
  ℕ, zero, suc, ◌+◌, ◌-◌, ◌*◌, ◌^◌, ◌/◌, ◌%◌, ◌==◌, ◌≤◌, ◌<◌, ◌≡◌, ◌≢◌, ◌⊎◌, refl, sym, ap, subst,
  ◌∙◌, All, ==→ne, Bool-cases, inl, inr, List, [], ◌∷◌, ◌++◌, length, length-append, arith,
}
use linux_fibers.Entries.{decimal, fiber_name}

-- The number that digits write, the most significant first, after those that write n.
abbrev pub value_of : (n : ℕ) → List ℕ → ℕ
value_of n [] = n
value_of n (x ∷ xs) = value_of (10 * n + (x - 48)) xs

-- 10 to the power k.
abbrev pub tens : ℕ → ℕ
tens zero = 1
tens (suc k) = 10 * tens k

abbrev pub IsDigit : ℕ → Type 0
IsDigit x = (48 ≤ x) × (x ≤ 57)

-- `xs` writes n: decimal digits of its value, and as few as that takes.
pub record Writes (xs : List ℕ) (n : ℕ) : Type 0 where
  pub digits : All IsDigit xs
  pub value : value_of 0 xs ≡ n
  pub shortest : (k : ℕ) → length xs ≡ suc k → (k ≡ 0) ⊎ (tens k ≤ n)

value_of-append :
    (m x : ℕ) (xs : List ℕ) → value_of m (xs ++ x ∷ []) ≡ 10 * value_of m xs + (x - 48)
value_of-append m x [] = refl
value_of-append m x (y ∷ ys) = value_of-append (10 * m + (y - 48)) x ys

All-append_one : (xs : List ℕ) (x : ℕ) → All IsDigit xs → IsDigit x → All IsDigit (xs ++ x ∷ [])
All-append_one [] x h d = (d, tt)
All-append_one (y ∷ ys) x (h, hs) d = (h, All-append_one ys x hs d)

-- One digit more.
Writes-next :
    (xs : List ℕ) (n : ℕ) → n / 10 ≢ 0 → Writes xs (n / 10) → Writes (xs ++ (48 + n % 10) ∷ []) n
Writes-next xs n ne w = record {
  digits = All-append_one xs (48 + n % 10) w.digits (omega arith, omega arith);
  value = value_of-append 0 (48 + n % 10) xs ∙ omega (arith, w.value);
  shortest = shorter;
}
  where
    shorter : (k : ℕ) → length (xs ++ (48 + n % 10) ∷ []) ≡ suc k → (k ≡ 0) ⊎ (tens k ≤ n)
    shorter zero e = inl refl
    shorter (suc k) e =
        let l : length xs ≡ suc k = omega (arith, length-append xs ((48 + n % 10) ∷ []), e) in
        elim (w.shortest k l) [
          | inl z ↦ inr (subst (λ j. tens (suc j) ≤ n) (sym z) (omega (arith, ne)))
          | inr le ↦ inr (omega (arith, le))
        ]

decimal-Writes :
    (fuel n : ℕ) (rest : List ℕ)
    → n < tens (suc fuel)
    → (xs : List ℕ) × (decimal (suc fuel) n rest ≡ xs ++ rest) × Writes xs n
unfolding decimal
decimal-Writes zero n rest h = (
  (48 + n % 10) ∷ [],
  ground (arith, h),
  record {
    digits = ((omega arith, omega arith), tt);
    value = omega (arith, h);
    shortest = λ k e. inl (omega (arith, e));
  },
)
decimal-Writes (suc fuel) n rest h = elim (Bool-cases (n / 10 == 0)) [
  | inl e ↦ (
    (48 + n % 10) ∷ [],
    rw e refl,
    record {
      digits = ((omega arith, omega arith), tt);
      value = ground (arith, e);
      shortest = λ k l. inl (omega (arith, l));
    },
  )
  | inr e ↦
      let (xs, is, w) = decimal-Writes fuel (n / 10) ((48 + n % 10) ∷ rest) (omega (arith, h)) in
      (
        xs ++ (48 + n % 10) ∷ [],
        rw e (is ∙ sym (append_assoc xs ((48 + n % 10) ∷ []) rest)),
        Writes-next xs n (==→ne (n / 10) 0 e) w,
      )
]

-- For an id below 10^10, so for every id that is not negative, the name of a fiber is the letter
-- f and then decimal digits, as few as it takes, which read back give the id.
pub fiber_name-Writes :
    (id : ℕ) → id < 10 ^ 10 → (xs : List ℕ) × (fiber_name id ≡ b'f' ∷ xs) × Writes xs id
unfolding fiber_name
fiber_name-Writes id h =
    let (xs, is, w) = decimal-Writes 9 id [] h in (xs, ap (λ l. b'f' ∷ l) (is ∙ append-nil xs), w)
