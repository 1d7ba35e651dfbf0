-- ===== src/Ult/Valid.antt =====
-- What holds of the state of ult.c between two calls, and that each outcome of a call keeps it.
use linux_fibers.Common.{ℕ, ◌≡◌, ◌≢◌, ◌≤◌, ◌<◌, refl, ap, arith, true, false, some, none}
use native.Mathlib.Decide.{ℕ_discrete}
use linux_fibers.Kernel.{Ptr, null}
use linux_fibers.Ult.Machine.{Context, Ult, Ults, Run, ran}
use linux_fibers.Ult.Laws.{converted, with_fiber, switched}

-- What a thread runs is live, and locked; no two threads run the same.
pub record IsUlt (s : Ults) : Type 0 where
  pub held :
      (t : ℕ)
      → s.current t ≢ null
      → (u : Ult) × (s.ults (s.current t) ≡ some u) × (u.running ≡ true)
  pub apart : (t t' : ℕ) → t ≢ t' → s.current t ≢ null → s.current t ≢ s.current t'
  pub no_null : s.ults null ≡ none
  pub positive : s.next_address ≢ null
  pub fresh : (p : Ptr) → s.next_address ≤ p → s.ults p ≡ none

state_of : {A : Type 0} → Ults → Run A → Ults
state_of d (ran a s) = s
state_of d _ = d

pub ran-injective : {A : Type 0} {a b : A} {s s' : Ults} → ran a s ≡ ran b s' → s ≡ s'
unfolding state_of
ran-injective {s = s} e = ap (state_of s) e

module _ (s : Ults) (v : IsUlt s) where
  pub below : (t : ℕ) → s.current t ≢ null → s.current t < s.next_address
  below t ne = let (u, at, run) = v.held t ne in ground (arith, at, v.fresh (s.current t))

  pub converted-IsUlt : (t : ℕ) → IsUlt (converted t s)
  converted-IsUlt t = record {
    held = λ t' ne. elim (ℕ_discrete t' t) [
      | yes e ↦
          (record { running = true; context = s.cpu t; id = s.ult_id }, ground (arith, e), refl)
      | no n ↦
          let (u, at, run) = v.held t' (ground (arith, ne, n)) in
          (u, ground (arith, n, at, below t' (ground (arith, ne, n))), run)
    ];
    apart = λ t' u n ne e. ground (arith, n, ne, e, below t', below u, v.apart t' u);
    no_null = ground (arith, v.no_null, v.positive);
    positive = omega arith;
    fresh = λ p le. ground (arith, le, v.fresh p);
  }

  pub created-IsUlt :
      (t : ℕ) (w : Ult) (entry_point args : ℕ)
      → s.current t ≢ null
      → s.ults (s.current t) ≡ some w
      → w.running ≡ true
      → IsUlt (with_fiber (s.current t) w entry_point args s)
  created-IsUlt t w entry_point args ne at run = record {
    held = λ t' ne'.
        let (u, at', run') = v.held t' ne' in
        elim (ℕ_discrete (s.current t') (s.current t)) [
          | yes e ↦ (record w { context = Context.creating }, ground (arith, e), run)
          | no n ↦ (u, ground (arith, n, at', below t' ne'), run')
        ];
    apart = v.apart;
    no_null = ground (arith, v.no_null, v.positive, ne);
    positive = omega arith;
    fresh = λ p le. ground (arith, le, v.fresh p, below t ne);
  }

  -- What a thread runs is not free.
  pub not_free :
      (to : Ptr) (x : Ult)
      → s.ults to ≡ some x
      → x.running ≡ false
      → (t : ℕ) → s.current t ≢ null
      → s.current t ≢ to
  not_free to x at free t ne e =
      let (u, at', run) = v.held t ne in ground (arith, at, free, e, at', run)

  pub switched-IsUlt :
      (t : ℕ) (w : Ult) (to : Ptr) (x : Ult)
      → s.current t ≢ null
      → s.ults (s.current t) ≡ some w
      → w.running ≡ true
      → to ≢ null
      → s.ults to ≡ some x
      → x.running ≡ false
      → IsUlt (switched t s (s.current t) w to x)
  switched-IsUlt t w to x ne at run ne' at' free = record {
    held = λ t' n'. elim (ℕ_discrete t' t) [
      | yes e ↦ (record x { running = true }, ground (arith, e, at, at', run, free), refl)
      | no n ↦
          let (u, at'', run') = v.held t' (ground (arith, n', n)) in
          (
            u,
            ground (arith, n, at'', run', at', free, v.apart t' t n (ground (arith, n', n))),
            run',
          )
    ];
    apart = λ t' u n n' e.
        ground
          (arith, n, n', e, v.apart t' u, not_free to x at' free t', not_free to x at' free u, ne');
    no_null = ground (arith, v.no_null, ne, ne');
    positive = v.positive;
    fresh = λ p le. ground (arith, le, v.fresh p, below t ne, at');
  }
