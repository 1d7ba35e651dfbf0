-- ===== src/Ult/Reach.antt =====
-- Histories of ult.c: threads convert themselves, create fibers, switch to fibers, use the storage
-- and run their code, one call at a time.
use linux_fibers.Common.{
  ℕ, ◌+◌, ◌%◌, ◌==◌, ◌≡◌, ◌≢◌, refl, sym, ◌∙◌, arith, if◌then◌else◌, Bool-cases, Option-cases, inl,
  inr, none, update, ltb, subst, ℤ, pos, negsuc,
}
use native.Mathlib.Decide.{ℕ_discrete, dec_le}
use linux_fibers.Kernel.{Ptr, null}
use linux_fibers.Ult.Machine.{Context, Ults, ran}
use linux_fibers.Interface.{aligned, stack_size_max}
use linux_fibers.Ult.{ult_convert, ult_creat, ult_switch_to, fls_set, fls_alloc, max_fls}
use linux_fibers.Fiber.{word}
use linux_fibers.Ult.Laws.{
  ult_convert_lem, ult_creat_lem, switch_free, switch_taken, switch_null, switch_dangling,
  switch_nobody, creat_big, creat_nobody,
}
use linux_fibers.Ult.Valid.{
  IsUlt, ran-injective, below, converted-IsUlt, created-IsUlt, switched-IsUlt,
}

pub data Step (s : Ults) : Ults → Type 0 where
  converts : {s' : Ults} {p : Ptr} (t : ℕ) → ult_convert t s ≡ ran p s' → Step s s'
  creates :
      {s' : Ults} {p : Ptr} (t page_size sigstksz stack_size entry_point args : ℕ)
      → ult_creat t page_size sigstksz stack_size entry_point args s ≡ ran p s'
      → Step s s'
  switches : {s' : Ults} (t : ℕ) (to : Ptr) → ult_switch_to t to s ≡ ran tt s' → Step s s'
  stores : {s' : Ults} (idx value : ℤ) → fls_set idx value s ≡ ran tt s' → Step s s'
  allocates : {s' : Ults} {idx : ℤ} → fls_alloc s ≡ ran idx s' → Step s s'
  computes : (t n : ℕ) → Step s (record s { cpu = update s.cpu t (Context.program n) })

pub data Reach (s : Ults) : Ults → Type 0 where
  here : Reach s s
  next : {s' s'' : Ults} → Reach s s' → Step s' s'' → Reach s s''

-- The storage is no part of it.
other_storage : (s : Ults) (f : ℕ → ℤ) (n : ℕ) → IsUlt s → IsUlt (record s { fls = f; fls_idx = n })
other_storage s f n v = record {
  held = v.held;
  apart = v.apart;
  no_null = v.no_null;
  positive = v.positive;
  fresh = v.fresh;
}

fls_set-IsUlt : (s s' : Ults) (idx value : ℤ) → IsUlt s → fls_set idx value s ≡ ran tt s' → IsUlt s'
unfolding fls_set
fls_set-IsUlt s s' (negsuc i) value v e = cc
fls_set-IsUlt s s' (pos i) value v e = elim (Bool-cases (ltb i max_fls)) [
  | inl inside ↦
      let after : ran tt (record s { fls = update s.fls i value }) ≡ ran tt s' =
        ground (arith, inside, e) in
      subst IsUlt (ran-injective after) (other_storage s (update s.fls i value) s.fls_idx v)
  | inr outside ↦ ground (arith, outside, e)
]

fls_alloc-IsUlt : (s s' : Ults) (idx : ℤ) → IsUlt s → fls_alloc s ≡ ran idx s' → IsUlt s'
unfolding fls_alloc
fls_alloc-IsUlt s s' idx v e =
    subst IsUlt (ran-injective e) (other_storage s s.fls ((s.fls_idx + 1) % word) v)

pub Step-IsUlt : {s s' : Ults} → Step s s' → IsUlt s → IsUlt s'
Step-IsUlt {s} (converts t e) v =
    subst IsUlt (ran-injective (sym (ult_convert_lem t s v.positive) ∙ e)) (converted-IsUlt s v t)
Step-IsUlt {s} (creates t page_size sigstksz stack_size entry_point args e) v =
    elim (ℕ_discrete (s.current t) null) [
      | yes z ↦
          let f = creat_nobody t s page_size sigstksz stack_size entry_point args z v.positive in cc
      | no ne ↦
          elim (dec_le (aligned page_size (if stack_size == 0 then sigstksz else stack_size))
            stack_size_max) [
              | no big ↦
                  let f =
                    creat_big t s page_size sigstksz stack_size entry_point args (omega arith) in
                  cc
              | yes fits ↦
                  let (w, at, run) = v.held t ne in
                  subst IsUlt
                    (ran-injective (
                      sym (
                        ult_creat_lem t s refl ne at run page_size sigstksz stack_size entry_point
                          args fits v.positive (omega (arith, below s v t ne)))
                      ∙ e))
                    (created-IsUlt s v t w entry_point args ne at run)
            ]
    ]
Step-IsUlt {s} {s'} (switches t to e) v = elim (ℕ_discrete to null) [
  | yes z ↦
      subst IsUlt
        (ran-injective (sym (switch_null t s) ∙ subst (λ q. ult_switch_to t q s ≡ ran tt s') z e)) v
  | no ne' ↦ elim (Option-cases (s.ults to)) [
    | inl none_there ↦ let f = switch_dangling t s to ne' none_there in cc
    | inr (x, at') ↦ elim (Bool-cases x.running) [
      | inl taken ↦ subst IsUlt (ran-injective (sym (switch_taken t s to x at' taken) ∙ e)) v
      | inr free ↦ elim (ℕ_discrete (s.current t) null) [
        | yes z ↦ let f = switch_nobody t s to x z ne' at' free in cc
        | no ne ↦
            let (w, at, run) = v.held t ne in
            subst IsUlt (ran-injective (sym (switch_free t s refl ne at run to x ne' at' free) ∙ e))
              (switched-IsUlt s v t w to x ne at run ne' at' free)
      ]
    ]
  ]
]
Step-IsUlt {s} {s'} (stores idx value e) v = fls_set-IsUlt s s' idx value v e
Step-IsUlt {s} {s'} (allocates {idx = idx} e) v = fls_alloc-IsUlt s s' idx v e
Step-IsUlt {s} (computes t n) v = record {
  held = v.held;
  apart = v.apart;
  no_null = v.no_null;
  positive = v.positive;
  fresh = v.fresh;
}

pub Reach-IsUlt : {s s' : Ults} → Reach s s' → IsUlt s → IsUlt s'
Reach-IsUlt here v = v
Reach-IsUlt (next r step) v = Step-IsUlt step (Reach-IsUlt r v)

-- The program when it starts: no thread has converted itself.
abbrev pub start : (ℕ → Context) → Ults
start cpu = record {
  ults = λ _. none;
  next_address = 16;
  ult_id = 0;
  current = λ _. null;
  cpu = cpu;
  fls = λ _. pos 0;
  fls_idx = 0;
}

pub start-IsUlt : (cpu : ℕ → Context) → IsUlt (start cpu)
start-IsUlt cpu = record {
  held = λ t ne. absurd (ne refl);
  apart = λ t t' n ne. absurd (ne refl);
  no_null = refl;
  positive = omega arith;
  fresh = λ p le. refl;
}

-- In every state that histories of ult.c reach from its start (any threads convert themselves,
-- create fibers, switch to fibers, use the storage and run their code, one call after another),
-- two different threads never have the same current fiber.
pub ult_exclusive :
    {cpu : ℕ → Context} {s : Ults}
    → Reach (start cpu) s
    → (t t' : ℕ) → t ≢ t'
    → s.current t ≢ null
    → s.current t ≢ s.current t'
ult_exclusive {cpu} r = (Reach-IsUlt r (start-IsUlt cpu)).apart
