-- ===== src/Listing/Tables.antt =====
-- The entries that a process shows in /proc.
use linux_fibers.Common.{
  ℕ, zero, suc, ◌+◌, ◌*◌, ◌%◌, ◌^◌, ◌≡◌, ◌≤◌, ◌<◌, refl, ◌∙◌, arith, if◌then◌else◌, true, false,
  update, lt→ltb, subst,
}
use native.Mathlib.Nat.{mod-eq_of_lt}
use native.Mathlib.Decide.{ℕ_discrete}
use linux_fibers.Kernel.{PidEntry, Kernel}
use linux_fibers.Kernel.Store.{ok}
use linux_fibers.Fiber.{word, int_word}
use linux_fibers.Listing.{
  Table, Probe, Machine, same_name, fibers_name, attr_name, dir_mode, fibers_entry, copy_entries,
  append_entry, new_table, extend_table, entry_size,
}

-- The entry after `rounds` rounds from `i`: it has the operations of the last "attr" there.
abbrev pub with_attr : (rounds i : ℕ) → Table → PidEntry → PidEntry
with_attr zero i old e = e
with_attr (suc rounds) i old e = with_attr rounds (i + 1) old (
    if same_name (old.entry i).name attr_name
    then record e { iop = (old.entry i).iop; fop = (old.entry i).fop }
    else e)

copy_entries_lem :
    (rounds i : ℕ) (old new : Table) (e : PidEntry) (k : Kernel)
    → i + rounds ≤ old.room
    → i + rounds ≤ new.room
    → (f : ℕ → PidEntry) × (copy_entries rounds i old new e k
        ≡ ok (record new { entry = f }, with_attr rounds i old e) k)
      × ((j : ℕ) → j < i → f j ≡ new.entry j)
      × ((j : ℕ) → i ≤ j → j < i + rounds → f j ≡ old.entry j)
unfolding copy_entries
copy_entries_lem zero i old new e k a b =
    (new.entry, refl, (λ j h. refl), λ j h h'. absurd (omega arith))
copy_entries_lem (suc rounds) i old new e k a b =
    let e' =
      if same_name (old.entry i).name attr_name
      then record e { iop = (old.entry i).iop; fop = (old.entry i).fop }
      else e in
    let r =
      copy_entries_lem rounds (i + 1) old (record new { entry = update new.entry i (old.entry i) })
        e' k (omega arith) (omega arith) in
    let (f, run, below, from) = r in
    (
      f,
      rw (lt→ltb i old.room (omega arith), lt→ltb i new.room (omega arith), run),
      (λ j h. below j (omega arith) ∙ ground (arith, h)),
      λ j h h'. elim (ℕ_discrete j i) [
        | yes e ↦ below j (omega arith) ∙ ground (arith, e)
        | no ne ↦ from j (omega arith) (omega arith)
      ],
    )

-- `a` is the last entry below `n` with the name "attr".
pub record IsAttr (t : Table) (a n : ℕ) : Type 0 where
  pub lt : a < n
  pub named : same_name (t.entry a).name attr_name ≡ true
  pub last : (j : ℕ) → a < j → j < n → same_name (t.entry j).name attr_name ≡ false

with_attr-none :
    (rounds i : ℕ) (old : Table) (e : PidEntry)
    → ((j : ℕ) → i ≤ j → j < i + rounds → same_name (old.entry j).name attr_name ≡ false)
    → with_attr rounds i old e ≡ e
with_attr-none zero i old e h = refl
with_attr-none (suc rounds) i old e h =
    rw (h i (omega arith) (omega arith))
      (with_attr-none rounds (i + 1) old e (λ j a b. h j (omega arith) (omega arith)))

with_attr-last :
    (rounds i : ℕ) (old : Table) (e : PidEntry) (a : ℕ)
    → i ≤ a
    → IsAttr old a (i + rounds)
    → with_attr rounds i old e ≡ record e { iop = (old.entry a).iop; fop = (old.entry a).fop }
with_attr-last zero i old e a le h = absurd (omega (arith, h.lt))
with_attr-last (suc rounds) i old e a le h = elim (ℕ_discrete a i) [
  | yes same ↦
      rw (subst (λ j. same_name (old.entry j).name attr_name ≡ true) same h.named, same)
        (with_attr-none rounds (i + 1) old _ (λ j b c. h.last j (omega arith) (omega arith)))
  | no ne ↦
      with_attr-last rounds (i + 1) old _ a (omega arith) (record {
        lt = omega (arith, h.lt);
        named = h.named;
        last = λ j b c. h.last j b (omega arith);
      })
      ∙ ground arith
]

-- `t` shows the first `n` entries of `old` and then "fibers", with the operations of entry `a`.
pub record Extends (old : Table) (n a : ℕ) (t : Table) : Type 0 where
  pub kept : (j : ℕ) → j < n → t.entry j ≡ old.entry j
  pub name : (t.entry n).name ≡ fibers_name
  pub len : (t.entry n).len ≡ 6
  pub mode : (t.entry n).mode ≡ dir_mode
  pub iop : (t.entry n).iop ≡ (old.entry a).iop
  pub fop : (t.entry n).fop ≡ (old.entry a).fop

abbrev pub with_table : Probe → Table → Probe
with_table r t = record r {
  dx = t;
  cx = r.cx + 1;
  new_tgid_base_stuff = t;
  next_table = r.next_table + 1;
}

module _ (m : Machine) (r : Probe) (k : Kernel) (a : ℕ) (inside : r.cx ≤ r.dx.room)
    (small : entry_size * (r.cx + 1) < 2 ^ 31) (attr : IsAttr r.dx a r.cx) where
  new_table-room : (new_table r.cx r.next_table).room ≡ r.cx + 1
  unfolding new_table
  new_table-room = ground (arith, small)

  pub extend_table-Extends :
      (t : Table) × (extend_table m r k ≡ ok (with_table r t) k) × Extends r.dx r.cx a t
  unfolding extend_table append_entry
  extend_table-Extends =
      let c =
        copy_entries_lem r.cx 0 r.dx (new_table r.cx r.next_table) (fibers_entry m.stack_entry) k
          (omega (arith, inside)) (omega (arith, new_table-room)) in
      let (f, run, below, from) = c in
      let fits : r.cx % int_word ≡ r.cx = mod-eq_of_lt (omega (arith, small)) in
      let widened : (r.cx + 1) % word ≡ r.cx + 1 = mod-eq_of_lt (omega (arith, small)) in
      let shown = with_attr-last r.cx 0 r.dx (fibers_entry m.stack_entry) a (omega arith) (record {
        lt = omega (arith, attr.lt);
        named = attr.named;
        last = λ j b c. attr.last j b (omega arith);
      }) in
      let t = record (new_table r.cx r.next_table) {
        entry = update f r.cx (with_attr r.cx 0 r.dx (fibers_entry m.stack_entry));
      } in
      (
        t,
        rw
            (
              fits,
              lt→ltb r.cx (2 ^ 31) (omega (arith, small)),
              run,
              new_table-room,
              lt→ltb r.cx (r.cx + 1) (omega arith),
              widened,
            )
            refl,
        record {
          kept = λ j h. ground (arith, from j, h);
          name = rw shown (ground arith);
          len = rw shown (ground arith);
          mode = rw shown (ground arith);
          iop = rw shown (ground arith);
          fop = rw shown (ground arith);
        },
      )
