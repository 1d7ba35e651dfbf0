-- ===== src/Tests/Proc.antt =====
-- The theorems about /proc at the sample.
use linux_fibers.Common.{
  ◌≡◌, ltb, ◌&&◌, ◌-◌, ◌<◌, ◌≤◌, refl, arith, true, List, [], ◌∷◌, ℕ, ◌==◌, ◌+◌, if◌then◌else◌, pos,
  length, Bool,
}
use linux_fibers.Kernel.Store.{ok, ◌>>=◌}
use linux_fibers.Fiber.{fib_create}
use linux_fibers.Fiber.Create.{created, listed, new_fiber_at}
use linux_fibers.Entries.{fiber_name}
use linux_fibers.Entries.Names.{Writes, fiber_name-Writes}
use linux_fibers.Listing.{
  codes, Table, Probe, Dentry, Machine, pre_handler_readdir, pre_handler_lookup,
  post_handler_readdir,
}
use linux_fibers.Listing.Tables.{IsAttr, Extends, with_table}
use linux_fibers.Listing.Handlers.{shows, readdir-Extends, lookup-created}
use linux_fibers.Reading.{Reader, FilePath, take, stat_text, myread}
use linux_fibers.Reading.Text.{stat_text-fits}
use linux_fibers.Reading.Laws.{myread-whole, myread-part}
use linux_fibers.Tests.Sample.{
  user, second, blank, stuff, process, sample, sample-IsProcess, second-IsTarget,
}

-- A parser of one digit.
abbrev parse : List ℕ → ℕ → ℕ
parse (c ∷ []) v = if ltb 47 c && ltb c 58 then c - 48 else v
parse _ v = v

abbrev machine : Machine
machine = record {
  kstrtol = parse;
  listing_at = λ p. 5000 + p;
  stack_parent = 0;
  stack_myid = 0;
  stack_int = 3;
  stack_entry = blank;
}

-- The entries "fd" and "attr".
abbrev base : Table
base = record {
  address = 40;
  room = 2;
  entry = λ i.
      if i == 0
      then record blank { name = codes "fd" }
      else record blank { name = codes "attr"; iop = 8; fop = 9 };
}

abbrev probe : Probe
probe = record { dx = base; cx = 2; new_tgid_base_stuff = base; nlink = 2; next_table = 90 }

base-IsAttr : IsAttr base 1 2
base-IsAttr = record {
  lt = omega arith;
  named = refl;
  last = λ j a b. absurd (omega (arith, a, b));
}

-- /proc/7, /proc/7/fibers and /proc/self.
abbrev pid_dir : Dentry
pid_dir = record { name = codes "7"; parent_name = codes "proc" }

abbrev fibers_dir : Dentry
fibers_dir = record { name = codes "fibers"; parent_name = codes "7" }

abbrev nine_dir : Dentry
nine_dir = record { name = codes "9"; parent_name = codes "proc" }

fiber_name-Writes_example : (xs : List ℕ) × (fiber_name 1020 ≡ b'f' ∷ xs) × Writes xs 1020
fiber_name-Writes_example = fiber_name-Writes 1020 (omega arith)

readdir-Extends_example :
    (t : Table) × (pre_handler_readdir machine pid_dir probe sample
      ≡ ok (record (with_table probe t) { nlink = 3 }) sample)
    × (pre_handler_lookup machine pid_dir probe sample ≡ ok (with_table probe t) sample)
    × (post_handler_readdir (record (with_table probe t) { nlink = 3 }) ≡ with_table probe t)
    × Extends base 2 1 t
readdir-Extends_example =
    readdir-Extends machine pid_dir probe user sample sample-IsProcess refl refl (omega arith)
      (omega arith) 1 base-IsAttr

lookup-created_example :
    (fib_create user 400 5 8000 4096 >>= λ _. pre_handler_lookup machine fibers_dir probe) sample
    ≡ ok
        (shows machine 7 (listed 3 stuff) probe)
        (created [] process [] stuff (new_fiber_at user sample 400 5 8000 4096 process) sample)
lookup-created_example =
    lookup-created machine fibers_dir probe sample-IsProcess (omega arith) refl (omega arith) 400 5
      8000 4096 refl refl

abbrev reader : Reader
reader = record {
  kstrtoul = parse;
  kstrtol = parse;
  print_pointer = λ p. codes "0x64";
  stack_fib_id = 0;
  stack_tmp_pid = 0;
}

abbrev second_file : FilePath
second_file = record { name = codes "f2"; pid_name = codes "7" }

abbrev second_text : List ℕ
second_text = stat_text reader.print_pointer second

second_text_long : 16 < length second_text
unfolding stat_text
second_text_long = omega arith

second_text_short : length second_text ≤ 1024
second_text_short =
    omega (arith, (stat_text-fits reader.print_pointer second (omega arith, refl)).0)

myread-whole_example :
    (myread reader second_file true 1024 (record { off = 0; buf = [] }) sample
      ≡ ok
          (pos (length second_text), record { off = length second_text; buf = second_text })
          sample)
    × ((copy_ok : Bool) (len' : ℕ)
        → myread reader second_file copy_ok len'
            (record { off = length second_text; buf = second_text })
            sample
          ≡ ok (pos 0, record { off = length second_text; buf = second_text }) sample)
myread-whole_example =
    myread-whole reader second_file sample-IsProcess refl second-IsTarget (omega arith)
      (omega arith, refl) 1024 [] second_text_short

myread-part_example :
    (myread reader second_file true 16 (record { off = 0; buf = [] }) sample
      ≡ ok (pos 16, record { off = 16; buf = take 16 second_text }) sample)
    × (myread reader second_file true 16 (record { off = 16; buf = take 16 second_text }) sample
        ≡ ok (pos 16, record { off = 32; buf = take 16 second_text }) sample)
myread-part_example =
    myread-part reader second_file sample-IsProcess refl second-IsTarget (omega arith)
      (omega arith, refl) 16 [] (omega arith) second_text_long
