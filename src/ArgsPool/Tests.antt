-- ===== src/ArgsPool/Tests.antt =====
-- A pool of 4 KiB at 0x1000, with its first block granted, and two threads that race for the next.
use geobacter.Prelude.{
  ℕ, ◌+◌, ◌%◌, ◌≤◌, ◌<◌, ◌≡◌, refl, none, some, [], ◌∷◌, map, arith, usize_mod, ltb, if◌then◌else◌,
  All, ℕ_discrete,
}
use geobacter.Prelude.Results.{ok, err}
use geobacter.Errors.{capacity_overflow}
use geobacter.Layout.{
  Layout, IsLayout, align_to, is_power_of_two, repeat, padding_needed_for, round_up,
}
use geobacter.ArgsPool.{
  Arena, Device, ArgsPool, IsValid, new, new_arena, attempt, alignment_padding, try_alloc, clone,
}
use geobacter.ArgsPool.Padding.{alignment_padding_lem}
use geobacter.ArgsPool.Grants.{Request, try_alloc-some}
use geobacter.ArgsPool.Construct.{IsArena}
use geobacter.ArgsPool.Race.{
  Block, System, load, exchange, retry, Reach, initial, step, init, Placed, Separated,
  Reach-Separated, LinesApart, Reach-LinesApart,
}

abbrev arena : Arena
arena = record {
  try_with_capacity = λ n. if ltb n 65536 then ok 4096 else err capacity_overflow;
  try_into_boxed_slice = λ p n. ok p;
}

arena-placed :
    (bytes ptr : ℕ) → arena.try_with_capacity bytes ≡ ok ptr → (1 ≤ ptr) × (ptr + bytes < usize_mod)
arena-placed bytes ptr h = ground arith

arena-kept : (ptr bytes b : ℕ) → arena.try_into_boxed_slice ptr bytes ≡ ok b → b ≡ ptr
arena-kept ptr bytes b h = ground arith

arena-IsArena : IsArena arena
arena-IsArena = record { placed = arena-placed; kept = arena-kept }

abbrev device : Device
device = record { alloc_granule = 4096; alloc_alignment = 64 }

abbrev fresh : ArgsPool
fresh = record { device = device; base = 4096; len = 4096; allocated = 4096 }

-- The arguments of a small kernel.
abbrev small : Layout
small = record { size = 24; align = 8 }

abbrev used : ArgsPool
used = record fresh { allocated = 4120 }

abbrev nearly_full : ArgsPool
nearly_full = record fresh { allocated = 8180 }

small-IsLayout : IsLayout small
small-IsLayout = record { log = 3; log_lt = omega arith; align_eq = refl; rounds = omega arith }

used-Request : Request used small
used-Request = record { layout = small-IsLayout; room = omega arith }

nearly_full-Request : Request nearly_full small
nearly_full-Request = record { layout = small-IsLayout; room = omega arith }

-- The second block starts on the next cache line.
second_block : try_alloc used small 2 ≡ (some 4224, record fresh { allocated = 4248 })
unfolding try_alloc align_to is_power_of_two attempt
second_block = refl

no_third : try_alloc nearly_full small 0 ≡ (none, nearly_full)
unfolding try_alloc align_to is_power_of_two attempt
no_third = refl

alignment_padding_example :
    (alignment_padding 4120 128 < 128) × ((4120 + alignment_padding 4120 128) % 128 ≡ 0)
alignment_padding_example =
    alignment_padding_lem 4120 128 (omega arith) (omega arith) (omega arith) (omega arith)

try_alloc_some_example :
    (4120 ≤ 4224)
    × (4224 < 4120 + 128)
    × (4224 % 8 ≡ 0)
    × (4224 % 128 ≡ 0)
    × (record fresh { allocated = 4248 } ≡ record used { allocated = 4224 + 24 })
    × IsValid (record fresh { allocated = 4248 })
try_alloc_some_example = try_alloc-some (omega arith) used-Request 2 second_block

small_pool : new arena device small 4 ≡ ok fresh
unfolding new repeat padding_needed_for round_up
small_pool = refl

-- A pool for 1000 kernels.
abbrev wide : ArgsPool
wide = record { device = device; base = 4096; len = 24000; allocated = 4096 }

wide_pool : new arena device small 1000 ≡ ok wide
unfolding new repeat padding_needed_for round_up
wide_pool = refl

wide-Request : Request wide small
wide-Request = record { layout = small-IsLayout; room = omega arith }

clone_fresh : clone arena wide ≡ some wide
unfolding clone new_arena
clone_fresh = refl

abbrev widened_small : Layout
widened_small = record { size = 24; align = 128 }

fresh-Request : Request fresh small
fresh-Request = record { layout = small-IsLayout; room = omega arith }

-- Threads 0 and 1 read the counter, 0 wins, 1 tries again and gets the next line.
record Run (p : ArgsPool) : Type 0 where
  last : System
  reach : Reach (init p) last

both_loaded : Run fresh
unfolding align_to is_power_of_two ℕ_discrete
both_loaded = record {
  last = _;
  reach =
      step {i = 1} (step {i = 0} initial (load small widened_small refl fresh-Request refl))
        (load small widened_small refl fresh-Request refl);
}

race : Run fresh
unfolding both_loaded attempt ℕ_discrete
race = record {
  last = _;
  reach =
      step {i = 1}
        (step {i = 1}
          (step {i = 0} both_loaded.reach (exchange widened_small 4096 4120 4096 refl refl refl))
          (retry widened_small 4096 4120 4096 refl refl))
        (exchange widened_small 4120 4248 4224 refl refl refl);
}

race_blocks : map Block.ptr race.last.blocks ≡ 4224 ∷ 4096 ∷ []
unfolding race
race_blocks = refl

Reach-Separated_example :
    All (Placed 4096 (4096 + 4096)) race.last.blocks × Separated race.last.blocks
Reach-Separated_example = Reach-Separated {p = fresh} (omega arith) race.reach

Reach-LinesApart_example : LinesApart race.last.blocks
Reach-LinesApart_example = Reach-LinesApart {p = fresh} (omega arith) race.reach

-- A thread that loads from the pool that is nearly full.
late : Run nearly_full
unfolding align_to is_power_of_two ℕ_discrete
late = record {
  last = _;
  reach = step {i = 0} initial (load small widened_small refl nearly_full-Request refl);
}
