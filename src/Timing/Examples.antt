-- ===== src/Timing/Examples.antt =====
-- Times on a 30 kHz carrier, near the end of the frame cycle.
use nr5g_basic_scheduler.Base.{◌≡◌, refl, arith}
use nr5g_basic_scheduler.Base.Int.{pos, negsuc}
use nr5g_basic_scheduler.Timing.{FrameTiming, IsValid, advanced, diff}
use nr5g_basic_scheduler.Timing.Diff.{diff-advanced}

abbrev late : FrameTiming
late = record { sfn = 1023; slot = 18; symbol = 0; slots_per_frame = 20 }

abbrev early : FrameTiming
early = record { sfn = 0; slot = 2; symbol = 0; slots_per_frame = 20 }

late-IsValid : IsValid late
late-IsValid = omega arith

early-IsValid : IsValid early
early-IsValid = omega arith

wraps_around : advanced late 4 ≡ early
unfolding advanced
wraps_around = refl

-- Exactly half a cycle ahead counts as half a cycle back.
half_cycle : diff (advanced late 10240) late ≡ negsuc 10239
unfolding advanced diff
half_cycle = refl

diff-advanced_example : diff (advanced late 4) late ≡ pos 4
diff-advanced_example = diff-advanced late 4 late-IsValid (omega arith)
