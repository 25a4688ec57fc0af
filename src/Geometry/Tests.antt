-- ===== src/Geometry/Tests.antt =====
-- Rectangles and monitors at concrete inputs, over a processor of whole numbers.
use contextsnap.Base.{
  All, List, Member, String, [], arith, codes, false, none, refl, some, true, ℕ, ◌&&◌, ◌↔◌, ◌∷◌,
  ◌≡◌,
}
use contextsnap.Base.Int.{to_int32, negsuc, pos, ◌+ℤ◌, ◌-ℤ◌, ◌≤ℤ◌}
use contextsnap.Base.WholeFpu.{whole_fpu}
use contextsnap.Base.Double.{bits}
use contextsnap.Types.{MonitorInfo, Rect}
use contextsnap.Geometry.{
  bottom, clamp_into, contains, empty, intersection, intersection_area, right, union_of,
}
use contextsnap.Geometry.Rects.{
  IsInside, clamp_into-IsInside, clamp_into-eq_self, contains-intersection,
}
use contextsnap.Geometry.Monitors.{centre_distance, owning_monitor, remap_frame}
use contextsnap.Geometry.Monitors.Owner.{overlap, owning_monitor-eq-none_iff, owning_monitor_lem}
use contextsnap.Geometry.Monitors.Remap.{DistinctIds, IsPlaced, remap_frame-IsPlaced, source_of}

abbrev box : ℕ → ℕ → ℕ → ℕ → Rect
box l t w h = record { x = pos l; y = pos t; width = pos w; height = pos h }

abbrev monitor : String → Rect → MonitorInfo
monitor name r = record {
  id = codes name;
  name = codes name;
  bounds = r;
  work_area = r;
  dpi = 96;
  scale_factor = bits 1;
  refresh_hz = 60;
  orientation = codes "landscape";
  primary = false;
  edid_hash = none;
}

abbrev layout : List MonitorInfo
layout = monitor "left" (box 0 0 1920 1080) ∷ monitor "right" (box 1920 0 1920 1080) ∷ []

intersection_test : intersection (box 0 0 10 10) (box 4 6 10 10) ≡ box 4 6 6 4
unfolding intersection ◌+ℤ◌ ◌-ℤ◌
intersection_test = refl

union_test : union_of (box 0 0 10 10) (box 4 6 10 10) ≡ box 0 0 14 16
unfolding union_of ◌+ℤ◌ ◌-ℤ◌
union_test = refl

clamp_test : clamp_into (box 1900 20 400 9000) (box 0 0 1920 1080) ≡ box 1520 0 400 1080
unfolding clamp_into ◌+ℤ◌ ◌-ℤ◌
clamp_test = refl

int32_test : to_int32 (pos 4294967295) ≡ negsuc 0
unfolding to_int32
int32_test = refl

owner_test :
    owning_monitor whole_fpu (bits 1000000) (box 1800 0 400 100) layout
    ≡ some (monitor "right" (box 1920 0 1920 1080))
unfolding owning_monitor intersection_area centre_distance ◌+ℤ◌ ◌-ℤ◌
owner_test = refl

contains-intersection_example :
    contains (intersection (box 0 0 10 10) (box 4 6 10 10)) (pos 5) (pos 7)
    ≡ (contains (box 0 0 10 10) (pos 5) (pos 7) && contains (box 4 6 10 10) (pos 5) (pos 7))
contains-intersection_example =
    contains-intersection (box 0 0 10 10) (box 4 6 10 10) (pos 5) (pos 7)

work : Rect
work = box 0 0 1920 1080

clamp_into-IsInside_example :
    IsInside (clamp_into (box 1900 20 400 9000) work) work
    × (pos 1 ≤ℤ (clamp_into (box 1900 20 400 9000) work).width)
    × (pos 1 ≤ℤ (clamp_into (box 1900 20 400 9000) work).height)
clamp_into-IsInside_example =
    clamp_into-IsInside (box 1900 20 400 9000) work (unfold empty work in refl)

IsInside-work : IsInside (box 10 10 400 300) (box 0 0 1920 1080)
unfolding right bottom ◌+ℤ◌
IsInside-work = omega arith

clamp_into-eq_self_example : clamp_into (box 10 10 400 300) (box 0 0 1920 1080) ≡ box 10 10 400 300
clamp_into-eq_self_example =
    clamp_into-eq_self (box 10 10 400 300) (box 0 0 1920 1080) IsInside-work (omega arith)
      (omega arith)

owning_monitor_lem_example :
    Member (monitor "right" (box 1920 0 1920 1080)) layout
    × All
        (λ n.
          overlap (box 1800 0 400 100) n
          ≤ℤ overlap (box 1800 0 400 100) (monitor "right" (box 1920 0 1920 1080)))
        layout
owning_monitor_lem_example =
    owning_monitor_lem whole_fpu (bits 1000000) (box 1800 0 400 100) layout
      (monitor "right" (box 1920 0 1920 1080)) owner_test

near : (m : MonitorInfo) → whole_fpu.lt (centre_distance whole_fpu work m.bounds) (bits 1) ≡ true
unfolding centre_distance
near m = refl

owning_monitor-eq-none_iff_example :
    (owning_monitor whole_fpu (bits 1) work layout ≡ none) ↔ (layout ≡ [])
owning_monitor-eq-none_iff_example = owning_monitor-eq-none_iff whole_fpu (bits 1) work layout near

-- The display on the left has lost a part of its height since the capture.
abbrev lower : List MonitorInfo
lower = monitor "left" (box 0 0 1920 600) ∷ []

remap_frame-IsPlaced_example :
    IsPlaced whole_fpu work
      (source_of whole_fpu (bits 1) work (codes "left") layout)
      lower
      (remap_frame whole_fpu (bits 1) work (codes "left") layout lower)
remap_frame-IsPlaced_example =
    remap_frame-IsPlaced whole_fpu (bits 1) work (codes "left") layout lower (λ e. cc)

distinct : DistinctIds layout
distinct = (((λ e. cc), tt), (tt, tt))
