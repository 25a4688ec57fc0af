-- ===== src/Geometry.antt =====
-- src/core/geometry.cpp and `Rect` of include/contextsnap/core/types.hpp. Coordinates are `int32_t`;
-- they are exact integers here, since a C++ sum that leaves the range is undefined.
pub mod Rects
pub mod Monitors
mod Tests
-- `std::max`, `std::min` and `std::clamp` at integers.
use contextsnap.Base.{Bool, List, [], if◌then◌else◌, not, ◌&&◌, ◌+◌, ◌==◌, ◌||◌, ◌∷◌}
use contextsnap.Base.Int.{ltb_ℤ, neg_part, pos, pos_part, ℤ, ◌*ℤ◌, ◌+ℤ◌, ◌-ℤ◌}
use contextsnap.Types.{MonitorInfo, Rect}

unfoldable pub int_max : ℤ → ℤ → ℤ
int_max a b = if ltb_ℤ a b then b else a

unfoldable pub int_min : ℤ → ℤ → ℤ
int_min a b = if ltb_ℤ b a then b else a

unfoldable pub int_clamp : ℤ → ℤ → ℤ → ℤ
int_clamp v lo hi = if ltb_ℤ v lo then lo else if ltb_ℤ hi v then hi else v

abbrev pub int_eq : ℤ → ℤ → Bool
int_eq a b = pos_part a + neg_part b == pos_part b + neg_part a

unfoldable pub right : Rect → ℤ
right r = r.x +ℤ r.width

unfoldable pub bottom : Rect → ℤ
bottom r = r.y +ℤ r.height

-- An `int64_t`, which holds the product of two `int32_t`s.
unfoldable pub area : Rect → ℤ
unfolding ◌*ℤ◌
area r = r.width *ℤ r.height

unfoldable pub empty : Rect → Bool
empty r = not (ltb_ℤ (pos 0) r.width) || not (ltb_ℤ (pos 0) r.height)

unfoldable pub contains : Rect → ℤ → ℤ → Bool
unfolding right bottom
contains r px py =
    not (ltb_ℤ px r.x) && (ltb_ℤ px (right r) && (not (ltb_ℤ py r.y) && ltb_ℤ py (bottom r)))

unfoldable pub rect_eq : Rect → Rect → Bool
rect_eq a b =
    int_eq a.x b.x && (int_eq a.y b.y && (int_eq a.width b.width && int_eq a.height b.height))

-- `Rect{}`.
abbrev pub zero_rect : Rect
zero_rect = record { x = pos 0; y = pos 0; width = pos 0; height = pos 0 }

abbrev pub span : ℤ → ℤ → ℤ → ℤ → Rect
span l t r b = record { x = l; y = t; width = r -ℤ l; height = b -ℤ t }

unfoldable pub intersection : Rect → Rect → Rect
unfolding int_max int_min right bottom
intersection a b =
    let l = int_max a.x b.x in
    let t = int_max a.y b.y in
    let r = int_min (right a) (right b) in
    let d = int_min (bottom a) (bottom b) in
    if not (ltb_ℤ l r) || not (ltb_ℤ t d) then zero_rect else span l t r d

unfoldable pub union_of : Rect → Rect → Rect
unfolding int_max int_min right bottom empty
union_of a b =
    if empty a
    then b
    else if empty b
    then a
    else span (int_min a.x b.x) (int_min a.y b.y) (int_max (right a) (right b))
        (int_max (bottom a) (bottom b))

unfoldable pub intersection_area : Rect → Rect → ℤ
unfolding intersection area
intersection_area a b = area (intersection a b)

unfoldable pub intersects : Rect → Rect → Bool
unfolding intersection empty
intersects a b = not (empty (intersection a b))

bounds_from : Rect → List MonitorInfo → Rect
bounds_from bounds [] = bounds
bounds_from bounds (m ∷ ms) = bounds_from (union_of bounds m.bounds) ms

unfoldable pub virtual_bounds : List MonitorInfo → Rect
unfolding bounds_from union_of
virtual_bounds monitors = bounds_from zero_rect monitors

unfoldable pub clamp_into : Rect → Rect → Rect
unfolding int_max int_min int_clamp right bottom empty
clamp_into frame work_area =
    if empty work_area
    then frame
    else let w = int_max (int_min frame.width work_area.width) (pos 1) in
      let h = int_max (int_min frame.height work_area.height) (pos 1) in
      record {
        x = int_clamp frame.x work_area.x (right work_area -ℤ w);
        y = int_clamp frame.y work_area.y (bottom work_area -ℤ h);
        width = w;
        height = h;
      }
