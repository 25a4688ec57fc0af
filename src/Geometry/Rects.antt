-- ===== src/Geometry/Rects.antt =====
-- What the operations on rectangles do to the points of the plane.
use contextsnap.Base.{
  Bool, arith, false, if◌then◌else◌, not, true, ◌&&◌, ◌||◌, ◌∙◌, ◌≡◌, ◌⊎◌, Bool-cases, inl, inr,
  refl, sym,
}
use contextsnap.Base.Int.{int_laws, ltb_ℤ, pos, ℤ, ◌+ℤ◌, ◌-ℤ◌, ◌≤ℤ◌, eq_of_parts}
use contextsnap.Types.{Rect}
use contextsnap.Geometry.{
  bottom, clamp_into, contains, empty, int_clamp, int_max, int_min, intersection, right, span,
  zero_rect,
}

add_sub : (l r : ℤ) → l +ℤ (r -ℤ l) ≡ r
add_sub l r = omega int_laws

abbrev in_range : ℤ → ℤ → ℤ → Bool
in_range l r p = not (ltb_ℤ p l) && ltb_ℤ p r

-- One axis: the common range of two ranges, and where it is empty.
common_range :
    (l r l' r' p : ℤ)
    → in_range (int_max l l') (int_min r r') p ≡ (in_range l r p && in_range l' r' p)
unfolding int_max int_min
common_range l r l' r' p = ground arith

range_nonempty : (l r p : ℤ) → in_range l r p ≡ true → ltb_ℤ l r ≡ true
range_nonempty l r p h = ground arith

contains-span :
    (l t r d px py : ℤ) → contains (span l t r d) px py ≡ (in_range l r px && in_range t d py)
unfolding contains
contains-span l t r d px py = rw (add_sub l r, add_sub t d) (ground arith)

contains-zero_rect : (px py : ℤ) → contains zero_rect px py ≡ false
unfolding contains right ◌+ℤ◌
contains-zero_rect px py = ground arith

guarded :
    (l t r d px py : ℤ)
    → contains (if not (ltb_ℤ l r) || not (ltb_ℤ t d) then zero_rect else span l t r d) px py
      ≡ (in_range l r px && in_range t d py)
guarded l t r d px py = elim (Bool-cases (ltb_ℤ l r)) [
  | inl wide ↦ elim (Bool-cases (ltb_ℤ t d)) [
    | inl high ↦ rw (wide, high) (contains-span l t r d px py)
    | inr flat ↦ rw (wide, flat) (contains-zero_rect px py ∙ sym (and_false _ (out t d py flat)))
  ]
  | inr thin ↦ rw thin (contains-zero_rect px py ∙ sym (false_and _ (out l r px thin)))
]
  where
    and_false : (x : Bool) {y : Bool} → y ≡ false → (x && y) ≡ false
    and_false true e = e
    and_false false e = refl

    false_and : {x : Bool} (y : Bool) → x ≡ false → (x && y) ≡ false
    false_and y e = rw e

    out : (l r p : ℤ) → ltb_ℤ l r ≡ false → in_range l r p ≡ false
    out l r p h = ground arith

-- A point lies in the intersection exactly when it lies in both.
pub contains-intersection :
    (a b : Rect) (px py : ℤ)
    → contains (intersection a b) px py ≡ (contains a px py && contains b px py)
unfolding intersection contains
contains-intersection a b px py =
    guarded (int_max a.x b.x) (int_max a.y b.y) (int_min (right a) (right b))
      (int_min (bottom a) (bottom b)) px py
    ∙ and_pairs (common_range a.x (right a) b.x (right b) px)
        (common_range a.y (bottom a) b.y (bottom b) py)
  where
    regroup_and :
        (s t u v s' t' u' v' : Bool)
        → (((s && t) && (s' && t')) && ((u && v) && (u' && v')))
          ≡ ((s && (t && (u && v))) && (s' && (t' && (u' && v'))))
    regroup_and s t u v s' t' u' v' = ground arith

    and_pairs :
        {x y : Bool}
        → x ≡ (in_range a.x (right a) px && in_range b.x (right b) px)
        → y ≡ (in_range a.y (bottom a) py && in_range b.y (bottom b) py)
        → (x && y) ≡ (contains a px py && contains b px py)
    and_pairs p q =
        rw (p, q)
          (regroup_and (not (ltb_ℤ px a.x)) (ltb_ℤ px (right a)) (not (ltb_ℤ py a.y))
            (ltb_ℤ py (bottom a)) (not (ltb_ℤ px b.x)) (ltb_ℤ px (right b)) (not (ltb_ℤ py b.y))
            (ltb_ℤ py (bottom b)))

-- Inside, as an order of the four edges.
pub record IsInside (r whole : Rect) : Type 0 where
  pub left_edge : whole.x ≤ℤ r.x
  pub top_edge : whole.y ≤ℤ r.y
  pub right_edge : right r ≤ℤ right whole
  pub bottom_edge : bottom r ≤ℤ bottom whole

pub max_lem :
    (a b : ℤ) → (a ≤ℤ int_max a b) × (b ≤ℤ int_max a b) × ((int_max a b ≤ℤ a) ⊎ (int_max a b ≤ℤ b))
unfolding int_max
max_lem a b = ground arith

pub min_lem :
    (a b : ℤ) → (int_min a b ≤ℤ a) × (int_min a b ≤ℤ b) × ((a ≤ℤ int_min a b) ⊎ (b ≤ℤ int_min a b))
unfolding int_min
min_lem a b = ground arith

clamp_lem : (v lo hi : ℤ) → lo ≤ℤ hi → (lo ≤ℤ int_clamp v lo hi) × (int_clamp v lo hi ≤ℤ hi)
unfolding int_clamp
clamp_lem v lo hi h = ground arith

clamp_between : (v lo hi : ℤ) → lo ≤ℤ v → v ≤ℤ hi → int_clamp v lo hi ≡ v
unfolding int_clamp
clamp_between v lo hi h k = ground arith

abbrev fitted : ℤ → ℤ → ℤ
fitted w len = int_max (int_min w len) (pos 1)

-- One axis of the clamp: the length fits, and the range that the position is clamped to is not
-- empty, which `std::clamp` asks for.
fitted_lem :
    (w len : ℤ) → ltb_ℤ (pos 0) len ≡ true → (pos 1 ≤ℤ fitted w len) × (fitted w len ≤ℤ len)
fitted_lem w len h =
    omega (int_laws, max_lem (int_min w len) (pos 1), min_lem w len, positive len h)
  where
    positive : (n : ℤ) → ltb_ℤ (pos 0) n ≡ true → pos 1 ≤ℤ n
    positive n k = ground arith

clamped_axis :
    (v w lo len : ℤ)
    → ltb_ℤ (pos 0) len ≡ true
    → (lo ≤ℤ int_clamp v lo (lo +ℤ len -ℤ fitted w len))
      × (int_clamp v lo (lo +ℤ len -ℤ fitted w len) +ℤ fitted w len ≤ℤ lo +ℤ len)
clamped_axis v w lo len h =
    let (one, fits) = fitted_lem w len h in
    let room : lo ≤ℤ lo +ℤ len -ℤ fitted w len = omega int_laws in
    omega (int_laws, clamp_lem v lo (lo +ℤ len -ℤ fitted w len) room)

empty_parts :
    (r : Rect) → empty r ≡ false → (ltb_ℤ (pos 0) r.width ≡ true) × (ltb_ℤ (pos 0) r.height ≡ true)
unfolding empty
empty_parts r h = ground arith

-- Whatever the frame, clamping it into a work area that is not empty gives a rectangle inside it,
-- at least one pixel wide and high.
pub clamp_into-IsInside :
    (frame work : Rect)
    → empty work ≡ false
    → IsInside (clamp_into frame work) work
      × (pos 1 ≤ℤ (clamp_into frame work).width)
      × (pos 1 ≤ℤ (clamp_into frame work).height)
unfolding clamp_into
clamp_into-IsInside frame work h =
    let (wide, high) = empty_parts work h in
    let (l, r) = clamped_axis frame.x frame.width work.x work.width wide in
    let (t, b) = clamped_axis frame.y frame.height work.y work.height high in
    rw h (
      record { left_edge = l; top_edge = t; right_edge = r; bottom_edge = b },
      (fitted_lem frame.width work.width wide).0,
      (fitted_lem frame.height work.height high).0,
    )

kept_axis :
    (v w lo len : ℤ)
    → lo ≤ℤ v
    → v +ℤ w ≤ℤ lo +ℤ len
    → pos 1 ≤ℤ w
    → (ltb_ℤ (pos 0) len ≡ true)
      × (fitted w len ≡ w)
      × (int_clamp v lo (lo +ℤ len -ℤ fitted w len) ≡ v)
kept_axis v w lo len low high one =
    let shorter : w ≤ℤ len = omega int_laws in
    let same = fitted_self shorter one in
    (
      positive (omega int_laws),
      same,
      rw same (clamp_between v lo (lo +ℤ len -ℤ w) low (omega int_laws)),
    )
  where
    positive : pos 1 ≤ℤ len → ltb_ℤ (pos 0) len ≡ true
    positive h = ground arith

    fitted_self : w ≤ℤ len → pos 1 ≤ℤ w → fitted w len ≡ w
    fitted_self h k =
        eq_of_parts (fitted w len) w (omega (arith, min_lem w len, max_lem (int_min w len) (pos 1)))

nonempty_of :
    (r : Rect) → ltb_ℤ (pos 0) r.width ≡ true → ltb_ℤ (pos 0) r.height ≡ true → empty r ≡ false
unfolding empty
nonempty_of r w h = ground arith

-- A frame that lies inside already, at least one pixel wide and high, is left alone.
pub clamp_into-eq_self :
    (frame work : Rect)
    → IsInside frame work
    → pos 1 ≤ℤ frame.width
    → pos 1 ≤ℤ frame.height
    → clamp_into frame work ≡ frame
unfolding clamp_into
clamp_into-eq_self frame work inside wide high =
    let (w_pos, w_same, x_same) =
      kept_axis frame.x frame.width work.x work.width inside.left_edge inside.right_edge wide in
    let (h_pos, h_same, y_same) =
      kept_axis frame.y frame.height work.y work.height inside.top_edge inside.bottom_edge high in
    rw (nonempty_of work w_pos h_pos) (kept_fields w_same h_same x_same y_same)
  where
    kept_fields :
        fitted frame.width work.width ≡ frame.width
        → fitted frame.height work.height ≡ frame.height
        → int_clamp frame.x work.x (right work -ℤ fitted frame.width work.width) ≡ frame.x
        → int_clamp frame.y work.y (bottom work -ℤ fitted frame.height work.height) ≡ frame.y
        → ◌≡◌ {A = Rect}
            (record {
              x = int_clamp frame.x work.x (right work -ℤ fitted frame.width work.width);
              y = int_clamp frame.y work.y (bottom work -ℤ fitted frame.height work.height);
              width = fitted frame.width work.width;
              height = fitted frame.height work.height;
            })
            frame
    kept_fields a b c d = λ i. record { x = c i; y = d i; width = a i; height = b i }
