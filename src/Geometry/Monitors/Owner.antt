-- ===== src/Geometry/Monitors/Owner.antt =====
-- The monitor that owns a window has the largest overlap with it.
use contextsnap.Base.{
  Bool-cases, arith, if◌then◌else◌, inl, inr, not, true, ◌||◌, ◌≡◌, All, List, [], some, ◌∷◌, Bool,
  Option, false, none, ◌&&◌, All-of_Member, Member, refl, subst, ◌↔◌, some_eq,
}
use contextsnap.Base.Int.{ltb_ℤ, negsuc, pos, ℤ, ◌*ℤ◌, ◌-ℤ◌, ◌≤ℤ◌, int_laws}
use contextsnap.Base.Double.{Fpu, Double}
use contextsnap.Types.{MonitorInfo, Rect}
use contextsnap.Geometry.{
  area, bottom, int_max, int_min, intersection_area, right, span, zero_rect, int_eq,
}
use contextsnap.Geometry.Monitors.{
  Owning, owning_loop, owning_step, centre_distance, owning_monitor,
}

product_nonneg : (a b : ℤ) → pos 0 ≤ℤ a → pos 0 ≤ℤ b → pos 0 ≤ℤ a *ℤ b
unfolding ◌*ℤ◌
product_nonneg (pos a) (pos b) h k = ground arith
product_nonneg (pos a) (negsuc b) h k = absurd (omega arith)
product_nonneg (negsuc a) b h k = absurd (omega arith)

ordered : (l r : ℤ) → ltb_ℤ l r ≡ true → l ≤ℤ r
ordered l r h = ground arith

difference : (l r : ℤ) → ltb_ℤ l r ≡ true → pos 0 ≤ℤ r -ℤ l
difference l r h = omega (int_laws, ordered l r h)

pub intersection_area-nonneg : (a b : Rect) → pos 0 ≤ℤ intersection_area a b
unfolding intersection_area
intersection_area-nonneg a b =
    area_of (int_max a.x b.x) (int_max a.y b.y) (int_min (right a) (right b))
      (int_min (bottom a) (bottom b))
  where
    area_span : (l t r d : ℤ) → ltb_ℤ l r ≡ true → ltb_ℤ t d ≡ true → pos 0 ≤ℤ (r -ℤ l) *ℤ (d -ℤ t)
    area_span l t r d h k = product_nonneg (r -ℤ l) (d -ℤ t) (difference l r h) (difference t d k)

    area_of :
        (l t r d : ℤ)
        → pos 0 ≤ℤ area (if not (ltb_ℤ l r) || not (ltb_ℤ t d) then zero_rect else span l t r d)
    area_of l t r d = elim (Bool-cases (ltb_ℤ l r)) [
      | inl wide ↦ elim (Bool-cases (ltb_ℤ t d)) [
        | inl high ↦ rw (wide, high) (area_span l t r d wide high)
        | inr flat ↦ rw (wide, flat) (omega arith)
      ]
      | inr thin ↦ rw thin (omega arith)
    ]

none_yet :
    (a shared : ℤ) (near : Bool) → (int_eq a (pos 0) && near) ≡ true → pos 0 ≤ℤ shared → a ≤ℤ shared
none_yet a shared near h k = ground arith

abbrev pub overlap : Rect → MonitorInfo → ℤ
overlap frame m = intersection_area frame m.bounds

module _ (fpu : Fpu) (frame : Rect) (Q : MonitorInfo → Type 0) where
  -- The monitor chosen so far has the largest overlap so far.
  record Fits (s : Owning fpu) : Type 0 where
    nonneg : pos 0 ≤ℤ s.best_area
    chosen : (b : MonitorInfo) → s.best ≡ some b → Q b × (s.best_area ≤ℤ overlap frame b)

  Fits-of :
      (m : MonitorInfo) (a : ℤ) (d : Double)
      → Q m
      → pos 0 ≤ℤ a
      → a ≤ℤ overlap frame m
      → Fits (record { best = some m; best_area = a; best_distance = d })
  Fits-of m a d q h k = record {
    nonneg = h;
    chosen = λ b e. subst (λ n. Q n × (a ≤ℤ overlap frame n)) (some_eq e) (q, k);
  }

  Fits-step : (m : MonitorInfo) (s : Owning fpu) → Q m → Fits s → Fits (owning_step fpu frame m s)
  unfolding owning_step
  Fits-step m s q fits =
      let shared = intersection_area frame m.bounds in
      let distance = centre_distance fpu frame m.bounds in
      elim (Bool-cases (ltb_ℤ s.best_area shared)) [
        | inl more ↦
            rw more
              (Fits-of m shared distance q (intersection_area-nonneg frame m.bounds) (omega arith))
        | inr no_more ↦
            elim (Bool-cases (int_eq s.best_area (pos 0) && fpu.lt distance s.best_distance)) [
              | inl near ↦
                  rw (no_more, near)
                    (Fits-of m s.best_area distance q fits.nonneg (
                      none_yet s.best_area shared _ near (intersection_area-nonneg frame m.bounds)))
              | inr far ↦ rw (no_more, far) fits
            ]
      ]

  step_grows :
      (m : MonitorInfo) (s : Owning fpu)
      → (s.best_area ≤ℤ (owning_step fpu frame m s).best_area)
        × (overlap frame m ≤ℤ (owning_step fpu frame m s).best_area)
  unfolding owning_step
  step_grows m s = ground arith

  loop-Fits :
      (ms : List MonitorInfo) (s : Owning fpu)
      → All Q ms
      → Fits s
      → Fits (owning_loop fpu frame ms s)
        × (s.best_area ≤ℤ (owning_loop fpu frame ms s).best_area)
        × All (λ m. overlap frame m ≤ℤ (owning_loop fpu frame ms s).best_area) ms
  unfolding owning_loop
  loop-Fits [] s q fits = (fits, omega arith, tt)
  loop-Fits (m ∷ ms) s (q, qs) fits =
      let next = owning_step fpu frame m s in
      let (fits', grows, covers) = loop-Fits ms next qs (Fits-step m s q fits) in
      let (a, b) = step_grows m s in (fits', omega arith, (omega arith, covers))

abbrev IsSome : Option MonitorInfo → Type 0
IsSome none = ⊥
IsSome (some m) = Unit

module _ (fpu : Fpu) (frame : Rect) where
  step_chosen :
      (m : MonitorInfo) (s : Owning fpu) → IsSome s.best → IsSome (owning_step fpu frame m s).best
  unfolding owning_step
  step_chosen m s h = elim (Bool-cases (ltb_ℤ s.best_area (intersection_area frame m.bounds))) [
    | inl more ↦ rw more tt
    | inr no_more ↦ rw no_more (nearer (int_eq s.best_area (pos 0) && _))
  ]
    where
      nearer :
          (b : Bool)
          → IsSome
              (if b
                then record {
                  best = some m;
                  best_area = s.best_area;
                  best_distance = centre_distance fpu frame m.bounds;
                }
                else s).best
      nearer true = tt
      nearer false = h

  -- Once a monitor is chosen, one stays chosen.
  stays_chosen :
      (ms : List MonitorInfo) (s : Owning fpu)
      → IsSome s.best
      → IsSome (owning_loop fpu frame ms s).best
  unfolding owning_loop
  stays_chosen [] s h = h
  stays_chosen (m ∷ ms) s h = stays_chosen ms (owning_step fpu frame m s) (step_chosen m s h)

-- The owner is one of the monitors, and none of them shares a larger area with the frame.
pub owning_monitor_lem :
    (fpu : Fpu) (double_max : Double) (frame : Rect) (monitors : List MonitorInfo) (m : MonitorInfo)
    → owning_monitor fpu double_max frame monitors ≡ some m
    → Member m monitors × All (λ n. overlap frame n ≤ℤ overlap frame m) monitors
unfolding owning_monitor
owning_monitor_lem fpu double_max frame monitors m e =
    let start : Owning fpu = record {
      best = none;
      best_area = pos 0;
      best_distance = double_max;
    } in
    let Q : MonitorInfo → Type 0 = λ n. Member n monitors in
    let fits : Fits fpu frame Q start = record { nonneg = omega arith; chosen = λ b n. cc } in
    let (end_fits, _, covers) =
      loop-Fits fpu frame Q monitors start (All-of_Member Q monitors (λ a h. h)) fits in
    let (mem, most) = end_fits.chosen m e in (mem, weaken _ _ monitors covers most)
  where
    weaken :
        (a b : ℤ) (ms : List MonitorInfo)
        → All (λ n. overlap frame n ≤ℤ a) ms
        → a ≤ℤ b
        → All (λ n. overlap frame n ≤ℤ b) ms
    weaken a b [] h k = tt
    weaken a b (n ∷ ms) h k = (omega (arith, h.0), weaken a b ms h.1 k)

-- Where every distance is below the largest double, a monitor is found exactly when there is one.
pub owning_monitor-eq-none_iff :
    (fpu : Fpu) (double_max : Double) (frame : Rect) (monitors : List MonitorInfo)
    → ((m : MonitorInfo) → fpu.lt (centre_distance fpu frame m.bounds) double_max ≡ true)
    → (owning_monitor fpu double_max frame monitors ≡ none) ↔ (monitors ≡ [])
unfolding owning_monitor
owning_monitor-eq-none_iff fpu double_max frame [] near = (λ _. refl, λ _. refl)
owning_monitor-eq-none_iff fpu double_max frame (m ∷ ms) near =
    (λ e. absurd (subst IsSome e (stays_chosen fpu frame ms first (started m near))), λ e. cc)
  where
    start : Owning fpu
    start = record { best = none; best_area = pos 0; best_distance = double_max }

    first : Owning fpu
    first = owning_step fpu frame m start

    started :
        (n : MonitorInfo)
        → ((m : MonitorInfo) → fpu.lt (centre_distance fpu frame m.bounds) double_max ≡ true)
        → IsSome (owning_step fpu frame n start).best
    started n near = elim (Bool-cases (ltb_ℤ (pos 0) (intersection_area frame n.bounds))) [
      | inl more ↦ rw more tt
      | inr no_more ↦ rw (no_more, near n) tt
    ]
