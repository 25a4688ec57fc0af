-- ===== src/Geometry/Monitors/Choice.antt =====
-- The monitor that is chosen is one of those to choose from, and there is one where there are any.
use contextsnap.Base.{
  Bool, Bool-cases, Bytes, List, Member, Option, [], bytes_eq, false, here, if◌then◌else◌, inl, inr,
  none, refl, some, some_eq, subst, sym, there, true, ◌&&◌, ◌∷◌, ◌≡◌, ◌≢◌, ◌⊎◌,
}
use contextsnap.Base.Int.{ltb_ℤ}
use contextsnap.Types.{MonitorInfo}
use contextsnap.Geometry.{area}
use contextsnap.Geometry.Monitors.{
  best_match, by_hash, find_monitor_if, head_of, largest, largest_from, or_else, primary_monitor,
  same_flag, same_hash, same_size,
}

find_monitor_if-Member :
    (test : MonitorInfo → Bool) (ms : List MonitorInfo) (m : MonitorInfo)
    → find_monitor_if test ms ≡ some m
    → Member m ms × (test m ≡ true)
unfolding find_monitor_if
find_monitor_if-Member test [] m h = cc
find_monitor_if-Member test (n ∷ ms) m h = elim (Bool-cases (test n)) [
  | inl hit ↦
      let e : n ≡ m =
        some_eq (subst (λ b. (if b then some n else find_monitor_if test ms) ≡ some m) hit h) in
      (here (sym e), subst (λ k. test k ≡ true) e hit)
  | inr miss ↦
      let (mem, good) =
        find_monitor_if-Member test ms m
          (subst (λ b. (if b then some n else find_monitor_if test ms) ≡ some m) miss h) in
      (there mem, good)
]

or_else_cases :
    (a b : Option MonitorInfo) (m : MonitorInfo)
    → or_else a b ≡ some m
    → (a ≡ some m) ⊎ (b ≡ some m)
or_else_cases none b m h = inr h
or_else_cases (some x) b m h = inl h

pub primary_monitor-Member :
    (ms : List MonitorInfo) (m : MonitorInfo) → primary_monitor ms ≡ some m → Member m ms
unfolding primary_monitor
primary_monitor-Member ms m h =
    elim (or_else_cases (find_monitor_if (λ m. m.primary) ms) (head_of ms) m h) [
      | inl found ↦ (find_monitor_if-Member (λ m. m.primary) ms m found).0
      | inr first ↦ head_case ms first
    ]
  where
    head_case : (ms : List MonitorInfo) → head_of ms ≡ some m → Member m ms
    head_case [] e = cc
    head_case (n ∷ ms) e = here (sym (some_eq e))

largest_from-Member :
    (best : MonitorInfo) (ms : List MonitorInfo) → Member (largest_from best ms) (best ∷ ms)
unfolding largest_from
largest_from-Member best [] = here refl
largest_from-Member best (m ∷ ms) =
    pick (ltb_ℤ (area best.bounds) (area m.bounds))
      (largest_from-Member (if ltb_ℤ (area best.bounds) (area m.bounds) then m else best) ms)
  where
    pick :
        {x : MonitorInfo} (b : Bool)
        → Member x ((if b then m else best) ∷ ms)
        → Member x (best ∷ m ∷ ms)
    pick true h = there h
    pick false (here e) = here e
    pick false (there h) = there (there h)

abbrev Lands : List MonitorInfo → Option MonitorInfo → Type 0
Lands ms o = (m : MonitorInfo) → o ≡ some m → Member m ms

or_else-Lands :
    (ms : List MonitorInfo) (a b : Option MonitorInfo)
    → Lands ms a
    → Lands ms b
    → Lands ms (or_else a b)
or_else-Lands ms none b p q = q
or_else-Lands ms (some x) b p q = p

find-Lands :
    (test : MonitorInfo → Bool) (ms : List MonitorInfo) → Lands ms (find_monitor_if test ms)
find-Lands test ms m h = (find_monitor_if-Member test ms m h).0

by_hash-Lands : (source : MonitorInfo) (ms : List MonitorInfo) → Lands ms (by_hash source ms)
by_hash-Lands source ms = go source.edid_hash
  where
    go :
        (o : Option Bytes)
        → Lands ms (elim o [
          | none ↦ none
          | some h ↦ find_monitor_if (λ m. same_hash m.edid_hash (some h)) ms
        ])
    go none m e = cc
    go (some h) m e = find-Lands (λ m. same_hash m.edid_hash (some h)) ms m e

largest-Lands : (ms : List MonitorInfo) → Lands ms (largest ms)
largest-Lands [] m e = cc
largest-Lands (n ∷ ms) m e = subst (λ k. Member k (n ∷ ms)) (some_eq e) (largest_from-Member n ms)

-- A chosen monitor is one of those to choose from.
pub best_match-Member :
    (source m : MonitorInfo) (ms : List MonitorInfo) → best_match source ms ≡ some m → Member m ms
unfolding best_match
best_match-Member source m ms h =
    or_else-Lands ms _ _ (find-Lands _ ms)
      (or_else-Lands ms _ _ (by_hash-Lands source ms) (
        or_else-Lands ms _ _ (find-Lands _ ms) (
          or_else-Lands ms _ _ (find-Lands _ ms)
            (or_else-Lands ms _ _ (primary_monitor-Member ms) (largest-Lands ms)))))
      m h

or_else-ne-none : (a b : Option MonitorInfo) → b ≢ none → or_else a b ≢ none
or_else-ne-none none b h = h
or_else-ne-none (some x) b h = λ e. cc

largest-ne-none : (n : MonitorInfo) (ms : List MonitorInfo) → largest (n ∷ ms) ≢ none
largest-ne-none n ms e = cc

-- `best_match` finds nothing only among no monitors.
pub best_match-ne-none :
    (source n : MonitorInfo) (ms : List MonitorInfo) → best_match source (n ∷ ms) ≢ none
unfolding best_match
best_match-ne-none source n ms =
    let layout = n ∷ ms in
    let by_primary = or_else (primary_monitor layout) (largest layout) in
    let by_size = or_else (find_monitor_if (λ m. same_size m source) layout) by_primary in
    let by_role =
      or_else
        (find_monitor_if (λ m. same_size m source && same_flag m.primary source.primary) layout)
        by_size in
    or_else-ne-none (find_monitor_if (λ m. bytes_eq m.id source.id) layout)
      (or_else (by_hash source layout) by_role)
      (or_else-ne-none (by_hash source layout) by_role (
        or_else-ne-none
          (find_monitor_if (λ m. same_size m source && same_flag m.primary source.primary) layout)
          by_size
          (or_else-ne-none (find_monitor_if (λ m. same_size m source) layout) by_primary
            (or_else-ne-none (primary_monitor layout) (largest layout) (largest-ne-none n ms)))))

pub primary_monitor-ne-none :
    (n : MonitorInfo) (ms : List MonitorInfo) → primary_monitor (n ∷ ms) ≢ none
unfolding primary_monitor
primary_monitor-ne-none n ms =
    or_else-ne-none (find_monitor_if (λ m. m.primary) (n ∷ ms)) (some n) (head_ne n)
  where
    head_ne : (n : MonitorInfo) → some n ≢ none
    head_ne n e = cc
