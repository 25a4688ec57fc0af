-- ===== src/Matching/Assign/Settled.antt =====
-- What is taken stays taken, and what is not is listed as unmatched.
use contextsnap.Base.{
  All, Bool, List, Member, [], ap, arith, false, get_or, here, if◌then◌else◌, length, not, refl,
  subst, suc, sym, there, true, zero, ℕ, ◌++◌, ◌+◌, ◌<◌, ◌==◌, ◌||◌, ◌∷◌, ◌≡◌,
}
use contextsnap.Matching.Text.{count_if}
use contextsnap.Matching.Assign.{Assigned, Match, assign, assign_step, set_at, untaken}
use contextsnap.Matching.Assign.Pairs.{InRange, IsCounted, assign_step-IsCounted, one_if}

untaken-above : (k i : ℕ) (bs : List Bool) → k < i → count_if (λ n. n == k) (untaken i bs) ≡ 0
unfolding untaken count_if
untaken-above k i [] h = refl
untaken-above k i (b ∷ bs) h = go b (untaken-above k (i + 1) bs (omega arith))
  where
    apart : (i == k) ≡ false
    apart = ground arith

    go :
        (b : Bool)
        → count_if (λ n. n == k) (untaken (i + 1) bs) ≡ 0
        → count_if (λ n. n == k) (if b then untaken (i + 1) bs else i ∷ untaken (i + 1) bs) ≡ 0
    go true e = e
    go false e = rw apart e

-- An index is listed once when its flag is not set.
pub untaken-count :
    (i d k : ℕ) (bs : List Bool)
    → k ≡ i + d
    → d < length bs
    → count_if (λ n. n == k) (untaken i bs) ≡ one_if (not (get_or bs d false))
unfolding untaken count_if
untaken-count i d k [] e h = absurd (omega arith)
untaken-count i zero k (b ∷ bs) e h = go b (untaken-above k (i + 1) bs (omega arith))
  where
    same : (i == k) ≡ true
    same = ground arith

    go :
        (b : Bool)
        → count_if (λ n. n == k) (untaken (i + 1) bs) ≡ 0
        → count_if (λ n. n == k) (if b then untaken (i + 1) bs else i ∷ untaken (i + 1) bs)
          ≡ one_if (not b)
    go true z = z
    go false z = rw same (ap suc z)
untaken-count i (suc d) k (b ∷ bs) e h =
    go b (untaken-count (i + 1) d k bs (omega arith) (omega arith))
  where
    apart : (i == k) ≡ false
    apart = ground arith

    go :
        (b : Bool)
        → count_if (λ n. n == k) (untaken (i + 1) bs) ≡ one_if (not (get_or bs d false))
        → count_if (λ n. n == k) (if b then untaken (i + 1) bs else i ∷ untaken (i + 1) bs)
          ≡ one_if (not (get_or bs d false))
    go true z = z
    go false z = rw apart z

-- What is taken stays taken, and after its turn one window of a candidate is taken.
abbrev Keeps : Assigned → Assigned → Type 0
Keeps s t =
    ((i : ℕ) → get_or s.snapshot_taken i false ≡ true → get_or t.snapshot_taken i false ≡ true)
    × ((j : ℕ) → get_or s.live_taken j false ≡ true → get_or t.live_taken j false ≡ true)

abbrev Settled : Match → Assigned → Type 0
Settled c s =
    (get_or s.snapshot_taken c.snapshot_index false || get_or s.live_taken c.live_index false)
    ≡ true

set_at-keeps :
    (xs : List Bool) (i k : ℕ) → get_or xs k false ≡ true → get_or (set_at xs i) k false ≡ true
unfolding set_at
set_at-keeps [] i k h = h
set_at-keeps (b ∷ bs) zero zero h = refl
set_at-keeps (b ∷ bs) zero (suc k) h = h
set_at-keeps (b ∷ bs) (suc i) zero h = h
set_at-keeps (b ∷ bs) (suc i) (suc k) h = set_at-keeps bs i k h

set_at-set : (xs : List Bool) (i : ℕ) → i < length xs → get_or (set_at xs i) i false ≡ true
unfolding set_at
set_at-set [] i h = absurd (omega arith)
set_at-set (b ∷ bs) zero h = refl
set_at-set (b ∷ bs) (suc i) h = set_at-set bs i (omega arith)

assign_step-Settled :
    (c : Match) (s : Assigned)
    → c.snapshot_index < length s.snapshot_taken
    → Keeps s (assign_step c s) × Settled c (assign_step c s)
unfolding assign_step
assign_step-Settled c s h =
    go (get_or s.snapshot_taken c.snapshot_index false || get_or s.live_taken c.live_index false)
      refl
  where
    after : Bool → Assigned
    after b = if b then s else record {
      matches = s.matches ++ c ∷ [];
      snapshot_taken = set_at s.snapshot_taken c.snapshot_index;
      live_taken = set_at s.live_taken c.live_index;
    }

    go :
        (b : Bool)
        → (get_or s.snapshot_taken c.snapshot_index false || get_or s.live_taken c.live_index false)
          ≡ b
        → Keeps s (after b) × Settled c (after b)
    go true e = ((λ i k. k, λ j k. k), e)
    go false e = (
      (set_at-keeps s.snapshot_taken c.snapshot_index, set_at-keeps s.live_taken c.live_index),
      ap (λ b. b || get_or (set_at s.live_taken c.live_index) c.live_index false)
          (set_at-set s.snapshot_taken c.snapshot_index h),
    )

Settled-Keeps : (c : Match) (s t : Assigned) → Keeps s t → Settled c s → Settled c t
Settled-Keeps c s t keep h =
    either (get_or s.snapshot_taken c.snapshot_index false)
      (get_or t.snapshot_taken c.snapshot_index false) (get_or s.live_taken c.live_index false)
      (get_or t.live_taken c.live_index false) (keep.0 c.snapshot_index) (keep.1 c.live_index) h
  where
    either :
        (a a' b b' : Bool)
        → (a ≡ true → a' ≡ true)
        → (b ≡ true → b' ≡ true)
        → (a || b) ≡ true
        → (a' || b') ≡ true
    either true a' b b' f g e = ap (λ x. x || b') (f refl)
    either false true b b' f g e = refl
    either false false b b' f g e = g e

pub assign-Settled :
    (n m : ℕ) (cs : List Match) (s : Assigned)
    → All (InRange n m) cs
    → IsCounted n m s
    → Keeps s (assign cs s) × ((c : Match) → Member c cs → Settled c (assign cs s))
unfolding assign
assign-Settled n m [] s range h = ((λ i k. k, λ j k. k), λ c k. elim k [ ])
assign-Settled n m (d ∷ cs) s range h =
    let next = assign_step d s in
    let (kept, settled) =
      assign_step-Settled d s (subst (λ z. d.snapshot_index < z) (sym h.snapshot_size) range.0.0) in
    let (later, others) =
      assign-Settled n m cs next range.1 (assign_step-IsCounted n m d s range.0 h) in
    (
      (λ i k. later.0 i (kept.0 i k), λ j k. later.1 j (kept.1 j k)),
      λ c k. of_member c k next later settled others,
    )
  where
    of_member :
        (c : Match)
        → Member c (d ∷ cs)
        → (next : Assigned) → Keeps next (assign cs next)
        → Settled d next
        → ((x : Match) → Member x cs → Settled x (assign cs next))
        → Settled c (assign cs next)
    of_member c (here e) next later settled others =
        subst (λ x. Settled x (assign cs next)) (sym e)
          (Settled-Keeps d next (assign cs next) later settled)
    of_member c (there k) next later settled others = others c k
