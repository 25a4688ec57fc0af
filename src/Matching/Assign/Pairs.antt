-- ===== src/Matching/Assign/Pairs.antt =====
-- The greedy loop takes every window at most once, and leaves no pair of free windows that could
-- have been taken.
use contextsnap.Base.{
  ==_iff, All, Bool, List, [], ap, arith, false, get_or, if◌then◌else◌, length, refl, subst, suc,
  sym, true, zero, ℕ, ◌++◌, ◌+◌, ◌<◌, ◌==◌, ◌||◌, ◌∙◌, ◌∷◌, ◌≡◌,
}
use contextsnap.Matching.Text.{count_if}
use contextsnap.Matching.Assign.{Assigned, Match, assign, assign_step, set_at}
use contextsnap.Matching.Assign.Kept.{All-append}

abbrev pub one_if : Bool → ℕ
one_if b = if b then 1 else 0

abbrev pub on_snapshot : ℕ → Match → Bool
on_snapshot i m = m.snapshot_index == i

abbrev pub on_live : ℕ → Match → Bool
on_live j m = m.live_index == j

count_if-snoc {ℓ} :
    {A : Type ℓ} (p : A → Bool) (xs : List A) (c : A)
    → count_if p (xs ++ c ∷ []) ≡ count_if p xs + one_if (p c)
unfolding count_if
count_if-snoc p [] c = go (p c)
  where
    go : (b : Bool) → (if b then 1 else 0) ≡ 0 + one_if b
    go true = refl
    go false = refl
count_if-snoc p (x ∷ xs) c = go (p x) (count_if-snoc p xs c)
  where
    go :
        (b : Bool)
        → count_if p (xs ++ c ∷ []) ≡ count_if p xs + one_if (p c)
        → (if b then suc (count_if p (xs ++ c ∷ [])) else count_if p (xs ++ c ∷ []))
          ≡ (if b then suc (count_if p xs) else count_if p xs) + one_if (p c)
    go true e = omega (arith, e)
    go false e = e

get_or-set_at :
    (xs : List Bool) (i k : ℕ)
    → i < length xs
    → get_or (set_at xs i) k false ≡ ((i == k) || get_or xs k false)
unfolding set_at
get_or-set_at [] i k h = absurd (omega arith)
get_or-set_at (b ∷ bs) zero zero h = refl
get_or-set_at (b ∷ bs) zero (suc k) h = ap (λ e. e || get_or bs k false) (apart k)
  where
    apart : (k : ℕ) → false ≡ (0 == suc k)
    apart k = ground arith
get_or-set_at (b ∷ bs) (suc i) zero h = ap (λ e. e || b) (apart i)
  where
    apart : (k : ℕ) → false ≡ (suc k == 0)
    apart k = ground arith
get_or-set_at (b ∷ bs) (suc i) (suc k) h =
    get_or-set_at bs i k (omega arith) ∙ ap (λ e. e || get_or bs k false) (same i k)
  where
    same : (a b : ℕ) → (a == b) ≡ (suc a == suc b)
    same a b = ground arith

length-set_at : (xs : List Bool) (i : ℕ) → length (set_at xs i) ≡ length xs
unfolding set_at
length-set_at [] i = refl
length-set_at (b ∷ bs) zero = refl
length-set_at (b ∷ bs) (suc i) = omega (arith, length-set_at bs i)

one_if-or : (a b : Bool) → (a ≡ true → b ≡ false) → one_if b + one_if a ≡ one_if (a || b)
one_if-or true true h = absurd (omega (arith, ap one_if (h refl)))
one_if-or true false h = refl
one_if-or false true h = refl
one_if-or false false h = refl

-- One side of the loop's state: the matches of each index are counted by its flag.
abbrev pub Counts : (ℕ → Match → Bool) → List Match → List Bool → Type 0
Counts on ms taken = (i : ℕ) → count_if (on i) ms ≡ one_if (get_or taken i false)

Counts-snoc :
    (on : ℕ → Match → Bool) (ms : List Match) (taken : List Bool) (c : Match) (i : ℕ)
    → ((k : ℕ) → on k c ≡ (i == k))
    → i < length taken
    → get_or taken i false ≡ false
    → Counts on ms taken
    → Counts on (ms ++ c ∷ []) (set_at taken i)
Counts-snoc on ms taken c i at in_range free counts k =
    count_if-snoc (on k) ms c
    ∙ ap (λ n. n + one_if (on k c)) (counts k)
    ∙ ap (λ b. one_if (get_or taken k false) + one_if b) (at k)
    ∙ one_if-or (i == k) (get_or taken k false)
        (λ e. subst (λ n. get_or taken n false ≡ false) ((==_iff i k).0 e) free)
    ∙ ap one_if (sym (get_or-set_at taken i k in_range))

pub record IsCounted (n m : ℕ) (s : Assigned) : Type 0 where
  pub snapshot_size : length s.snapshot_taken ≡ n
  pub live_size : length s.live_taken ≡ m
  pub snapshot_counts : Counts on_snapshot s.matches s.snapshot_taken
  pub live_counts : Counts on_live s.matches s.live_taken

abbrev pub InRange : ℕ → ℕ → Match → Type 0
InRange n m c = (c.snapshot_index < n) × (c.live_index < m)

or_parts : (a b : Bool) → (a || b) ≡ false → (a ≡ false) × (b ≡ false)
or_parts false false h = (refl, refl)
or_parts false true h = cc
or_parts true b h = cc

pub assign_step-IsCounted :
    (n m : ℕ) (c : Match) (s : Assigned)
    → InRange n m c
    → IsCounted n m s
    → IsCounted n m (assign_step c s)
unfolding assign_step
assign_step-IsCounted n m c s range h =
    go (get_or s.snapshot_taken c.snapshot_index false || get_or s.live_taken c.live_index false)
      refl
  where
    go :
        (b : Bool)
        → (get_or s.snapshot_taken c.snapshot_index false || get_or s.live_taken c.live_index false)
          ≡ b
        → IsCounted n m (
            if b then s else record {
              matches = s.matches ++ c ∷ [];
              snapshot_taken = set_at s.snapshot_taken c.snapshot_index;
              live_taken = set_at s.live_taken c.live_index;
            })
    go true e = h
    go false e =
        let (snapshot_free, live_free) =
          or_parts (get_or s.snapshot_taken c.snapshot_index false)
            (get_or s.live_taken c.live_index false) e in
        record {
          snapshot_size = length-set_at s.snapshot_taken c.snapshot_index ∙ h.snapshot_size;
          live_size = length-set_at s.live_taken c.live_index ∙ h.live_size;
          snapshot_counts =
              Counts-snoc on_snapshot s.matches s.snapshot_taken c c.snapshot_index (λ k. refl)
                (subst (λ z. c.snapshot_index < z) (sym h.snapshot_size) range.0) snapshot_free
                h.snapshot_counts;
          live_counts =
              Counts-snoc on_live s.matches s.live_taken c c.live_index (λ k. refl)
                (subst (λ z. c.live_index < z) (sym h.live_size) range.1) live_free h.live_counts;
        }

pub assign-IsCounted :
    (n m : ℕ) (cs : List Match) (s : Assigned)
    → All (InRange n m) cs
    → IsCounted n m s
    → IsCounted n m (assign cs s)
unfolding assign
assign-IsCounted n m [] s range h = h
assign-IsCounted n m (c ∷ cs) s range h =
    assign-IsCounted n m cs (assign_step c s) range.1 (assign_step-IsCounted n m c s range.0 h)

-- Only candidates are matched.
assign_step-All :
    (P : Match → Type 0) (c : Match) (s : Assigned)
    → P c
    → All P s.matches
    → All P (assign_step c s).matches
unfolding assign_step
assign_step-All P c s h k =
    go (get_or s.snapshot_taken c.snapshot_index false || get_or s.live_taken c.live_index false)
  where
    go :
        (b : Bool)
        → All P (
            Assigned.matches (
              if b then s else record {
                matches = s.matches ++ c ∷ [];
                snapshot_taken = set_at s.snapshot_taken c.snapshot_index;
                live_taken = set_at s.live_taken c.live_index;
              }))
    go true = k
    go false = All-append P s.matches (c ∷ []) k (h, tt)

pub assign-All :
    (P : Match → Type 0) (cs : List Match) (s : Assigned)
    → All P cs
    → All P s.matches
    → All P (assign cs s).matches
unfolding assign
assign-All P [] s h k = k
assign-All P (c ∷ cs) s h k = assign-All P cs (assign_step c s) h.1 (assign_step-All P c s h.0 k)
