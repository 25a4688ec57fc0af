-- ===== src/Base/Cuts.antt =====
-- Where a string is cut: at the first or the last character that passes a test.
use contextsnap.Base.{
  Bool, Bytes, List, [], all, any, arith, break_at, cut_first, cut_last, false, none, not, refl,
  some, true, ℕ, ◌&&◌, ◌++◌, ◌∷◌, ◌≡◌,
}

abbrev pub none_of : (ℕ → Bool) → Bytes → Bool
none_of p s = all (λ c. not (p c)) s

pub all-append {ℓ} :
    {A : Type ℓ} (p : A → Bool) (s t : List A) → all p (s ++ t) ≡ (all p s && all p t)
all-append p [] t = refl
all-append p (c ∷ s) t = rw (all-append p s t) (assoc (p c) (all p s) (all p t))
  where
    assoc : (a b c : Bool) → (a && (b && c)) ≡ (a && b && c)
    assoc true b c = refl
    assoc false b c = refl

pub none_of-append :
    (p : ℕ → Bool) (s t : Bytes)
    → none_of p s ≡ true
    → none_of p t ≡ true
    → none_of p (s ++ t) ≡ true
none_of-append p s t h k = rw (all-append (λ c. not (p c)) s t, h) k

none_of_parts :
    (p : ℕ → Bool) (c : ℕ) (s : Bytes)
    → none_of p (c ∷ s) ≡ true
    → (p c ≡ false) × (none_of p s ≡ true)
none_of_parts p c s h = go (p c) h
  where
    go : (b : Bool) → (not b && none_of p s) ≡ true → (b ≡ false) × (none_of p s ≡ true)
    go true h = absurd (ground arith)
    go false h = (refl, h)

pub any-none_of : (p : ℕ → Bool) (s : Bytes) → none_of p s ≡ true → any p s ≡ false
any-none_of p [] h = refl
any-none_of p (c ∷ s) h =
    let (plain, rest) = none_of_parts p c s h in rw plain (any-none_of p s rest)

pub cut_first-eq-none : (p : ℕ → Bool) (s : Bytes) → none_of p s ≡ true → cut_first p s ≡ none
unfolding cut_first
cut_first-eq-none p [] h = refl
cut_first-eq-none p (c ∷ s) h =
    let (plain, rest) = none_of_parts p c s h in rw (plain, cut_first-eq-none p s rest) refl

pub cut_first-append :
    (p : ℕ → Bool) (s : Bytes) (a : ℕ) (t : Bytes)
    → none_of p s ≡ true
    → p a ≡ true
    → cut_first p (s ++ a ∷ t) ≡ some (s, t)
unfolding cut_first
cut_first-append p [] a t h k = rw k refl
cut_first-append p (c ∷ s) a t h k =
    let (plain, rest) = none_of_parts p c s h in rw (plain, cut_first-append p s a t rest k) refl

pub cut_last-eq-none : (p : ℕ → Bool) (s : Bytes) → none_of p s ≡ true → cut_last p s ≡ none
unfolding cut_last
cut_last-eq-none p [] h = refl
cut_last-eq-none p (c ∷ s) h =
    let (plain, rest) = none_of_parts p c s h in rw (cut_last-eq-none p s rest, plain) refl

pub cut_last-append :
    (p : ℕ → Bool) (s : Bytes) (a : ℕ) (t : Bytes)
    → none_of p t ≡ true
    → p a ≡ true
    → cut_last p (s ++ a ∷ t) ≡ some (s, t)
unfolding cut_last
cut_last-append p [] a t h k = rw (cut_last-eq-none p t h, k) refl
cut_last-append p (c ∷ s) a t h k = rw (cut_last-append p s a t h k) refl

-- A text that is empty or begins with a character of the test.
abbrev pub begins : (ℕ → Bool) → Bytes → Bool
begins p [] = true
begins p (c ∷ s) = p c

pub break_at-append :
    (p : ℕ → Bool) (s t : Bytes)
    → none_of p s ≡ true
    → begins p t ≡ true
    → break_at p (s ++ t) ≡ (s, t)
unfolding break_at
break_at-append p [] [] h k = refl
break_at-append p [] (c ∷ t) h k = rw k refl
break_at-append p (c ∷ s) t h k =
    let (plain, rest) = none_of_parts p c s h in rw (plain, break_at-append p s t rest k) refl
