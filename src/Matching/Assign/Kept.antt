-- ===== src/Matching/Assign/Kept.antt =====
-- Sorting keeps every candidate, and what holds of all of them.
use contextsnap.Base.{
  All, Bool, List, Member, [], false, here, if◌then◌else◌, refl, subst, sym, there, true, ◌++◌, ◌∷◌,
}
use contextsnap.Base.Double.{Fpu}
use contextsnap.Matching.Assign.{Match, comes_before, insert, sort}

pub Member-append_left {ℓ} :
    {A : Type ℓ} {a : A} {xs : List A} (ys : List A) → Member a xs → Member a (xs ++ ys)
Member-append_left ys (here e) = here e
Member-append_left ys (there m) = there (Member-append_left ys m)

pub Member-append_right {ℓ} :
    {A : Type ℓ} {a : A} (xs : List A) {ys : List A} → Member a ys → Member a (xs ++ ys)
Member-append_right [] m = m
Member-append_right (x ∷ xs) m = there (Member-append_right xs m)

pub All-append {ℓ κ} :
    {A : Type ℓ} (P : A → Type κ) (xs ys : List A) → All P xs → All P ys → All P (xs ++ ys)
All-append P [] ys h k = k
All-append P (x ∷ xs) ys h k = (h.0, All-append P xs ys h.1 k)

module _ (fpu : Fpu) where
  Member-insert_here : (c : Match) (ds : List Match) → Member c (insert fpu c ds)
  unfolding insert
  Member-insert_here c [] = here refl
  Member-insert_here c (d ∷ ds) = go (comes_before fpu c d) (Member-insert_here c ds)
    where
      go :
          (b : Bool)
          → Member c (insert fpu c ds)
          → Member c (if b then c ∷ d ∷ ds else d ∷ insert fpu c ds)
      go true m = here refl
      go false m = there m

  Member-insert :
      (c : Match) {x : Match} (ds : List Match) → Member x ds → Member x (insert fpu c ds)
  unfolding insert
  Member-insert c [] m = elim m [ ]
  Member-insert c {x} (d ∷ ds) m = go (comes_before fpu c d) m (Member-insert c ds)
    where
      go :
          (b : Bool)
          → Member x (d ∷ ds)
          → (Member x ds → Member x (insert fpu c ds))
          → Member x (if b then c ∷ d ∷ ds else d ∷ insert fpu c ds)
      go true n more = there n
      go false (here e) more = here e
      go false (there n) more = there (more n)

  pub Member-sort : {x : Match} (cs : List Match) → Member x cs → Member x (sort fpu cs)
  unfolding sort
  Member-sort (c ∷ cs) (here e) =
      subst (λ y. Member y (insert fpu c (sort fpu cs))) (sym e)
        (Member-insert_here c (sort fpu cs))
  Member-sort (c ∷ cs) (there m) = Member-insert c (sort fpu cs) (Member-sort cs m)
  Member-sort [] m = elim m [ ]

  All-insert {κ} :
      (P : Match → Type κ) (c : Match) (ds : List Match) → P c → All P ds → All P (insert fpu c ds)
  unfolding insert
  All-insert P c [] h k = (h, tt)
  All-insert P c (d ∷ ds) h k = go (comes_before fpu c d) (All-insert P c ds h k.1)
    where
      go :
          (b : Bool)
          → All P (insert fpu c ds)
          → All P (if b then c ∷ d ∷ ds else d ∷ insert fpu c ds)
      go true more = (h, k)
      go false more = (k.0, more)

  pub All-sort {κ} : (P : Match → Type κ) (cs : List Match) → All P cs → All P (sort fpu cs)
  unfolding sort
  All-sort P [] h = tt
  All-sort P (c ∷ cs) h = All-insert P c (sort fpu cs) h.0 (All-sort P cs h.1)

pub All-map {ℓ κ} :
    {A : Type ℓ} {P Q : A → Type κ} → ((a : A) → P a → Q a) → (xs : List A) → All P xs → All Q xs
All-map f [] h = tt
All-map f (x ∷ xs) h = (f x h.0, All-map f xs h.1)
