-- ===== src/Matching/Text/Collapse.antt =====
-- Spaces that have been collapsed once stay as they are.
use contextsnap.Base.{
  Bool, Bool-cases, Bytes, [], ap, false, inl, inr, refl, sym, true, ℕ, ◌==◌, ◌∙◌, ◌∷◌, ◌≡◌, ◌⊎◌,
}
use contextsnap.Matching.Text.{collapse_from, collapse_spaces}

abbrev pub is_space : ℕ → Bool
is_space c = c == b' '

collapse_from-space :
    (started pending : Bool) (c : ℕ) (s : Bytes)
    → is_space c ≡ true
    → collapse_from started pending (c ∷ s) ≡ collapse_from started started s
unfolding collapse_from
collapse_from-space started pending c s h = rw h refl

collapse_from-plain :
    (started : Bool) (c : ℕ) (s : Bytes)
    → is_space c ≡ false
    → collapse_from started false (c ∷ s) ≡ c ∷ collapse_from true false s
unfolding collapse_from
collapse_from-plain started c s h = rw h refl

collapse_from-pending :
    (started : Bool) (c : ℕ) (s : Bytes)
    → is_space c ≡ false
    → collapse_from started true (c ∷ s) ≡ b' ' ∷ c ∷ collapse_from true false s
unfolding collapse_from
collapse_from-pending started c s h = rw h refl

-- At any state that no space is pending in, and behind a pending one.
collapse_from_idem :
    (started : Bool) (s : Bytes)
    → (collapse_from started false (collapse_from started false s) ≡ collapse_from started false s)
      × (collapse_from true false (collapse_from true true s) ≡ collapse_from true true s)
unfolding collapse_from
collapse_from_idem started [] = (refl, refl)
collapse_from_idem started (c ∷ s) =
    go (Bool-cases (is_space c)) started (collapse_from_idem started s) (collapse_from_idem true s)
  where
    Both : Bool → Bytes → Type 0
    Both st t =
        (collapse_from st false (collapse_from st false t) ≡ collapse_from st false t)
        × (collapse_from true false (collapse_from true true t) ≡ collapse_from true true t)

    rest : Bytes
    rest = collapse_from true false s

    go :
        (is_space c ≡ true) ⊎ (is_space c ≡ false)
        → (st : Bool) → Both st s
        → Both true s
        → Both st (c ∷ s)
    go (inl space) false h k =
        let e = collapse_from-space false false c s space in
        let f = collapse_from-space true true c s space in
        (
          ap (collapse_from false false) e ∙ h.0 ∙ sym e,
          ap (collapse_from true false) f ∙ h.1 ∙ sym f,
        )
    go (inl space) true h k =
        let e = collapse_from-space true false c s space in
        let f = collapse_from-space true true c s space in
        (
          ap (collapse_from true false) e ∙ h.1 ∙ sym e,
          ap (collapse_from true false) f ∙ h.1 ∙ sym f,
        )
    go (inr plain) st h k =
        let e = collapse_from-plain st c s plain in
        let f = collapse_from-pending true c s plain in
        (
          ap (collapse_from st false) e
              ∙ collapse_from-plain st c rest plain
              ∙ ap (λ t. c ∷ t) k.0
              ∙ sym e,
          ap (collapse_from true false) f
              ∙ collapse_from-pending true c rest plain
              ∙ ap (λ t. b' ' ∷ c ∷ t) k.0
              ∙ sym f,
        )

pub collapse_spaces_idem : (s : Bytes) → collapse_spaces (collapse_spaces s) ≡ collapse_spaces s
unfolding collapse_spaces
collapse_spaces_idem s = (collapse_from_idem false s).0
