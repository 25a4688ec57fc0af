-- ===== src/Privacy/Sanitizer/Parts.antt =====
-- What a step of `sanitize_url` (src/privacy/sanitizer.cpp) may leave of a part of a URL.
use contextsnap.Base.{Bytes, List, [], false, refl, ◌∙◌, ◌∷◌, ◌≡◌, arith, codes, inl, inr, ◌⊎◌}
use contextsnap.Privacy.Url.{Query}
use contextsnap.Privacy.Sanitizer.{names_any}

-- `q` is `p` with some parameters taken out and the values of some others redacted; the order stays.
pub data Filtered : Query → Query → Type 0 where
  finished : Filtered [] []
  keep : {kv : Bytes × Bytes} {q p : Query} → Filtered q p → Filtered (kv ∷ q) (kv ∷ p)
  take_out : {kv : Bytes × Bytes} {q p : Query} → Filtered q p → Filtered q (kv ∷ p)
  redact :
      {x y : Bytes × Bytes} {q p : Query}
      → x.0 ≡ y.0
      → x.1 ≡ codes "[redacted]"
      → Filtered q p
      → Filtered (x ∷ q) (y ∷ p)

pub Filtered-refl : (q : Query) → Filtered q q
Filtered-refl [] = finished
Filtered-refl (kv ∷ q) = keep (Filtered-refl q)

pub none_kept : (q : Query) → Filtered [] q
none_kept [] = finished
none_kept (kv ∷ q) = take_out (none_kept q)

pub Filtered-trans : {r q p : Query} → Filtered q p → Filtered r q → Filtered r p
Filtered-trans finished g = g
Filtered-trans (take_out f) g = take_out (Filtered-trans f g)
Filtered-trans (keep f) (keep g) = keep (Filtered-trans f g)
Filtered-trans (keep f) (take_out g) = take_out (Filtered-trans f g)
Filtered-trans (keep f) (redact e v g) = redact e v (Filtered-trans f g)
Filtered-trans (redact e v f) (keep g) = redact e v (Filtered-trans f g)
Filtered-trans (redact e v f) (take_out g) = take_out (Filtered-trans f g)
Filtered-trans (redact e v f) (redact d w g) = redact (d ∙ e) w (Filtered-trans f g)

pub Filtered-nil : {q p : Query} → Filtered q p → p ≡ [] → q ≡ []
Filtered-nil finished e = refl
Filtered-nil (keep f) e = cc
Filtered-nil (take_out f) e = cc
Filtered-nil (redact d v f) e = cc

pub Filtered-names :
    {q p : Query} (ns : List Bytes) → Filtered q p → names_any ns p ≡ false → names_any ns q ≡ false
unfolding names_any
Filtered-names ns finished h = refl
Filtered-names ns (keep f) h = ground (arith, Filtered-names ns f)
Filtered-names ns (take_out f) h = ground (arith, Filtered-names ns f)
Filtered-names ns (redact e v f) h = rw e (ground (arith, Filtered-names ns f))

-- A part of a URL that is as it was, or is gone.
abbrev pub IsPart : Bytes → Bytes → Type 0
IsPart q p = (q ≡ p) ⊎ (q ≡ [])

pub IsPart-trans : {r q p : Bytes} → IsPart r q → IsPart q p → IsPart r p
IsPart-trans (inr e) h = inr e
IsPart-trans (inl e) (inl d) = inl (e ∙ d)
IsPart-trans (inl e) (inr d) = inr (e ∙ d)

pub IsPart-nil : {q p : Bytes} → IsPart q p → p ≡ [] → q ≡ []
IsPart-nil (inl e) h = e ∙ h
IsPart-nil (inr e) h = e

abbrev pub IsPath : Bytes → Bytes → Type 0
IsPath q p = IsPart q p ⊎ (q ≡ codes "/")

pub IsPath-trans : {r q p : Bytes} → IsPath r q → IsPath q p → IsPath r p
IsPath-trans (inr e) h = inr e
IsPath-trans (inl (inr e)) h = inl (inr e)
IsPath-trans (inl (inl e)) (inl h) = inl (IsPart-trans (inl e) h)
IsPath-trans (inl (inl e)) (inr h) = inr (e ∙ h)
