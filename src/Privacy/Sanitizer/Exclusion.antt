-- ===== src/Privacy/Sanitizer/Exclusion.antt =====
-- Which tabs `sanitize_url` drops.
use contextsnap.Base.{
  Bool, Bytes, List, Member, [], ap, bytes_eq, codes, false, here, if◌then◌else◌, inl, inr, refl,
  subst, there, true, ◌∙◌, ◌∷◌, ◌≡◌, ◌⊎◌,
}
use contextsnap.Base.Double.{Fpu}
use contextsnap.Errors.{value}
use contextsnap.Privacy.Rules.{
  Rule, SanitizeResult, Sanitizer, SanitizerOptions, exclude_tab, is_host_blocked,
}
use contextsnap.Privacy.Url.{ParsedUrl, parse_url}
use contextsnap.Privacy.Sanitizer.{
  Outcome, Progress, and_then, apply_rules, dropped, finish, passed, rule_action, rule_step,
  sanitize_parsed, sanitize_url, start, strip,
}
use contextsnap.Privacy.Sanitizer.Steps.{At, LessThan, rule_step-IsLess, strip-IsLess}
use contextsnap.Privacy.Sanitizer.Removal.{
  blocked_result, file_result, sanitize_url-parsed, with_rules,
}
use contextsnap.Privacy.Sanitizer.Rounds.{IsFor, IsFor-rule_step}

abbrev is_dropped : Outcome → Bool
is_dropped (dropped s) = true
is_dropped (passed s) = false

module _ (r : Rule) (p : ParsedUrl) (h : IsFor exclude_tab r p) where
  apply_rules-is_dropped :
      (rs : List Rule) (s : Progress)
      → s.parsed.host ≡ p.host
      → Member r rs
      → is_dropped (apply_rules rs s) ≡ true
  unfolding apply_rules rule_action
  apply_rules-is_dropped [] s e m = elim m [ ]
  apply_rules-is_dropped (x ∷ rs) s e (here same) =
      subst (λ y. is_dropped (and_then (rule_step y s) (apply_rules rs)) ≡ true) same
        (ap (λ o. is_dropped (and_then o (apply_rules rs))) (IsFor-rule_step exclude_tab r p s h e))
  apply_rules-is_dropped (x ∷ rs) s e (there m) =
      go (λ t k. apply_rules-is_dropped rs t k m) (rule_step x s) (rule_step-IsLess x s)
    where
      go :
          ((t : Progress) → t.parsed.host ≡ p.host → is_dropped (apply_rules rs t) ≡ true)
          → (o : Outcome) → At (LessThan s.parsed) o
          → is_dropped (and_then o (apply_rules rs)) ≡ true
      go more (dropped t) less = refl
      go more (passed t) less = more t (less.same_host ∙ e)

finish-excluded :
    (fpu : Fpu) (o : SanitizerOptions) (url : Bytes) (out : Outcome)
    → (finish fpu o url out).excluded ≡ is_dropped out
unfolding finish
finish-excluded fpu o url (dropped s) = refl
finish-excluded fpu o url (passed s) = refl

sanitize_parsed-excluded :
    (fpu : Fpu) (z : Sanitizer) (url : Bytes) (p : ParsedUrl)
    → bytes_eq p.scheme (codes "file") ≡ false
    → (is_host_blocked z.options p.host ≡ true) ⊎ (is_dropped (with_rules fpu z url p) ≡ true)
    → (sanitize_parsed fpu z url p).excluded ≡ true
unfolding sanitize_parsed
sanitize_parsed-excluded fpu z url p h why =
    go (bytes_eq p.scheme (codes "file")) (is_host_blocked z.options p.host) h why
  where
    go :
        (file blocked : Bool)
        → file ≡ false
        → (blocked ≡ true) ⊎ (is_dropped (with_rules fpu z url p) ≡ true)
        → SanitizeResult.excluded (
            if file
            then file_result fpu z url p
            else if blocked
            then blocked_result fpu z url p
            else finish fpu z.options url (with_rules fpu z url p))
          ≡ true
    go true blocked e w = cc
    go false true e w = refl
    go false false e (inl w) = cc
    go false false e (inr w) = finish-excluded fpu z.options url (with_rules fpu z url p) ∙ w

-- A tab is excluded when its URL is read, its scheme is not `file`, and its host is blocked or
-- there is an enabled rule that excludes tabs at this host and at every path.
pub sanitize_url-excluded :
    (fpu : Fpu) (z : Sanitizer) (url : Bytes) (p : ParsedUrl)
    → parse_url url ≡ value p
    → bytes_eq p.scheme (codes "file") ≡ false
    → (is_host_blocked z.options p.host ≡ true)
      ⊎ ((r : Rule) × (Member r z.rules) × IsFor exclude_tab r p)
    → (sanitize_url fpu z url).excluded ≡ true
sanitize_url-excluded fpu z url p h k why =
    ap SanitizeResult.excluded (sanitize_url-parsed fpu z url p h)
    ∙ sanitize_parsed-excluded fpu z url p k (by_rules why)
  where
    by_rules :
        (is_host_blocked z.options p.host ≡ true)
          ⊎ ((r : Rule) × (Member r z.rules) × IsFor exclude_tab r p)
        → (is_host_blocked z.options p.host ≡ true) ⊎ (is_dropped (with_rules fpu z url p) ≡ true)
    by_rules (inl blocked) = inl blocked
    by_rules (inr (r, m, f)) = inr (
        apply_rules-is_dropped r p f z.rules (strip z.options (start p))
          (strip-IsLess z.options (start p)).same_host m)
