-- ===== src/Privacy/Sanitizer/Rounds.antt =====
-- A rule that removes parameters has done so behind its round, and the later rules keep it.
use contextsnap.Base.{
  Bool, Bytes, List, Member, [], ap, arith, bytes_eq, codes, false, here, if◌then◌else◌, not, refl,
  subst, sym, there, true, ◌&&◌, ◌∙◌, ◌∷◌, ◌≡◌,
}
use contextsnap.Privacy.Rules.{Rule, RuleAction, SanitizerOptions, any_glob, remove_parameter}
use contextsnap.Privacy.Url.{ParsedUrl}
use contextsnap.Privacy.Sanitizer.{
  Outcome, Progress, and_then, applied, apply_rules, dropped, kept_parameters, names_any,
  parameter_action, passed, rule_action, rule_fits, rule_step, strip,
}
use contextsnap.Privacy.Sanitizer.Steps.{
  At, LessThan, apply_rules-IsLess, kept_parameters-removed, rule_step-IsLess, less_names,
}

pub record IsFor (act : RuleAction) (r : Rule) (p : ParsedUrl) : Type 0 where
  pub acts : r.action ≡ act
  pub is_enabled : r.enabled ≡ true
  pub is_plain : bytes_eq r.id (codes "local-files") ≡ false
  pub at_host : any_glob r.host_patterns p.host ≡ true
  pub any_path : r.path_patterns ≡ []

IsFor-rule_fits :
    (act : RuleAction) (r : Rule) (p q : ParsedUrl)
    → IsFor act r p
    → q.host ≡ p.host
    → rule_fits r q ≡ true
unfolding rule_fits any_glob
IsFor-rule_fits act r p q h e =
    ap
      (λ b.
        b
        && not (bytes_eq r.id (codes "local-files"))
        && any_glob r.host_patterns q.host
        && any_glob r.path_patterns q.path)
      h.is_enabled
    ∙ ap (λ b. not b && any_glob r.host_patterns q.host && any_glob r.path_patterns q.path)
        h.is_plain
    ∙ ap (λ b. b && any_glob r.path_patterns q.path) (ap (any_glob r.host_patterns) e ∙ h.at_host)
    ∙ ap (λ ps. any_glob ps q.path) h.any_path

pub IsFor-rule_step :
    (act : RuleAction) (r : Rule) (p : ParsedUrl) (s : Progress)
    → IsFor act r p
    → s.parsed.host ≡ p.host
    → rule_step r s ≡ rule_action act r s
unfolding rule_step
IsFor-rule_step act r p s h e =
    ap (λ b. if b then rule_action r.action r s else passed s)
      (IsFor-rule_fits act r p s.parsed h e)
    ∙ ap (λ a. rule_action a r s) h.acts

parameter_action-removed :
    (r : Rule) (s : Progress)
    → names_any r.parameters (parameter_action false r s).parsed.query ≡ false
unfolding parameter_action
parameter_action-removed r s = go (names_any r.parameters s.parsed.query) refl
  where
    go :
        (b : Bool)
        → names_any r.parameters s.parsed.query ≡ b
        → names_any r.parameters
            (Progress.parsed (
              if b
              then applied r.id
                  (record s.parsed { query = kept_parameters false r.parameters s.parsed.query })
                  s
              else s)).query
          ≡ false
    go true found = kept_parameters-removed r.parameters s.parsed.query
    go false clear = clear

abbrev pub Passed {ℓ} : (Progress → Type ℓ) → Outcome → Type ℓ
Passed P (dropped s) = Unit
Passed P (passed s) = P s

abbrev pub Clean : List Bytes → Progress → Type 0
Clean ns s = names_any ns s.parsed.query ≡ false

module _ (r : Rule) (p : ParsedUrl) (h : IsFor remove_parameter r p) where
  stays-Clean :
      (s : Progress) (o : Outcome)
      → At (LessThan s.parsed) o
      → Clean r.parameters s
      → Passed (Clean r.parameters) o
  stays-Clean s (dropped t) less clean = tt
  stays-Clean s (passed t) less clean = less_names less r.parameters clean

  removed_here :
      (rs : List Rule) (s : Progress)
      → s.parsed.host ≡ p.host
      → Passed (Clean r.parameters) (and_then (rule_step r s) (apply_rules rs))
  unfolding rule_action
  removed_here rs s e =
      subst (λ o. Passed (Clean r.parameters) (and_then o (apply_rules rs)))
        (sym (IsFor-rule_step remove_parameter r p s h e))
        (stays-Clean (parameter_action false r s) (apply_rules rs (parameter_action false r s))
          (apply_rules-IsLess rs (parameter_action false r s)) (parameter_action-removed r s))

  pub apply_rules-removed :
      (rs : List Rule) (s : Progress)
      → s.parsed.host ≡ p.host
      → Member r rs
      → Passed (Clean r.parameters) (apply_rules rs s)
  unfolding apply_rules
  apply_rules-removed [] s e m = elim m [ ]
  apply_rules-removed (x ∷ rs) s e (here same) =
      subst (λ y. Passed (Clean r.parameters) (and_then (rule_step y s) (apply_rules rs))) same
        (removed_here rs s e)
  apply_rules-removed (x ∷ rs) s e (there m) =
      go (λ t k. apply_rules-removed rs t k m) (rule_step x s) (rule_step-IsLess x s)
    where
      go :
          ((t : Progress) → t.parsed.host ≡ p.host → Passed (Clean r.parameters) (apply_rules rs t))
          → (o : Outcome) → At (LessThan s.parsed) o
          → Passed (Clean r.parameters) (and_then o (apply_rules rs))
      go more (dropped t) less = tt
      go more (passed t) less = more t (less.same_host ∙ e)

-- The options that strip a part.
pub stripped_userinfo :
    (o : SanitizerOptions) (s : Progress)
    → o.strip_userinfo ≡ true
    → (strip o s).parsed.userinfo ≡ []
unfolding strip
stripped_userinfo o s h = ground arith

pub stripped_fragment :
    (o : SanitizerOptions) (s : Progress)
    → o.strip_fragments ≡ true
    → (strip o s).parsed.fragment ≡ []
unfolding strip
stripped_fragment o s h = ground arith
