-- ===== src/Privacy/Sanitizer/Outcomes.antt =====
-- Which URLs `sanitize_url` leaves as they are.
use contextsnap.Base.{
  Bool, Bytes, List, [], ap, append-nil, arith, bytes_eq, codes, false, if◌then◌else◌, is_empty,
  not, refl, subst, sym, true, ◌&&◌, ◌++◌, ◌||◌, ◌∙◌, ◌∷◌, ◌≡◌,
}
use contextsnap.Base.Double.{Fpu}
use contextsnap.Errors.{value}
use contextsnap.Privacy.Rules.{
  Rule, RuleAction, SanitizeResult, Sanitizer, SanitizerOptions, drop_url, exclude_tab,
  is_host_blocked, mask_parameter, remove_parameter, truncate_path,
}
use contextsnap.Privacy.Url.{ParsedUrl, Query, parse_url, url_string}
use contextsnap.Privacy.Sanitizer.{
  Outcome, Progress, and_then, applied, apply_rules, drop_secrets, dropped, finish, kept_parameters,
  names_any, parameter_action, passed, rule_action, rule_fits, rule_step, sanitize_parsed,
  sanitize_url, secrets_step, start, strip, strip_fragment_step, strip_userinfo_step,
}
use contextsnap.Privacy.Sanitizer.Removal.{
  blocked_result, file_result, sanitize_url-parsed, with_rules,
}

-- What has not been changed is the URL that was read.
abbrev Same : ParsedUrl → Progress → Type 0
Same p s = s.modified ≡ false → (s.parsed ≡ p) × (s.applied_rule_ids ≡ [])

-- At the end of the rules: a rule that drops the tab has changed the result.
abbrev Done : ParsedUrl → Outcome → Type 0
Done p (dropped s) = s.modified ≡ true
Done p (passed s) = Same p s

if-Same :
    (p : ParsedUrl) (b : Bool) (name : Bytes) (q : ParsedUrl) (s : Progress)
    → Same p s
    → Same p (if b then applied name q s else s)
if-Same p true name q s h = λ k. cc
if-Same p false name q s h = h

strip-Same : (o : SanitizerOptions) (p : ParsedUrl) → Same p (strip o (start p))
unfolding strip
strip-Same o p =
    let s = start p in
    let s1 = strip_userinfo_step o s in
    let s2 = strip_fragment_step o s1 in
    if-Same p (o.strip_all_query_params && not (is_empty s2.parsed.query)) (codes "strip-all-query")
      (record s2.parsed { query = [] }) s2
      (if-Same p (o.strip_fragments && not (is_empty s1.parsed.fragment)) (codes "fragment")
        (record s1.parsed { fragment = [] }) s1
        (if-Same p (o.strip_userinfo && not (is_empty s.parsed.userinfo)) (codes "userinfo")
          (record s.parsed { userinfo = [] }) s (λ h. (refl, refl))))

rule_action-Same :
    (p : ParsedUrl) (a : RuleAction) (r : Rule) (s : Progress)
    → Same p s
    → Done p (rule_action a r s)
unfolding rule_action parameter_action
rule_action-Same p exclude_tab r s h = refl
rule_action-Same p drop_url r s h = λ k. cc
rule_action-Same p truncate_path r s h =
    if-Same p (not (is_empty s.parsed.path) && not (bytes_eq s.parsed.path (codes "/"))) r.id
      (record s.parsed { path = codes "/"; query = [] }) s h
rule_action-Same p remove_parameter r s h =
    if-Same p (names_any r.parameters s.parsed.query) r.id
      (record s.parsed { query = kept_parameters false r.parameters s.parsed.query }) s h
rule_action-Same p mask_parameter r s h =
    if-Same p (names_any r.parameters s.parsed.query) r.id
      (record s.parsed { query = kept_parameters true r.parameters s.parsed.query }) s h

apply_rules-Same :
    (p : ParsedUrl) (rs : List Rule) (s : Progress) → Same p s → Done p (apply_rules rs s)
unfolding apply_rules rule_step
apply_rules-Same p [] s h = h
apply_rules-Same p (r ∷ rs) s h = step (rule_fits r s.parsed) (λ t k. apply_rules-Same p rs t k)
  where
    go :
        ((t : Progress) → Same p t → Done p (apply_rules rs t))
        → (o : Outcome) → Done p o
        → Done p (and_then o (apply_rules rs))
    go more (dropped t) k = k
    go more (passed t) k = more t k

    step :
        (b : Bool)
        → ((t : Progress) → Same p t → Done p (apply_rules rs t))
        → Done p (and_then (if b then rule_action r.action r s else passed s) (apply_rules rs))
    step true more = go more (rule_action r.action r s) (rule_action-Same p r.action r s h)
    step false more = more s h

drop_secrets-unchanged :
    (fpu : Fpu) (o : SanitizerOptions) (query : Query)
    → is_empty (drop_secrets fpu o query).1 ≡ true
    → drop_secrets fpu o query ≡ (query, [])
unfolding drop_secrets
drop_secrets-unchanged fpu o [] h = refl
drop_secrets-unchanged fpu o ((key, val) ∷ query) h =
    ground (arith, drop_secrets-unchanged fpu o query)

secrets_step-Same :
    (fpu : Fpu) (o : SanitizerOptions) (p : ParsedUrl) (s : Progress)
    → Same p s
    → Same p (secrets_step fpu o s)
unfolding secrets_step
secrets_step-Same fpu o p s h = λ k.
    let (plain, none_found) = parts s.modified (is_empty (drop_secrets fpu o s.parsed.query).1) k in
    let (parsed_same, ids_empty) = h plain in
    let same = drop_secrets-unchanged fpu o s.parsed.query none_found in
    (
      ap (λ q. record s.parsed { query = q.0 }) same ∙ parsed_same,
      ap (λ q. s.applied_rule_ids ++ q.1) same ∙ append-nil s.applied_rule_ids ∙ ids_empty,
    )
  where
    parts : (a b : Bool) → (a || not b) ≡ false → (a ≡ false) × (b ≡ true)
    parts false true e = (refl, refl)
    parts false false e = absurd (ground arith)
    parts true b e = absurd (ground arith)

abbrev pub IsUntouched : Bytes → SanitizeResult → Type 0
IsUntouched url r = (r.excluded ≡ false) × (r.applied_rule_ids ≡ []) × (r.url ≡ url)

finish-Same :
    (fpu : Fpu) (o : SanitizerOptions) (url : Bytes) (p : ParsedUrl) (out : Outcome)
    → Done p out
    → (finish fpu o url out).modified ≡ false
    → IsUntouched (url_string p) (finish fpu o url out)
unfolding finish
finish-Same fpu o url p (dropped s) h k = cc
finish-Same fpu o url p (passed s) h k =
    let (parsed_same, ids_empty) = secrets_step-Same fpu o p s h k in
    (refl, ids_empty, ap url_string parsed_same)

sanitize_parsed-Same :
    (fpu : Fpu) (z : Sanitizer) (url : Bytes) (p : ParsedUrl)
    → (sanitize_parsed fpu z url p).modified ≡ false
    → IsUntouched (url_string p) (sanitize_parsed fpu z url p)
unfolding sanitize_parsed
sanitize_parsed-Same fpu z url p h =
    go (bytes_eq p.scheme (codes "file")) (is_host_blocked z.options p.host) h
  where
    result : Bool → Bool → SanitizeResult
    result file blocked =
        if file
        then file_result fpu z url p
        else if blocked
        then blocked_result fpu z url p
        else finish fpu z.options url (with_rules fpu z url p)

    go :
        (file blocked : Bool)
        → (result file blocked).modified ≡ false
        → IsUntouched (url_string p) (result file blocked)
    go true blocked e = cc
    go false true e = cc
    go false false e =
        finish-Same fpu z.options url p (with_rules fpu z url p)
          (apply_rules-Same p z.rules (strip z.options (start p)) (strip-Same z.options p)) e

-- When a URL is read and the result says that nothing was modified, the tab is kept, no rule is
-- named, and the URL returned is the one that was read, printed again.
pub sanitize_url-IsUntouched :
    (fpu : Fpu) (z : Sanitizer) (url : Bytes) (p : ParsedUrl)
    → parse_url url ≡ value p
    → (sanitize_url fpu z url).modified ≡ false
    → IsUntouched (url_string p) (sanitize_url fpu z url)
sanitize_url-IsUntouched fpu z url p h k =
    let read = sanitize_url-parsed fpu z url p h in
    subst (IsUntouched (url_string p)) (sym read)
      (sanitize_parsed-Same fpu z url p (ap SanitizeResult.modified (sym read) ∙ k))
