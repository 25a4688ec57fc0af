-- ===== src/Privacy/Sanitizer/Steps.antt =====
-- What the steps of `sanitize_url` can do to a parsed URL: they never bring anything back.
use contextsnap.Privacy.Sanitizer.Parts.{
  Filtered, Filtered-names, Filtered-nil, Filtered-refl, Filtered-trans, IsPart, IsPart-nil,
  IsPart-trans, IsPath, IsPath-trans, finished, keep, none_kept, redact, take_out,
}
use contextsnap.Base.{
  Bool, Bytes, List, [], arith, bytes_eq, codes, false, if◌then◌else◌, inl, inr, is_empty, not,
  refl, true, ◌&&◌, ◌∙◌, ◌∷◌, ◌≡◌,
}
use contextsnap.Privacy.Url.{ParsedUrl, Query}
use contextsnap.Privacy.Sanitizer.{
  Outcome, Progress, and_then, applied, apply_rules, drop_secrets, dropped, kept_parameters,
  names_any, parameter_action, passed, rule_action, rule_fits, rule_step, secrets_step, strip,
  strip_fragment_step, strip_userinfo_step,
}
use contextsnap.Privacy.Rules.{
  Rule, RuleAction, SanitizerOptions, contains_ci, drop_url, exclude_tab, looks_like_secret,
  mask_parameter, remove_parameter, truncate_path,
}
use contextsnap.Base.Double.{Fpu}

-- `q` has the scheme, the host and the port of `p`; its user information and its fragment are those
-- of `p` or gone, its path is that of `p`, gone or cut to the root, and its query is that of `p` but
-- for parameters that are taken out or redacted.
pub record IsLess (q p : ParsedUrl) : Type 0 where
  pub same_scheme : q.scheme ≡ p.scheme
  pub same_host : q.host ≡ p.host
  pub same_port : q.port ≡ p.port
  pub userinfo_part : IsPart q.userinfo p.userinfo
  pub path_part : IsPath q.path p.path
  pub fragment_part : IsPart q.fragment p.fragment
  pub filtered : Filtered q.query p.query

pub IsLess-refl : (p : ParsedUrl) → IsLess p p
IsLess-refl p = record {
  same_scheme = refl;
  same_host = refl;
  same_port = refl;
  userinfo_part = inl refl;
  path_part = inl (inl refl);
  fragment_part = inl refl;
  filtered = Filtered-refl p.query;
}

pub IsLess-trans : {r q p : ParsedUrl} → IsLess r q → IsLess q p → IsLess r p
IsLess-trans a b = record {
  same_scheme = a.same_scheme ∙ b.same_scheme;
  same_host = a.same_host ∙ b.same_host;
  same_port = a.same_port ∙ b.same_port;
  userinfo_part = IsPart-trans a.userinfo_part b.userinfo_part;
  path_part = IsPath-trans a.path_part b.path_part;
  fragment_part = IsPart-trans a.fragment_part b.fragment_part;
  filtered = Filtered-trans b.filtered a.filtered;
}

-- What a smaller URL lacks if the larger one does.
module _ {q p : ParsedUrl} (l : IsLess q p) where
  pub less_names : (ns : List Bytes) → names_any ns p.query ≡ false → names_any ns q.query ≡ false
  less_names ns h = Filtered-names ns l.filtered h

  pub less_userinfo : p.userinfo ≡ [] → q.userinfo ≡ []
  less_userinfo h = IsPart-nil l.userinfo_part h

  pub less_fragment : p.fragment ≡ [] → q.fragment ≡ []
  less_fragment h = IsPart-nil l.fragment_part h

  pub less_query : p.query ≡ [] → q.query ≡ []
  less_query h = Filtered-nil l.filtered h

-- The steps on a parsed URL.
module _ (p : ParsedUrl) where
  with_parts :
      (userinfo path fragment : Bytes) (query : Query)
      → IsPart userinfo p.userinfo
      → IsPath path p.path
      → IsPart fragment p.fragment
      → Filtered query p.query
      → IsLess (record p { userinfo = userinfo; path = path; fragment = fragment; query = query }) p
  with_parts userinfo path fragment query u a f q = record {
    same_scheme = refl;
    same_host = refl;
    same_port = refl;
    userinfo_part = u;
    path_part = a;
    fragment_part = f;
    filtered = q;
  }

  with_query : (query : Query) → Filtered query p.query → IsLess (record p { query = query }) p
  with_query query f =
      with_parts p.userinfo p.path p.fragment query (inl refl) (inl (inl refl)) (inl refl) f

  without_userinfo : IsLess (record p { userinfo = [] }) p
  without_userinfo =
      with_parts [] p.path p.fragment p.query (inr refl) (inl (inl refl)) (inl refl)
        (Filtered-refl p.query)

  without_fragment : IsLess (record p { fragment = [] }) p
  without_fragment =
      with_parts p.userinfo p.path [] p.query (inl refl) (inl (inl refl)) (inr refl)
        (Filtered-refl p.query)

  with_path : IsLess (record p { path = codes "/"; query = [] }) p
  with_path =
      with_parts p.userinfo (codes "/") p.fragment [] (inl refl) (inr refl) (inl refl)
        (none_kept p.query)

  origin_only : IsLess (record p { path = []; query = []; fragment = [] }) p
  origin_only =
      with_parts p.userinfo [] [] [] (inl refl) (inl (inr refl)) (inr refl) (none_kept p.query)

-- A loop that keeps some parameters and drops or masks the others.
kept_parameters-Filtered :
    (mask : Bool) (ns : List Bytes) (query : Query) → Filtered (kept_parameters mask ns query) query
unfolding kept_parameters
kept_parameters-Filtered mask ns [] = finished
kept_parameters-Filtered mask ns ((key, val) ∷ query) =
    go (contains_ci ns key) mask (kept_parameters-Filtered mask ns query)
  where
    go :
        (found masks : Bool)
        → Filtered (kept_parameters mask ns query) query
        → Filtered
            (if not found
              then (key, val) ∷ kept_parameters mask ns query
              else if masks
              then (key, codes "[redacted]") ∷ kept_parameters mask ns query
              else kept_parameters mask ns query)
            ((key, val) ∷ query)
    go false masks f = keep f
    go true true f = redact refl refl f
    go true false f = take_out f

-- The rule that removes a parameter.
pub kept_parameters-removed :
    (ns : List Bytes) (query : Query) → names_any ns (kept_parameters false ns query) ≡ false
unfolding names_any kept_parameters
kept_parameters-removed ns [] = refl
kept_parameters-removed ns ((key, val) ∷ query) = ground (arith, kept_parameters-removed ns query)

-- A step that is made under a condition.
if-IsLess :
    (b : Bool) (name : Bytes) (q : ParsedUrl) (s : Progress)
    → IsLess q s.parsed
    → IsLess (Progress.parsed (if b then applied name q s else s)) s.parsed
if-IsLess true name q s h = h
if-IsLess false name q s h = IsLess-refl s.parsed

pub strip-IsLess : (o : SanitizerOptions) (s : Progress) → IsLess (strip o s).parsed s.parsed
unfolding strip
strip-IsLess o s =
    let s1 = strip_userinfo_step o s in
    let s2 = strip_fragment_step o s1 in
    IsLess-trans
      (if-IsLess (o.strip_all_query_params && not (is_empty s2.parsed.query))
        (codes "strip-all-query") (record s2.parsed { query = [] }) s2
        (with_query s2.parsed [] (none_kept s2.parsed.query)))
      (IsLess-trans
        (if-IsLess (o.strip_fragments && not (is_empty s1.parsed.fragment)) (codes "fragment")
          (record s1.parsed { fragment = [] }) s1 (without_fragment s1.parsed))
        (if-IsLess (o.strip_userinfo && not (is_empty s.parsed.userinfo)) (codes "userinfo")
          (record s.parsed { userinfo = [] }) s (without_userinfo s.parsed)))

-- A predicate on the progress, at either end of the rules.
abbrev pub At {ℓ} : (Progress → Type ℓ) → Outcome → Type ℓ
At P (dropped s) = P s
At P (passed s) = P s

abbrev pub LessThan : ParsedUrl → Progress → Type 0
LessThan p s = IsLess s.parsed p

parameter_action-IsLess :
    (mask : Bool) (r : Rule) (s : Progress) → IsLess (parameter_action mask r s).parsed s.parsed
unfolding parameter_action
parameter_action-IsLess mask r s =
    if-IsLess (names_any r.parameters s.parsed.query) r.id
      (record s.parsed { query = kept_parameters mask r.parameters s.parsed.query }) s
      (with_query s.parsed (kept_parameters mask r.parameters s.parsed.query)
        (kept_parameters-Filtered mask r.parameters s.parsed.query))

rule_action-IsLess :
    (a : RuleAction) (r : Rule) (s : Progress) → At (LessThan s.parsed) (rule_action a r s)
unfolding rule_action
rule_action-IsLess exclude_tab r s = IsLess-refl s.parsed
rule_action-IsLess drop_url r s = origin_only s.parsed
rule_action-IsLess truncate_path r s =
    if-IsLess (not (is_empty s.parsed.path) && not (bytes_eq s.parsed.path (codes "/"))) r.id
      (record s.parsed { path = codes "/"; query = [] }) s (with_path s.parsed)
rule_action-IsLess remove_parameter r s = parameter_action-IsLess false r s
rule_action-IsLess mask_parameter r s = parameter_action-IsLess true r s

pub rule_step-IsLess : (r : Rule) (s : Progress) → At (LessThan s.parsed) (rule_step r s)
unfolding rule_step
rule_step-IsLess r s = go (rule_fits r s.parsed)
  where
    go : (b : Bool) → At (LessThan s.parsed) (if b then rule_action r.action r s else passed s)
    go true = rule_action-IsLess r.action r s
    go false = IsLess-refl s.parsed

pub apply_rules-IsLess : (rs : List Rule) (s : Progress) → At (LessThan s.parsed) (apply_rules rs s)
unfolding apply_rules
apply_rules-IsLess [] s = IsLess-refl s.parsed
apply_rules-IsLess (r ∷ rs) s = go (apply_rules-IsLess rs) (rule_step r s) (rule_step-IsLess r s)
  where
    weaken :
        (o : Outcome) (t : Progress)
        → IsLess t.parsed s.parsed
        → At (LessThan t.parsed) o
        → At (LessThan s.parsed) o
    weaken (dropped u) t h k = IsLess-trans k h
    weaken (passed u) t h k = IsLess-trans k h

    go :
        ((t : Progress) → At (LessThan t.parsed) (apply_rules rs t))
        → (o : Outcome) → At (LessThan s.parsed) o
        → At (LessThan s.parsed) (and_then o (apply_rules rs))
    go more (dropped t) h = h
    go more (passed t) h = weaken (apply_rules rs t) t h (more t)

module _ (fpu : Fpu) (o : SanitizerOptions) where
  drop_secrets-Filtered : (query : Query) → Filtered (drop_secrets fpu o query).0 query
  unfolding drop_secrets
  drop_secrets-Filtered [] = finished
  drop_secrets-Filtered ((key, val) ∷ query) =
      go (looks_like_secret fpu o key val) (drop_secrets fpu o query).0 (drop_secrets fpu o query).1
        (drop_secrets-Filtered query)
    where
      with_first : Query → List Bytes → Bool → Query × List Bytes
      with_first rest ids b = if b then (rest, codes "entropy" ∷ ids) else ((key, val) ∷ rest, ids)

      go :
          (b : Bool) (rest : Query) (ids : List Bytes)
          → Filtered rest query
          → Filtered (with_first rest ids b).0 ((key, val) ∷ query)
      go true rest ids f = take_out f
      go false rest ids f = keep f

  pub secrets_step-IsLess : (s : Progress) → IsLess (secrets_step fpu o s).parsed s.parsed
  unfolding secrets_step
  secrets_step-IsLess s =
      with_query s.parsed (drop_secrets fpu o s.parsed.query).0
        (drop_secrets-Filtered s.parsed.query)
