-- ===== src/Privacy/Sanitizer/Removal.antt =====
-- What does not survive `sanitize_url`: the parameters of a rule, and the stripped parts.
use contextsnap.Base.{
  Bool, Bytes, Member, [], ap, arith, bytes_eq, codes, false, if◌then◌else◌, refl, sym, true, ◌∙◌,
  ◌∷◌, ◌≡◌,
}
use contextsnap.Privacy.Rules.{
  Rule, SanitizeResult, Sanitizer, SanitizerOptions, is_host_blocked, remove_parameter,
}
use contextsnap.Privacy.Url.{ParsedUrl, parse_url, url_string}
use contextsnap.Privacy.Sanitizer.{
  Outcome, Progress, apply_rules, dropped, finish, names_any, passed, sanitize_parsed, sanitize_url,
  secrets_step, start, strip, with_parsed,
}
use contextsnap.Privacy.Sanitizer.Steps.{
  At, IsLess, IsLess-trans, LessThan, apply_rules-IsLess, secrets_step-IsLess, strip-IsLess,
  less_fragment, less_names, less_query, less_userinfo,
}
use contextsnap.Base.Double.{Fpu}
use contextsnap.Errors.{value}
use contextsnap.Privacy.Sanitizer.Rounds.{
  Clean, IsFor, Passed, apply_rules-removed, stripped_fragment, stripped_userinfo,
}

module _ (fpu : Fpu) (z : Sanitizer) (url : Bytes) (p : ParsedUrl) where
  abbrev pub with_rules : Outcome
  with_rules = apply_rules z.rules (strip z.options (start p))

  pub sanitize_url-parsed :
      parse_url url ≡ value p → sanitize_url fpu z url ≡ sanitize_parsed fpu z url p
  unfolding sanitize_url with_parsed parse_url
  sanitize_url-parsed h = go url h
    where
      go : (s : Bytes) → parse_url s ≡ value p → sanitize_url fpu z s ≡ sanitize_parsed fpu z s p
      go [] e = cc
      go (c ∷ s) e = ap (with_parsed fpu z (c ∷ s)) e

  abbrev pub blocked_result : SanitizeResult
  blocked_result = record {
    url = url;
    modified = true;
    excluded = true;
    applied_rule_ids = codes "domain-policy" ∷ [];
  }

  abbrev pub file_result : SanitizeResult
  file_result = record {
    url = codes "file:///[redacted]";
    modified = true;
    excluded = false;
    applied_rule_ids = codes "local-files" ∷ [];
  }

  -- A result that does not exclude the tab comes from the rules.
  pub sanitize_parsed-finish :
      bytes_eq p.scheme (codes "file") ≡ false
      → (sanitize_parsed fpu z url p).excluded ≡ false
      → sanitize_parsed fpu z url p ≡ finish fpu z.options url with_rules
  unfolding sanitize_parsed
  sanitize_parsed-finish h k =
      go (bytes_eq p.scheme (codes "file")) (is_host_blocked z.options p.host) h k
    where
      go :
          (file blocked : Bool)
          → file ≡ false
          → SanitizeResult.excluded (
              if file
              then file_result
              else if blocked
              then blocked_result
              else finish fpu z.options url with_rules)
            ≡ false
          → (if file
              then file_result
              else if blocked
              then blocked_result
              else finish fpu z.options url with_rules)
            ≡ finish fpu z.options url with_rules
      go true blocked e x = cc
      go false true e x = cc
      go false false e x = refl

  shown :
      (P : ParsedUrl → Type 0)
      → ((q r : ParsedUrl) → IsLess r q → P q → P r)
      → (o : Outcome) → Passed (λ t. P t.parsed) o
      → (finish fpu z.options url o).excluded ≡ false
      → (q : ParsedUrl) × ((finish fpu z.options url o).url ≡ url_string q) × P q
  unfolding finish
  shown P less (dropped t) h k = cc
  shown P less (passed t) h k = (
    (secrets_step fpu z.options t).parsed,
    refl,
    less t.parsed (secrets_step fpu z.options t).parsed (secrets_step-IsLess fpu z.options t) h,
  )

-- The URL `q` keeps nothing that the rules and the options of `z` take out of `p`.
pub record IsClean (z : Sanitizer) (p q : ParsedUrl) : Type 0 where
  pub less : IsLess q p
  pub removed :
      (r : Rule)
      → Member r z.rules
      → IsFor remove_parameter r p
      → names_any r.parameters q.query ≡ false
  pub userinfo_stripped : z.options.strip_userinfo ≡ true → q.userinfo ≡ []
  pub fragment_stripped : z.options.strip_fragments ≡ true → q.fragment ≡ []
  pub query_stripped : z.options.strip_all_query_params ≡ true → q.query ≡ []

IsClean-less : (z : Sanitizer) (p q r : ParsedUrl) → IsLess r q → IsClean z p q → IsClean z p r
IsClean-less z p q r l c = record {
  less = IsLess-trans l c.less;
  removed = λ rule m f. less_names l rule.parameters (c.removed rule m f);
  userinfo_stripped = λ h. less_userinfo l (c.userinfo_stripped h);
  fragment_stripped = λ h. less_fragment l (c.fragment_stripped h);
  query_stripped = λ h. less_query l (c.query_stripped h);
}

stripped_query :
    (o : SanitizerOptions) (s : Progress)
    → o.strip_all_query_params ≡ true
    → (strip o s).parsed.query ≡ []
unfolding strip
stripped_query o s h = ground arith

rules-IsClean :
    (z : Sanitizer) (p : ParsedUrl)
    → Passed (λ t. IsClean z p t.parsed) (apply_rules z.rules (strip z.options (start p)))
rules-IsClean z p =
    go (apply_rules z.rules s) (apply_rules-IsLess z.rules s)
      λ r m f. apply_rules-removed r p f z.rules s (strip-IsLess z.options (start p)).same_host m
  where
    s : Progress
    s = strip z.options (start p)

    go :
        (o : Outcome)
        → At (LessThan s.parsed) o
        → ((r : Rule)
            → Member r z.rules
            → IsFor remove_parameter r p
            → Passed (Clean r.parameters) o)
        → Passed (λ t. IsClean z p t.parsed) o
    go (dropped t) l h = tt
    go (passed t) l h = record {
      less = IsLess-trans l (strip-IsLess z.options (start p));
      removed = h;
      userinfo_stripped = λ k. less_userinfo l (stripped_userinfo z.options (start p) k);
      fragment_stripped = λ k. less_fragment l (stripped_fragment z.options (start p) k);
      query_stripped = λ k. less_query l (stripped_query z.options (start p) k);
    }

-- When a URL with a scheme other than `file` is read and its tab is not excluded, the URL that is
-- returned is printed from one with the same scheme, host and port, whose path is that of the URL,
-- or empty, or `/`, whose user information and fragment are those of the URL or empty, and whose
-- query is that of the URL but for parameters that are taken out or redacted. No parameter of an
-- enabled rule that removes parameters at this host and at every path is left in it, and user
-- information, fragment and query are gone where the options say so.
pub sanitize_url-IsClean :
    (fpu : Fpu) (z : Sanitizer) (url : Bytes) (p : ParsedUrl)
    → parse_url url ≡ value p
    → bytes_eq p.scheme (codes "file") ≡ false
    → (sanitize_url fpu z url).excluded ≡ false
    → (q : ParsedUrl) × ((sanitize_url fpu z url).url ≡ url_string q) × IsClean z p q
sanitize_url-IsClean fpu z url p h k e =
    let read = sanitize_url-parsed fpu z url p h in
    let kept = ap SanitizeResult.excluded (sym read) ∙ e in
    let ended = sanitize_parsed-finish fpu z url p k kept in
    let (q, printed, clean) =
      shown fpu z url p (IsClean z p) (λ q r l c. IsClean-less z p q r l c) (with_rules fpu z url p)
        (rules-IsClean z p) (ap SanitizeResult.excluded (sym ended) ∙ kept) in
    (q, ap SanitizeResult.url (read ∙ ended) ∙ printed, clean)
