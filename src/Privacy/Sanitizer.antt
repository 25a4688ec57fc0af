-- ===== src/Privacy/Sanitizer.antt =====
-- `sanitize_url` and `sanitize_snapshot` of src/privacy/sanitizer.cpp. The code changes one parsed
-- URL and one result in place: here `Progress` holds the two, and each `if` is a step on it.
pub mod Parts
pub mod Steps
pub mod Rounds
pub mod Removal
pub mod Exclusion
pub mod Outcomes
pub mod Defaults
pub mod Tabs
use contextsnap.Base.{
  Bool, Bytes, List, [], any, bytes_eq, codes, false, has_part, if◌then◌else◌, is_empty, map, not,
  true, ℕ, ◌&&◌, ◌++◌, ◌+◌, ◌==◌, ◌||◌, ◌∷◌,
}
use contextsnap.Base.Int.{pos, to_int32}
use contextsnap.Base.Double.{Fpu}
use contextsnap.Errors.{Result, error, value}
use contextsnap.Types.{Snapshot, TabInfo, WindowInfo}
use contextsnap.Privacy.Rules.{
  Rule, RuleAction, SanitizeResult, Sanitizer, SanitizerOptions, any_glob, contains_ci, drop_url,
  exclude_tab, is_host_blocked, looks_like_secret, mask_parameter, remove_parameter, truncate_path,
}
use contextsnap.Privacy.Url.{ParsedUrl, Query, parse_url, url_string}

pub record Progress : Type 0 where
  pub parsed : ParsedUrl
  pub modified : Bool
  pub applied_rule_ids : List Bytes

-- `parsed` replaced, `modified` set and the rule named.
abbrev pub applied : Bytes → ParsedUrl → Progress → Progress
applied name parsed s = record {
  parsed = parsed;
  modified = true;
  applied_rule_ids = s.applied_rule_ids ++ name ∷ [];
}

abbrev pub start : ParsedUrl → Progress
start parsed = record { parsed = parsed; modified = false; applied_rule_ids = [] }

-- The three options that strip a part of every URL.
abbrev pub strip_userinfo_step : SanitizerOptions → Progress → Progress
strip_userinfo_step o s =
    if o.strip_userinfo && not (is_empty s.parsed.userinfo)
    then applied (codes "userinfo") (record s.parsed { userinfo = [] }) s
    else s

abbrev pub strip_fragment_step : SanitizerOptions → Progress → Progress
strip_fragment_step o s =
    if o.strip_fragments && not (is_empty s.parsed.fragment)
    then applied (codes "fragment") (record s.parsed { fragment = [] }) s
    else s

abbrev pub strip_query_step : SanitizerOptions → Progress → Progress
strip_query_step o s =
    if o.strip_all_query_params && not (is_empty s.parsed.query)
    then applied (codes "strip-all-query") (record s.parsed { query = [] }) s
    else s

unfoldable pub strip : SanitizerOptions → Progress → Progress
strip o s = strip_query_step o (strip_fragment_step o (strip_userinfo_step o s))

-- The loop of the two actions on parameters: what is kept.
unfoldable pub kept_parameters : Bool → List Bytes → Query → Query
unfolding contains_ci
kept_parameters mask names [] = []
kept_parameters mask names ((key, val) ∷ query) =
    let rest = kept_parameters mask names query in
    if not (contains_ci names key)
    then (key, val) ∷ rest
    else if mask
    then (key, codes "[redacted]") ∷ rest
    else rest

unfoldable pub names_any : List Bytes → Query → Bool
unfolding contains_ci
names_any names query = any (λ kv. contains_ci names kv.0) query

unfoldable pub parameter_action : Bool → Rule → Progress → Progress
unfolding kept_parameters names_any
parameter_action mask r s =
    if names_any r.parameters s.parsed.query
    then applied r.id (record s.parsed { query = kept_parameters mask r.parameters s.parsed.query })
        s
    else s

-- The conditions of the loop's `continue`s.
unfoldable pub rule_fits : Rule → ParsedUrl → Bool
unfolding any_glob
rule_fits r parsed =
    r.enabled
    && not (bytes_eq r.id (codes "local-files"))
    && any_glob r.host_patterns parsed.host
    && any_glob r.path_patterns parsed.path

-- How the rules end: the tab is dropped (`return` inside the loop), or they have all been tried.
pub data Outcome : Type 0 where
  dropped : Progress → Outcome
  passed : Progress → Outcome

abbrev pub truncate_action : Rule → Progress → Progress
truncate_action r s =
    if not (is_empty s.parsed.path) && not (bytes_eq s.parsed.path (codes "/"))
    then applied r.id (record s.parsed { path = codes "/"; query = [] }) s
    else s

-- The `switch` on the action.
unfoldable pub rule_action : RuleAction → Rule → Progress → Outcome
unfolding parameter_action
rule_action exclude_tab r s = dropped (applied r.id s.parsed s)
rule_action drop_url r s =
    passed (applied r.id (record s.parsed { path = []; query = []; fragment = [] }) s)
rule_action truncate_path r s = passed (truncate_action r s)
rule_action remove_parameter r s = passed (parameter_action false r s)
rule_action mask_parameter r s = passed (parameter_action true r s)

unfoldable pub rule_step : Rule → Progress → Outcome
unfolding rule_fits rule_action
rule_step r s = if rule_fits r s.parsed then rule_action r.action r s else passed s

abbrev pub and_then : Outcome → (Progress → Outcome) → Outcome
and_then (dropped s) more = dropped s
and_then (passed s) more = more s

unfoldable pub apply_rules : List Rule → Progress → Outcome
unfolding rule_step
apply_rules [] s = passed s
apply_rules (r ∷ rs) s = and_then (rule_step r s) (apply_rules rs)

-- A tab that is kept.
unfoldable pub cleaned : SanitizeResult → TabInfo → TabInfo
unfolding has_part
cleaned r tab =
    if r.modified
    then record tab {
      url = r.url;
      sanitized = true;
      title =
          if has_part tab.title (codes "token") || has_part tab.title (codes "password")
          then codes "[redacted]"
          else tab.title;
    }
    else tab

-- The loop that numbers the tabs again, from `i` on.
unfoldable pub reindex : ℕ → List TabInfo → List TabInfo
unfolding to_int32
reindex i [] = []
reindex i (tab ∷ tabs) = record tab { index = to_int32 (pos i) } ∷ reindex (i + 1) tabs

module _ (fpu : Fpu) where
  -- The last loop: parameters that look like secrets are dropped, each naming the rule "entropy".
  unfoldable pub drop_secrets : SanitizerOptions → Query → Query × List Bytes
  unfolding looks_like_secret
  drop_secrets o [] = ([], [])
  drop_secrets o ((key, val) ∷ query) =
      let (kept, ids) = drop_secrets o query in
      if looks_like_secret fpu o key val
      then (kept, codes "entropy" ∷ ids)
      else ((key, val) ∷ kept, ids)

  unfoldable pub secrets_step : SanitizerOptions → Progress → Progress
  unfolding drop_secrets
  secrets_step o s =
      let (kept, ids) = drop_secrets o s.parsed.query in
      record {
        parsed = record s.parsed { query = kept };
        modified = s.modified || not (is_empty ids);
        applied_rule_ids = s.applied_rule_ids ++ ids;
      }

  -- `result`, whose `url` is the one given until the end.
  unfoldable pub finish : SanitizerOptions → Bytes → Outcome → SanitizeResult
  unfolding secrets_step url_string
  finish o url (dropped s) = record {
    url = url;
    modified = s.modified;
    excluded = true;
    applied_rule_ids = s.applied_rule_ids;
  }
  finish o url (passed s) =
      let last = secrets_step o s in
      record {
        url = url_string last.parsed;
        modified = last.modified;
        excluded = false;
        applied_rule_ids = last.applied_rule_ids;
      }

  unfoldable pub sanitize_parsed : Sanitizer → Bytes → ParsedUrl → SanitizeResult
  unfolding is_host_blocked strip apply_rules finish
  sanitize_parsed z url parsed =
      if bytes_eq parsed.scheme (codes "file")
      then record {
        url = codes "file:///[redacted]";
        modified = true;
        excluded = false;
        applied_rule_ids = codes "local-files" ∷ [];
      }
      else if is_host_blocked z.options parsed.host
      then record {
        url = url;
        modified = true;
        excluded = true;
        applied_rule_ids = codes "domain-policy" ∷ [];
      }
      else finish z.options url (apply_rules z.rules (strip z.options (start parsed)))

  unfoldable pub with_parsed : Sanitizer → Bytes → Result ParsedUrl → SanitizeResult
  unfolding sanitize_parsed
  with_parsed z url (value parsed) = sanitize_parsed z url parsed
  with_parsed z url (error e) =
      let queried = any (λ c. c == b'?') url in
      record { url = url; modified = queried; excluded = queried; applied_rule_ids = [] }

  -- `Sanitizer::sanitize_url`.
  unfoldable pub sanitize_url : Sanitizer → Bytes → SanitizeResult
  unfolding with_parsed parse_url
  sanitize_url z [] = record { url = []; modified = false; excluded = false; applied_rule_ids = [] }
  sanitize_url z (c ∷ s) = with_parsed z (c ∷ s) (parse_url (c ∷ s))

  unfoldable pub kept_tabs : Sanitizer → List TabInfo → List TabInfo
  unfolding sanitize_url cleaned
  kept_tabs z [] = []
  kept_tabs z (tab ∷ tabs) =
      let r = sanitize_url z tab.url in
      let rest = kept_tabs z tabs in if r.excluded then rest else cleaned r tab ∷ rest

  unfoldable pub sanitize_window : Sanitizer → WindowInfo → WindowInfo
  unfolding kept_tabs reindex
  sanitize_window z w = record w { tabs = reindex 0 (kept_tabs z w.tabs) }

  -- `Sanitizer::sanitize_snapshot`.
  unfoldable pub sanitize_snapshot : Sanitizer → Snapshot → Snapshot
  unfolding sanitize_window
  sanitize_snapshot z s = record s { windows = map (sanitize_window z) s.windows }
