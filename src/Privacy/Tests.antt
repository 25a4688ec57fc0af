-- ===== src/Privacy/Tests.antt =====
-- The sanitizer on concrete URLs, over a processor of whole numbers.
use contextsnap.Base.{
  Bytes, String, [], ap, codes, false, lower, refl, sym, to_lower, true, ◌∙◌, ◌∷◌, ◌≡◌, arith,
  filter, get_elem?, here, inr, map, none, some, there, ℕ, Member,
}
use contextsnap.Base.Double.{bits}
use contextsnap.Base.WholeFpu.{whole_fpu}
use contextsnap.Errors.{value}
use contextsnap.Privacy.Rules.{
  Rule, Sanitizer, SanitizerOptions, exclude_tab, remove_parameter, any_glob, default_rules,
  new_sanitizer,
}
use contextsnap.Privacy.Url.{
  ParsedUrl, Query, parameters_string, parse_url, url_string, with_authority, with_port,
  with_scheme, with_userinfo, with_colon,
}
use contextsnap.Privacy.Url.RoundTrip.{IsCanonical, parse_url-url_string}
use contextsnap.Privacy.Sanitizer.{sanitize_url, sanitize_window, names_any}
use contextsnap.Privacy.Sanitizer.Removal.{IsClean, sanitize_url-IsClean}
use contextsnap.Base.Int.{pos}
use contextsnap.Types.{BrowserKind, Rect, TabInfo, WindowInfo, WindowState}
use contextsnap.Privacy.Sanitizer.Exclusion.{sanitize_url-excluded}
use contextsnap.Privacy.Sanitizer.Outcomes.{IsUntouched, sanitize_url-IsUntouched}
use contextsnap.Privacy.Sanitizer.Defaults.{sanitize_url-new_sanitizer}
use contextsnap.Privacy.Sanitizer.Tabs.{is_kept, sanitize_window-tabs}
use contextsnap.Privacy.Sanitizer.Rounds.{IsFor}
use contextsnap.Privacy.Sanitizer.Steps.{IsLess}

abbrev parts : String → String → String → String → Query → String → ParsedUrl
parts scheme userinfo host path query fragment = record {
  scheme = codes scheme;
  userinfo = codes userinfo;
  host = codes host;
  port = [];
  path = codes path;
  query = query;
  fragment = codes fragment;
}

abbrev parameter : String → String → Bytes × Bytes
parameter key val = (codes key, codes val)

abbrev login : ParsedUrl
login =
    parts "https" "joe" "example.com" "/cb" (parameter "Code" "42" ∷ parameter "page" "2" ∷ [])
      "top"

login-IsCanonical : IsCanonical login
unfolding lower to_lower
login-IsCanonical = record {
  has_scheme = refl;
  scheme_plain = refl;
  scheme_small = refl;
  userinfo_plain = refl;
  host_plain = refl;
  host_unmarked = refl;
  host_small = refl;
  port_plain = refl;
  port_unmarked = refl;
  path_starts = refl;
  path_plain = refl;
  parameters = (
    record { keyed = refl; key_plain = refl; value_plain = refl },
    (record { keyed = refl; key_plain = refl; value_plain = refl }, tt),
  );
}

parse_url-url_string_example : parse_url (url_string login) ≡ value login
parse_url-url_string_example = parse_url-url_string login login-IsCanonical

printed : url_string login ≡ codes "https://joe@example.com/cb?Code=42&page=2#top"
unfolding url_string parameters_string
printed = refl

abbrev options : SanitizerOptions
options = record {
  strip_all_query_params = false;
  strip_fragments = true;
  strip_userinfo = true;
  detect_high_entropy = true;
  entropy_threshold = bits 3;
  entropy_min_length = 20;
  extra_sensitive_params = [];
  domain_denylist = codes "*.corp.example" ∷ [];
  domain_allowlist = [];
}

abbrev oauth : Rule
oauth = record {
  id = codes "oauth";
  description = [];
  action = remove_parameter;
  parameters = codes "code" ∷ [];
  host_patterns = [];
  path_patterns = [];
  enabled = true;
}

abbrev vaults : Rule
vaults = record {
  id = codes "private-browsing";
  description = [];
  action = exclude_tab;
  parameters = [];
  host_patterns = codes "*vault*" ∷ [];
  path_patterns = [];
  enabled = true;
}

abbrev sanitizer : Sanitizer
sanitizer = record { options = options; rules = oauth ∷ vaults ∷ [] }

abbrev login_url : Bytes
login_url = codes "https://joe@example.com/cb?Code=42&page=2#top"

login_read : parse_url login_url ≡ value login
login_read = ap parse_url (sym printed) ∙ parse_url-url_string_example

login_clean : (sanitize_url whole_fpu sanitizer login_url).excluded ≡ false
unfolding sanitize_url with_scheme with_authority with_userinfo with_port
login_clean = refl

login_result :
    (sanitize_url whole_fpu sanitizer login_url).url ≡ codes "https://example.com/cb?page=2"
unfolding sanitize_url with_scheme with_authority with_userinfo with_port
login_result = refl

sanitize_url-IsClean_example :
    (q : ParsedUrl) × ((sanitize_url whole_fpu sanitizer login_url).url ≡ url_string q)
    × IsClean sanitizer login q
sanitize_url-IsClean_example =
    sanitize_url-IsClean whole_fpu sanitizer login_url login login_read refl login_clean

abbrev vault : ParsedUrl
vault = parts "https" "" "vault.example" "/" [] ""

abbrev vault_url : Bytes
vault_url = codes "https://vault.example/"

vault_read : parse_url vault_url ≡ value vault
unfolding parse_url with_scheme with_authority with_userinfo with_port
vault_read = refl

vaults-IsFor : IsFor exclude_tab vaults vault
unfolding any_glob
vaults-IsFor = record {
  acts = refl;
  is_enabled = refl;
  is_plain = refl;
  at_host = refl;
  any_path = refl;
}

sanitize_url-excluded_example : (sanitize_url whole_fpu sanitizer vault_url).excluded ≡ true
sanitize_url-excluded_example =
    sanitize_url-excluded whole_fpu sanitizer vault_url vault vault_read refl
      (inr (vaults, there (here refl), vaults-IsFor))

abbrev docs : ParsedUrl
docs = parts "https" "" "docs.example" "/a" (parameter "page" "2" ∷ []) ""

abbrev docs_url : Bytes
docs_url = codes "https://docs.example/a?page=2"

docs_read : parse_url docs_url ≡ value docs
unfolding parse_url with_scheme with_authority with_userinfo with_port
docs_read = refl

docs_kept : (sanitize_url whole_fpu sanitizer docs_url).modified ≡ false
unfolding sanitize_url with_scheme with_authority with_userinfo with_port
docs_kept = refl

sanitize_url-IsUntouched_example :
    IsUntouched (url_string docs) (sanitize_url whole_fpu sanitizer docs_url)
sanitize_url-IsUntouched_example =
    sanitize_url-IsUntouched whole_fpu sanitizer docs_url docs docs_read docs_kept

-- An opaque URL is printed with `//` after its scheme, though nothing of it was modified.
opaque_printed :
    (sanitize_url whole_fpu sanitizer (codes "about:blank")).url ≡ codes "about://blank"
unfolding sanitize_url with_scheme with_authority with_userinfo with_port with_colon
opaque_printed = refl

opaque_unmodified : (sanitize_url whole_fpu sanitizer (codes "about:blank")).modified ≡ false
unfolding sanitize_url with_scheme with_authority with_userinfo with_port with_colon
opaque_unmodified = refl

file_redacted :
    (sanitize_url whole_fpu sanitizer (codes "file:///home/joe/x")).url ≡ codes "file:///[redacted]"
unfolding sanitize_url with_scheme with_authority with_userinfo with_port
file_redacted = refl

blocked : (sanitize_url whole_fpu sanitizer (codes "https://wiki.corp.example/")).excluded ≡ true
unfolding sanitize_url with_scheme with_authority with_userinfo with_port
blocked = refl

abbrev box : Rect
box = record { x = pos 0; y = pos 0; width = pos 800; height = pos 600 }

abbrev tab : String → Bytes → ℕ → TabInfo
tab name url place = record {
  id = codes name;
  index = pos place;
  url = url;
  title = codes "Reset password";
  favicon_path = none;
  group_id = none;
  group_title = none;
  cookie_store_id = none;
  opener_index = none;
  scroll_y = pos 0;
  pinned = false;
  active = false;
  audible = false;
  muted = false;
  discarded = false;
  incognito = false;
  sanitized = false;
}

abbrev browser_window : WindowInfo
browser_window = record {
  id = codes "w";
  native_handle = 0;
  title = codes "Browser";
  window_class = [];
  frame = box;
  client_area = box;
  restored_frame = box;
  state = WindowState.normal;
  z_order = pos 0;
  monitor_id = [];
  workspace_id = none;
  workspace_name = none;
  opacity = bits 1;
  focused = false;
  always_on_top = false;
  minimizable = true;
  resizable = true;
  captured_geometry_reliable = true;
  process = record {
    pid = 7;
    executable_path = [];
    command_line = [];
    working_directory = [];
    app_id = codes "firefox";
    user = [];
    single_instance = false;
    elevated = false;
  };
  browser = BrowserKind.firefox;
  browser_profile = none;
  tabs = tab "a" docs_url 0 ∷ tab "b" vault_url 1 ∷ tab "c" login_url 2 ∷ [];
}

sanitize_window-tabs_example :
    (map (λ t. t.id) (sanitize_window whole_fpu sanitizer browser_window).tabs
      ≡ map (λ t. t.id) (filter (is_kept whole_fpu sanitizer) browser_window.tabs))
    × ((k : ℕ) (t : TabInfo)
        → get_elem? (sanitize_window whole_fpu sanitizer browser_window).tabs k ≡ some t
        → t.index ≡ pos k)
sanitize_window-tabs_example = sanitize_window-tabs whole_fpu sanitizer browser_window (omega arith)

login_clean_by_default : (sanitize_url whole_fpu (new_sanitizer options) login_url).excluded ≡ false
unfolding sanitize_url with_scheme with_authority with_userinfo with_port new_sanitizer
login_clean_by_default = refl

sanitize_url-new_sanitizer_example :
    (q : ParsedUrl) × ((sanitize_url whole_fpu (new_sanitizer options) login_url).url
      ≡ url_string q)
    × (IsLess q login)
    × ((r : Rule)
        → Member r default_rules
        → r.action ≡ remove_parameter
        → any_glob r.host_patterns login.host ≡ true
        → names_any r.parameters q.query ≡ false)
sanitize_url-new_sanitizer_example =
    sanitize_url-new_sanitizer whole_fpu options login_url login login_read refl
      login_clean_by_default
