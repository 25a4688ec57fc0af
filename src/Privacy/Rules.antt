-- ===== src/Privacy/Rules.antt =====
-- The rules, options and results of include/contextsnap/privacy/sanitizer.hpp, with the built-in
-- rule set and the tests on a parameter of src/privacy/sanitizer.cpp.
use contextsnap.Base.{
  Bool, Bytes, List, String, [], all, any, bytes_eq, codes, false, if◌then◌else◌, is_empty, leb,
  length, lower, ltb, map, not, suc, true, zero, ℕ, ◌%◌, ◌&&◌, ◌+◌, ◌==◌, ◌^◌, ◌||◌, ◌∷◌, ◌++◌,
}
use contextsnap.Base.Int.{pos}
use contextsnap.Base.Double.{Double, Fpu}
use contextsnap.Privacy.Glob.{glob_match}

pub data RuleAction : Type 0 where
  remove_parameter mask_parameter truncate_path drop_url exclude_tab : RuleAction

pub record Rule : Type 0 where
  pub id : Bytes
  pub description : Bytes
  pub action : RuleAction
  pub parameters : List Bytes
  pub host_patterns : List Bytes
  pub path_patterns : List Bytes
  pub enabled : Bool

pub record SanitizeResult : Type 0 where
  pub url : Bytes
  pub modified : Bool
  pub excluded : Bool
  pub applied_rule_ids : List Bytes

pub record SanitizerOptions : Type 0 where
  pub strip_all_query_params : Bool
  pub strip_fragments : Bool
  pub strip_userinfo : Bool
  pub detect_high_entropy : Bool
  pub entropy_threshold : Double
  pub entropy_min_length : ℕ
  pub extra_sensitive_params : List Bytes
  pub domain_denylist : List Bytes
  pub domain_allowlist : List Bytes

-- The class, with its two members.
pub record Sanitizer : Type 0 where
  pub options : SanitizerOptions
  pub rules : List Rule

unfoldable pub contains_ci : List Bytes → Bytes → Bool
unfolding lower
contains_ci haystack needle = any (λ item. bytes_eq (lower item) (lower needle)) haystack

unfoldable pub any_glob : List Bytes → Bytes → Bool
unfolding glob_match
any_glob [] text = true
any_glob (p ∷ ps) text = any (λ pattern. glob_match pattern text) (p ∷ ps)

abbrev words : List String → List Bytes
words = map codes

abbrev rule : String → String → RuleAction → List String → List String → List String → Rule
rule name about act params hosts paths = record {
  id = codes name;
  description = codes about;
  action = act;
  parameters = words params;
  host_patterns = words hosts;
  path_patterns = words paths;
  enabled = true;
}

-- `Sanitizer::default_rules`.
unfoldable pub default_rules : List Rule
default_rules =
    rule "oauth" "OAuth/OIDC credentials in the query string" remove_parameter
      ("access_token" ∷ "id_token" ∷ "refresh_token" ∷ "code" ∷ "code_verifier" ∷ "client_secret"
        ∷ "state" ∷ "nonce" ∷ "assertion" ∷ "authuser" ∷ [])
      [] []
    ∷ rule "session" "Session and CSRF identifiers" remove_parameter
        ("session" ∷ "sessionid" ∷ "session_id" ∷ "sid" ∷ "sessid" ∷ "phpsessid" ∷ "jsessionid"
          ∷ "csrf" ∷ "csrf_token" ∷ "xsrf" ∷ "auth" ∷ "authorization" ∷ "api_key" ∷ "apikey"
          ∷ "token" ∷ "key" ∷ "password" ∷ "passwd" ∷ "pwd" ∷ "secret" ∷ "signature" ∷ "sig" ∷ [])
        [] []
    ∷ rule "presigned-storage" "Pre-signed object storage URLs" remove_parameter
        ("x-amz-signature" ∷ "x-amz-credential" ∷ "x-amz-security-token" ∷ "x-goog-signature"
          ∷ "sig" ∷ "se" ∷ "sp" ∷ "sv" ∷ "sr" ∷ "st" ∷ "skoid" ∷ [])
        ("*.amazonaws.com" ∷ "*.blob.core.windows.net" ∷ "*.googleapis.com"
          ∷ "storage.googleapis.com" ∷ "*.r2.cloudflarestorage.com" ∷ [])
        []
    ∷ rule "reset-links" "Password reset and magic-link paths" truncate_path [] [] (
        "*/reset*" ∷ "*/verify*" ∷ "*/magic*" ∷ "*/invite/*" ∷ "*/confirm/*" ∷ "*/activate/*"
        ∷ "*/unsubscribe/*" ∷ "*/set-password*" ∷ [])
    ∷ rule "meeting-passcodes" "Video call passcodes embedded in join links" remove_parameter
        ("pwd" ∷ "passcode" ∷ "password" ∷ "pw" ∷ "k" ∷ "tk" ∷ [])
        ("*.zoom.us" ∷ "zoom.us" ∷ "teams.microsoft.com" ∷ "meet.google.com" ∷ "*.webex.com"
          ∷ "*.whereby.com" ∷ [])
        []
    ∷ rule "trackers" "Marketing and analytics parameters" remove_parameter
        ("utm_source" ∷ "utm_medium" ∷ "utm_campaign" ∷ "utm_term" ∷ "utm_content" ∷ "utm_id"
          ∷ "gclid" ∷ "dclid" ∷ "fbclid" ∷ "msclkid" ∷ "mc_eid" ∷ "mc_cid" ∷ "igshid" ∷ "ttclid"
          ∷ "_hsenc" ∷ "_hsmi" ∷ "vero_id" ∷ "yclid" ∷ "twclid" ∷ "ref_src" ∷ [])
        [] []
    ∷ rule "local-files" "Local file paths reveal directory structure" drop_url [] ("" ∷ []) []
    ∷ rule "private-browsing" "Never persist banking or password-manager tabs" exclude_tab []
        ("*.bank*" ∷ "*vault*" ∷ "*.1password.com" ∷ "*.bitwarden.com" ∷ "*lastpass.com" ∷ []) []
    ∷ []

-- The constructor, `add_rule` and `set_rules`.
unfoldable pub new_sanitizer : SanitizerOptions → Sanitizer
unfolding default_rules
new_sanitizer o = record { options = o; rules = default_rules }

unfoldable pub add_rule : Sanitizer → Rule → Sanitizer
add_rule z r = record z { rules = z.rules ++ r ∷ [] }

unfoldable pub set_rules : Sanitizer → List Rule → Sanitizer
set_rules z rs = record z { rules = rs }

-- `Sanitizer::is_host_blocked`.
unfoldable pub is_host_blocked : SanitizerOptions → Bytes → Bool
unfolding any_glob glob_match
is_host_blocked o host =
    if not (is_empty o.domain_allowlist)
    then not (any_glob o.domain_allowlist host)
    else any (λ pattern. glob_match pattern host) o.domain_denylist

-- An entry of `counts`, which is a `uint32_t`.
count_of : ℕ → Bytes → ℕ
count_of c [] = 0
count_of c (d ∷ s) = if c == d then (count_of c s + 1) % 2 ^ 32 else count_of c s

abbrev token_char : ℕ → Bool
token_char c =
    leb b'0' c && leb c b'9'
    || leb b'A' c && leb c b'Z'
    || leb b'a' c && leb c b'z'
    || c == b'-'
    || c == b'_'
    || c == b'.'
    || c == b'%'
    || c == b'='

module _ (fpu : Fpu) where
  -- The loop over the `k` counts from that of the character `c` on.
  entropy_loop : ℕ → ℕ → Bytes → Double → Double
  unfolding count_of
  entropy_loop zero c text entropy = entropy
  entropy_loop (suc k) c text entropy =
      let n = count_of c text in
      let probability = fpu.div (fpu.of_int (pos n)) (fpu.of_int (pos (length text))) in
      entropy_loop k (c + 1) text
        (if n == 0 then entropy else fpu.sub entropy (fpu.mul probability (fpu.log2 probability)))

  unfoldable pub shannon_entropy : Bytes → Double
  unfolding entropy_loop
  shannon_entropy [] = fpu.decimal 0 0
  shannon_entropy (c ∷ s) = entropy_loop 256 0 (c ∷ s) (fpu.decimal 0 0)

  -- `Sanitizer::looks_like_secret`.
  unfoldable pub looks_like_secret : SanitizerOptions → Bytes → Bytes → Bool
  unfolding contains_ci shannon_entropy
  looks_like_secret o key val =
      if contains_ci o.extra_sensitive_params key
      then true
      else if not o.detect_high_entropy || ltb (length val) o.entropy_min_length
      then false
      else all token_char val && fpu.le o.entropy_threshold (shannon_entropy val)
