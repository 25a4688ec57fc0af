-- ===== src/Privacy/Sanitizer/Defaults.antt =====
-- What the built-in rules take out of every URL.
use contextsnap.Base.{All, All-Member, Bytes, Member, [], bytes_eq, codes, false, refl, true, ◌≡◌}
use contextsnap.Base.Double.{Fpu}
use contextsnap.Errors.{value}
use contextsnap.Privacy.Rules.{
  Rule, SanitizerOptions, any_glob, default_rules, new_sanitizer, remove_parameter,
}
use contextsnap.Privacy.Url.{ParsedUrl, parse_url, url_string}
use contextsnap.Privacy.Sanitizer.{names_any, sanitize_url}
use contextsnap.Privacy.Sanitizer.Removal.{sanitize_url-IsClean}
use contextsnap.Privacy.Sanitizer.Steps.{IsLess}

-- A rule that is not switched off, and that removes parameters at every path if it removes any.
record IsGeneral (r : Rule) : Type 0 where
  is_enabled : r.enabled ≡ true
  is_plain : r.action ≡ remove_parameter → bytes_eq r.id (codes "local-files") ≡ false
  any_path : r.action ≡ remove_parameter → r.path_patterns ≡ []

default_rules-IsGeneral : All IsGeneral default_rules
unfolding default_rules
default_rules-IsGeneral = (
  record { is_enabled = refl; is_plain = λ e. refl; any_path = λ e. refl },
  (
    record { is_enabled = refl; is_plain = λ e. refl; any_path = λ e. refl },
    (
      record { is_enabled = refl; is_plain = λ e. refl; any_path = λ e. refl },
      (
        record { is_enabled = refl; is_plain = λ e. refl; any_path = λ e. cc },
        (
          record { is_enabled = refl; is_plain = λ e. refl; any_path = λ e. refl },
          (
            record { is_enabled = refl; is_plain = λ e. refl; any_path = λ e. refl },
            (
              record { is_enabled = refl; is_plain = λ e. cc; any_path = λ e. refl },
              (record { is_enabled = refl; is_plain = λ e. refl; any_path = λ e. refl }, tt),
            ),
          ),
        ),
      ),
    ),
  ),
)

-- A sanitizer as it is constructed, whatever its options: when a URL with a scheme other than
-- `file` is read and its tab is not excluded, the URL that is returned is printed from one with the
-- same scheme, host and port, whose path is that of the URL, or empty, or `/`, whose user
-- information and fragment are those of the URL or empty, and whose query is that of the URL but for
-- parameters that are taken out or redacted. It has no parameter named by a built-in rule that
-- removes parameters and whose host patterns fit the URL's host.
pub sanitize_url-new_sanitizer :
    (fpu : Fpu) (o : SanitizerOptions) (url : Bytes) (p : ParsedUrl)
    → parse_url url ≡ value p
    → bytes_eq p.scheme (codes "file") ≡ false
    → (sanitize_url fpu (new_sanitizer o) url).excluded ≡ false
    → (q : ParsedUrl) × ((sanitize_url fpu (new_sanitizer o) url).url ≡ url_string q)
      × (IsLess q p)
      × ((r : Rule)
          → Member r default_rules
          → r.action ≡ remove_parameter
          → any_glob r.host_patterns p.host ≡ true
          → names_any r.parameters q.query ≡ false)
unfolding new_sanitizer
sanitize_url-new_sanitizer fpu o url p h k e =
    let (q, printed, clean) = sanitize_url-IsClean fpu (new_sanitizer o) url p h k e in
    (
      q,
      printed,
      clean.less,
      λ r m act host.
          let general = All-Member IsGeneral default_rules-IsGeneral m in
          clean.removed r m (record {
            acts = act;
            is_enabled = general.is_enabled;
            is_plain = general.is_plain act;
            at_host = host;
            any_path = general.any_path act;
          }),
    )
