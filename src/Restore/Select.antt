-- ===== src/Restore/Select.antt =====
-- Selectors such as "app:code" or "tab:*.figma.com": `parse_selector` and `selector_matches` of
-- src/core/restore_engine.cpp.
use contextsnap.Base.{
  Bool, Bytes, List, Option, [], any, bytes_eq, codes, cut_first, false, if◌then◌else◌, is_empty,
  none, refl, some, starts_with, true, ◌++◌, ◌==◌, ◌||◌, ◌∷◌, ◌≡◌, ap, or-false,
}
use contextsnap.Errors.{Result, error, invalid, value}
use contextsnap.Types.{WindowInfo}
use contextsnap.Privacy.Glob.{glob_match}
use contextsnap.Matching.Text.{normalize_app_id}
use contextsnap.Matching.Similarity.{text_or_empty}

pub data SelectorKind : Type 0 where
  all_windows app window tab monitor workspace : SelectorKind

pub record RestoreSelector : Type 0 where
  pub kind : SelectorKind
  pub pattern : Bytes

abbrev pub selector : SelectorKind → Bytes → RestoreSelector
selector k p = record { kind = k; pattern = p }

-- `switch (selector.kind)`.
unfoldable pub fits_kind : SelectorKind → Bytes → WindowInfo → Bool
unfolding glob_match normalize_app_id
fits_kind all_windows pattern w = true
fits_kind app pattern w = glob_match pattern (normalize_app_id w.process.app_id)
fits_kind window pattern w = starts_with w.id pattern
fits_kind tab pattern w = any (λ t. glob_match pattern t.url || glob_match pattern t.title) w.tabs
fits_kind monitor pattern w = bytes_eq w.monitor_id pattern
fits_kind workspace pattern w = bytes_eq (text_or_empty w.workspace_id) pattern

unfoldable pub selector_matches : WindowInfo → List RestoreSelector → Bool
unfolding fits_kind
selector_matches w [] = true
selector_matches w (s ∷ ss) = any (λ s. fits_kind s.kind s.pattern w) (s ∷ ss)

unfoldable pub kind_of_prefix : Bytes → Option SelectorKind
kind_of_prefix prefix =
    if bytes_eq prefix (codes "app")
    then some app
    else if bytes_eq prefix (codes "window")
    then some window
    else if bytes_eq prefix (codes "tab")
    then some tab
    else if bytes_eq prefix (codes "monitor")
    then some monitor
    else if bytes_eq prefix (codes "workspace")
    then some workspace
    else none

abbrev pub with_kind : Bytes → Bytes → Option SelectorKind → Result RestoreSelector
with_kind prefix pattern (some k) = value (selector k pattern)
with_kind prefix pattern none =
    error (invalid (codes "unknown selector prefix: " ++ prefix) (codes "core.selector"))

unfoldable pub with_prefix : Bytes → Option (Bytes × Bytes) → Result RestoreSelector
unfolding kind_of_prefix
with_prefix text none =
    if bytes_eq text (codes "all") || bytes_eq text (codes "*")
    then value (selector all_windows (codes "*"))
    else value (selector app text)
with_prefix text (some (prefix, pattern)) =
    if is_empty pattern
    then error (invalid (codes "selector has an empty pattern") (codes "core.selector"))
    else with_kind prefix pattern (kind_of_prefix prefix)

unfoldable pub parse_selector : Bytes → Result RestoreSelector
unfolding with_prefix cut_first
parse_selector text = with_prefix text (cut_first (λ c. c == b':') text)

-- Whether a window is selected by the text of a selector; `none` if the text is refused.
abbrev pub selected_by : Result RestoreSelector → WindowInfo → Option Bool
selected_by (error e) w = none
selected_by (value s) w = some (selector_matches w (s ∷ []))

only_one :
    (s : RestoreSelector) (w : WindowInfo)
    → some (selector_matches w (s ∷ [])) ≡ some (fits_kind s.kind s.pattern w)
unfolding selector_matches
only_one s w = ap some (or-false (fits_kind s.kind s.pattern w))

-- What the text of a selector selects: `all` and `*` every window, and with a pattern that is not
-- empty `app:` the windows whose normalised app id the pattern fits, `window:` those whose id begins
-- with it, `tab:` those with a tab whose URL or title it fits, and `monitor:` and `workspace:` those
-- whose monitor or workspace has this id.
pub parse_selector-selector_matches :
    (pattern : Bytes) (w : WindowInfo)
    → is_empty pattern ≡ false
    → (selected_by (parse_selector (codes "all")) w ≡ some true)
      × (selected_by (parse_selector (codes "*")) w ≡ some true)
      × (selected_by (parse_selector (codes "app:" ++ pattern)) w
          ≡ some (glob_match pattern (normalize_app_id w.process.app_id)))
      × (selected_by (parse_selector (codes "window:" ++ pattern)) w
          ≡ some (starts_with w.id pattern))
      × (selected_by (parse_selector (codes "tab:" ++ pattern)) w
          ≡ some (any (λ t. glob_match pattern t.url || glob_match pattern t.title) w.tabs))
      × (selected_by (parse_selector (codes "monitor:" ++ pattern)) w
          ≡ some (bytes_eq w.monitor_id pattern))
      × (selected_by (parse_selector (codes "workspace:" ++ pattern)) w
          ≡ some (bytes_eq (text_or_empty w.workspace_id) pattern))
unfolding parse_selector with_prefix fits_kind selector_matches
parse_selector-selector_matches [] w h = cc
parse_selector-selector_matches (c ∷ s) w h = (
  refl,
  refl,
  only_one (selector app (c ∷ s)) w,
  only_one (selector window (c ∷ s)) w,
  only_one (selector tab (c ∷ s)) w,
  only_one (selector monitor (c ∷ s)) w,
  only_one (selector workspace (c ∷ s)) w,
)
