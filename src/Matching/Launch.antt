-- ===== src/Matching/Launch.antt =====
-- How an application is started again: `is_single_instance_app`, `detect_browser` and
-- `build_launch_command` of src/core/matching.cpp.
pub mod Replay
use contextsnap.Base.{
  Bool, Bytes, List, String, [], any, bytes_eq, codes, false, filter, if◌then◌else◌, is_empty, not,
  starts_with, true, ◌&&◌, ◌++◌, ◌||◌, ◌∷◌,
}
use contextsnap.Types.{BrowserKind, PlatformKind, ProcessInfo}
use contextsnap.Types.Names.{browser_kind_from_string}
use contextsnap.Matching.Text.{normalize_app_id}

abbrev single_instance_names : List String
single_instance_names =
    "chrome" ∷ "chromium" ∷ "msedge" ∷ "edge" ∷ "brave" ∷ "brave browser" ∷ "google chrome"
    ∷ "google-chrome" ∷ "google-chrome-stable" ∷ "microsoft edge" ∷ "mozilla firefox"
    ∷ "firefox-esr" ∷ "vivaldi" ∷ "opera" ∷ "firefox" ∷ "librewolf" ∷ "safari" ∷ "finder"
    ∷ "explorer" ∷ "nautilus" ∷ "dolphin" ∷ "thunar" ∷ "code" ∷ "visual studio code" ∷ "slack"
    ∷ "discord" ∷ "spotify" ∷ "obsidian" ∷ "notion" ∷ "figma" ∷ "postman" ∷ "docker desktop"
    ∷ "steam" ∷ []

unfoldable pub is_single_instance_app : Bytes → Bool
unfolding normalize_app_id
is_single_instance_app app =
    any (λ name. bytes_eq (codes name) (normalize_app_id app)) single_instance_names

-- Neither `None` nor `Other`.
abbrev pub is_browser : BrowserKind → Bool
is_browser BrowserKind.no_browser = false
is_browser BrowserKind.other = false
is_browser _ = true

-- The window class, when it is no application id itself.
unfoldable pub browser_of_class : Bytes → Bytes → BrowserKind
unfolding browser_kind_from_string
browser_of_class klass normalized =
    let by_class = browser_kind_from_string klass in
    if is_empty klass || bytes_eq klass normalized
    then BrowserKind.no_browser
    else if is_browser by_class
    then by_class
    else if bytes_eq klass (codes "navigator") || bytes_eq klass (codes "mozilla firefox")
    then BrowserKind.firefox
    else BrowserKind.no_browser

-- `detect_browser` on the normal forms of its arguments.
unfoldable pub browser_of : Bytes → Bytes → BrowserKind
unfolding browser_kind_from_string browser_of_class
browser_of normalized klass =
    let direct = browser_kind_from_string normalized in
    if is_browser direct
    then direct
    else if bytes_eq normalized (codes "brave browser")
        || bytes_eq normalized (codes "brave browser beta")
    then BrowserKind.brave
    else if bytes_eq normalized (codes "google chrome")
        || bytes_eq normalized (codes "google chrome canary")
    then BrowserKind.chrome
    else if bytes_eq normalized (codes "microsoft edge")
    then BrowserKind.edge
    else browser_of_class klass normalized

unfoldable pub detect_browser : Bytes → Bytes → BrowserKind
unfolding normalize_app_id browser_of
detect_browser app window_class = browser_of (normalize_app_id app) (normalize_app_id window_class)

abbrev is_mac : PlatformKind → Bool
is_mac PlatformKind.mac_os = true
is_mac _ = false

abbrev pub is_none : BrowserKind → Bool
is_none BrowserKind.no_browser = true
is_none _ = false

-- Arguments that are never replayed.
abbrev pub is_one_shot : Bytes → Bool
is_one_shot a = starts_with a (codes "--crash") || starts_with a (codes "--remote-debugging")

abbrev pub new_window : Bytes
new_window = codes "--new-window"

abbrev pub program_of : ProcessInfo → Bytes
program_of p = if is_empty p.executable_path then p.app_id else p.executable_path

unfoldable pub opens_browser : ProcessInfo → Bool
unfolding normalize_app_id detect_browser
opens_browser p = not (
    is_none (
      detect_browser (normalize_app_id (if is_empty p.app_id then p.executable_path else p.app_id))
        []))

-- The command before the saved arguments.
unfoldable pub launcher : ProcessInfo → PlatformKind → List Bytes
unfolding opens_browser
launcher p platform =
    if is_mac platform
    then codes "open"
      ∷ codes "-na"
      ∷ program_of p
      ∷ (if not (is_empty p.command_line) || opens_browser p then codes "--args" ∷ [] else [])
    else program_of p ∷ []

abbrev with_window : Bool → List Bytes → List Bytes
with_window browser command =
    if browser
    then (if any (bytes_eq new_window) command then command else command ++ new_window ∷ [])
    else command

unfoldable pub build_launch_command : ProcessInfo → PlatformKind → List Bytes
unfolding launcher opens_browser
build_launch_command p platform =
    if is_empty p.executable_path && is_empty p.app_id
    then []
    else with_window (opens_browser p)
        (launcher p platform ++ filter (λ a. not (is_one_shot a)) p.command_line)
