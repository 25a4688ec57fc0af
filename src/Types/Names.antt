-- ===== src/Types/Names.antt =====
-- src/core/types.cpp: the enumerators' names, and how text is read back.
use contextsnap.Base.{
  Bytes, ◌||◌, codes, bytes_eq, lower, is_empty, if◌then◌else◌, ◌≡◌, refl, lower_idem, ap,
}
use contextsnap.Types.{
  WindowState, normal, minimized, maximized, fullscreen, hidden, PlatformKind, SessionType,
  BrowserKind, no_browser, chrome, chromium, edge, brave, vivaldi, opera, firefox, libre_wolf,
  safari, other,
}

unfoldable pub window_state_string : WindowState → Bytes
window_state_string normal = codes "normal"
window_state_string minimized = codes "minimized"
window_state_string maximized = codes "maximized"
window_state_string fullscreen = codes "fullscreen"
window_state_string hidden = codes "hidden"

unfoldable pub platform_string : PlatformKind → Bytes
platform_string PlatformKind.unknown = codes "unknown"
platform_string PlatformKind.windows = codes "windows"
platform_string PlatformKind.mac_os = codes "macos"
platform_string PlatformKind.linux = codes "linux"

unfoldable pub session_string : SessionType → Bytes
session_string SessionType.unknown = codes "unknown"
session_string SessionType.win32 = codes "win32"
session_string SessionType.quartz = codes "quartz"
session_string SessionType.x11 = codes "x11"
session_string SessionType.wayland = codes "wayland"

unfoldable pub browser_string : BrowserKind → Bytes
browser_string no_browser = codes "none"
browser_string chrome = codes "chrome"
browser_string chromium = codes "chromium"
browser_string edge = codes "edge"
browser_string brave = codes "brave"
browser_string vivaldi = codes "vivaldi"
browser_string opera = codes "opera"
browser_string firefox = codes "firefox"
browser_string libre_wolf = codes "librewolf"
browser_string safari = codes "safari"
browser_string other = codes "other"

abbrev window_state_from_string_of_lower : Bytes → WindowState
window_state_from_string_of_lower text =
    if bytes_eq text (codes "minimized") || bytes_eq text (codes "iconic")
    then minimized
    else if bytes_eq text (codes "maximized") || bytes_eq text (codes "zoomed")
    then maximized
    else if bytes_eq text (codes "fullscreen")
    then fullscreen
    else if bytes_eq text (codes "hidden")
    then hidden
    else normal

unfoldable pub window_state_from_string : Bytes → WindowState
unfolding lower
window_state_from_string text = window_state_from_string_of_lower (lower text)

abbrev browser_kind_from_string_of_lower : Bytes → BrowserKind
browser_kind_from_string_of_lower text =
    if is_empty text || bytes_eq text (codes "none")
    then no_browser
    else if bytes_eq text (codes "chrome") || bytes_eq text (codes "google chrome")
    then chrome
    else if bytes_eq text (codes "chromium")
    then chromium
    else if bytes_eq text (codes "edge")
        || bytes_eq text (codes "msedge")
        || bytes_eq text (codes "microsoft edge")
    then edge
    else if bytes_eq text (codes "brave") || bytes_eq text (codes "brave-browser")
    then brave
    else if bytes_eq text (codes "vivaldi")
    then vivaldi
    else if bytes_eq text (codes "opera")
    then opera
    else if bytes_eq text (codes "firefox") || bytes_eq text (codes "mozilla firefox")
    then firefox
    else if bytes_eq text (codes "librewolf")
    then libre_wolf
    else if bytes_eq text (codes "safari")
    then safari
    else other

unfoldable pub browser_kind_from_string : Bytes → BrowserKind
unfolding lower
browser_kind_from_string text = browser_kind_from_string_of_lower (lower text)

-- Every window state is read back from its name.
pub window_state_from_string-window_state_string :
    (s : WindowState) → window_state_from_string (window_state_string s) ≡ s
unfolding window_state_from_string window_state_string
window_state_from_string-window_state_string normal = refl
window_state_from_string-window_state_string _ = refl

-- Every browser kind is read back from its name.
pub browser_kind_from_string-browser_string :
    (b : BrowserKind) → browser_kind_from_string (browser_string b) ≡ b
unfolding browser_kind_from_string browser_string
browser_kind_from_string-browser_string no_browser = refl
browser_kind_from_string-browser_string _ = refl

pub browser_kind_from_string-lower :
    (text : Bytes) → browser_kind_from_string (lower text) ≡ browser_kind_from_string text
unfolding browser_kind_from_string
browser_kind_from_string-lower text = ap browser_kind_from_string_of_lower (lower_idem text)
