-- ===== src/Matching/Tests.antt =====
-- Matching and launching at concrete windows, over a processor of whole numbers.
use contextsnap.Base.{
  String, codes, refl, ◌∷◌, ◌≡◌, All, List, [], any, bytes_eq, false, length, none, true, ℕ, ◌+◌,
  ◌<◌, ◌==◌, ◌≤◌,
}
use contextsnap.Types.{ProcessInfo, BrowserKind, PlatformKind, WindowInfo, WindowState}
use contextsnap.Matching.Text.{normalize_app_id, normalize_title, count_if}
use contextsnap.Matching.Text.Normal.{normalize_app_id_idem}
use contextsnap.Matching.Similarity.{alignment_distance, Weights, score}
use contextsnap.Base.Int.{pos, ◌+ℤ◌, ◌-ℤ◌}
use contextsnap.Base.Double.{bits}
use contextsnap.Base.WholeFpu.{whole_fpu}
use contextsnap.Matching.Assign.{MatchResult, match_windows}
use contextsnap.Matching.Assign.Sorted.{IsPair}
use contextsnap.Matching.Assign.Pairs.{on_live, on_snapshot}
use contextsnap.Matching.Assign.Complete.{
  match_windows-IsPair, match_windows_complete, match_windows-partition,
}
use contextsnap.Matching.Launch.{
  build_launch_command, is_one_shot, launcher, new_window, opens_browser,
}
use contextsnap.Matching.Launch.Replay.{build_launch_command-replays}

windows_path :
    normalize_app_id (codes "C:\\Program Files\\Mozilla Firefox\\firefox.exe") ≡ codes "firefox"
unfolding normalize_app_id
windows_path = refl

bundle :
    normalize_app_id (codes "/Applications/Visual Studio Code.app/Contents/MacOS/Electron")
    ≡ codes "visual studio code"
unfolding normalize_app_id
bundle = refl

reverse_dns : normalize_app_id (codes "com.microsoft.VSCode") ≡ codes "vscode"
unfolding normalize_app_id
reverse_dns = refl

title : normalize_title (codes "(3) Inbox - Gmail") ≡ codes "inbox gmail"
unfolding normalize_title
title = refl

edits : alignment_distance (codes "kitten") (codes "sitting") ≡ 3
unfolding alignment_distance
edits = refl

transposed : alignment_distance (codes "abcd") (codes "acbd") ≡ 1
unfolding alignment_distance
transposed = refl

normalize_app_id_idem_example :
    normalize_app_id (normalize_app_id (codes "/usr/bin/google-chrome.bin"))
    ≡ normalize_app_id (codes "/usr/bin/google-chrome.bin")
normalize_app_id_idem_example = normalize_app_id_idem (codes "/usr/bin/google-chrome.bin")

abbrev process : String → ProcessInfo
process app = record {
  pid = 7;
  executable_path = codes "/usr/bin/app";
  command_line = codes "--crash-reporter" ∷ codes "--profile" ∷ [];
  working_directory = [];
  app_id = codes app;
  user = [];
  single_instance = false;
  elevated = false;
}

build_launch_command-replays_example :
    (any is_one_shot (build_launch_command (process "firefox") PlatformKind.linux) ≡ false)
    × (opens_browser (process "firefox") ≡ true
        → any (bytes_eq new_window) (build_launch_command (process "firefox") PlatformKind.linux)
          ≡ true)
build_launch_command-replays_example =
    build_launch_command-replays (process "firefox") PlatformKind.linux refl refl

launched :
    build_launch_command (process "firefox") PlatformKind.mac_os
    ≡ codes "open"
      ∷ codes "-na"
      ∷ codes "/usr/bin/app"
      ∷ codes "--args"
      ∷ codes "--profile"
      ∷ codes "--new-window"
      ∷ []
unfolding build_launch_command launcher
launched = refl

abbrev window : String → String → WindowInfo
window app name = record {
  id = codes name;
  native_handle = 0;
  title = codes name;
  window_class = codes app;
  frame = record { x = pos 0; y = pos 0; width = pos 8; height = pos 6 };
  client_area = record { x = pos 0; y = pos 0; width = pos 8; height = pos 6 };
  restored_frame = record { x = pos 0; y = pos 0; width = pos 8; height = pos 6 };
  state = WindowState.normal;
  z_order = pos 0;
  monitor_id = [];
  workspace_id = none;
  workspace_name = none;
  opacity = bits 1;
  focused = false;
  always_on_top = false;
  minimizable = true;
  resizable = true;
  captured_geometry_reliable = true;
  process = process app;
  browser = BrowserKind.no_browser;
  browser_profile = none;
  tabs = [];
}

abbrev saved : List WindowInfo
saved = window "code" "main" ∷ window "mail" "inbox" ∷ []

abbrev alive : List WindowInfo
alive = window "mail" "inbox" ∷ window "files" "home" ∷ window "code" "main" ∷ []

abbrev weights : Weights
weights = record {
  app_id = bits 0;
  executable_path = bits 0;
  window_class = bits 0;
  title_similarity = bits 0;
  geometry_proximity = bits 0;
  workspace = bits 0;
}

abbrev result : MatchResult
result = match_windows whole_fpu saved alive (bits 1) weights

crossed : result ≡ record {
  matches =
      record { snapshot_index = 0; live_index = 2; score = bits 1 }
      ∷ record { snapshot_index = 1; live_index = 0; score = bits 1 }
      ∷ [];
  unmatched_snapshot = [];
  unmatched_live = 1 ∷ [];
}
unfolding match_windows ◌+ℤ◌ ◌-ℤ◌
crossed = refl

match_windows-partition_example :
    ((i : ℕ)
      → i < length saved
      → count_if (on_snapshot i) result.matches + count_if (λ n. n == i) result.unmatched_snapshot
        ≡ 1)
    × ((j : ℕ)
        → j < length alive
        → count_if (on_live j) result.matches + count_if (λ n. n == j) result.unmatched_live ≡ 1)
match_windows-partition_example = match_windows-partition whole_fpu saved alive (bits 1) weights

match_windows-IsPair_example :
    All (IsPair whole_fpu (bits 1) weights saved alive 0 0) result.matches
match_windows-IsPair_example = match_windows-IsPair whole_fpu saved alive (bits 1) weights

same_window :
    whole_fpu.le (bits 1) (score whole_fpu (window "code" "main") (window "code" "main") weights)
    ≡ true
unfolding score
same_window = refl

match_windows_complete_example :
    1 ≤ count_if (on_snapshot 0) result.matches + count_if (on_live 2) result.matches
match_windows_complete_example =
    match_windows_complete whole_fpu saved alive (bits 1) weights 0 2 (window "code" "main")
      (window "code" "main") refl refl same_window
