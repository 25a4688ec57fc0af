-- ===== src/Restore/Plan.antt =====
-- `plan_restore` of src/core/restore_engine.cpp. The snapshot that the store returns and what the
-- platform answers are arguments; `Planning` holds the variables of the loop over the windows.
pub mod Steps
pub mod Allowed
use contextsnap.Base.{
  Bool, Bytes, List, Option, [], codes, false, filter, if◌then◌else◌, is_empty, length, map, none,
  not, some, true, ℕ, ◌%◌, ◌&&◌, ◌*◌, ◌++◌, ◌+◌, ◌==◌, ◌^◌, ◌∷◌,
}
use contextsnap.Base.Int.{ltb_ℤ, ℤ}
use contextsnap.Base.Double.{Fpu}
use contextsnap.Base.Decimal.{int_string, nat_string}
use contextsnap.Errors.{Result, error, error_string, value, value_or, ◌>>=◌}
use contextsnap.Types.{CursorState, MonitorInfo, PlatformKind, Snapshot, WindowInfo, WindowState}
use contextsnap.Types.Names.{browser_string, window_state_string}
use contextsnap.Restore.Select.{RestoreSelector, selector_matches}
use contextsnap.Restore.Place.{best_live_match}

pub record Capabilities : Type 0 where
  pub enumerate_windows : Bool
  pub window_geometry : Bool
  pub set_window_geometry : Bool
  pub set_window_state : Bool
  pub z_order : Bool
  pub focus_control : Bool
  pub virtual_desktops : Bool
  pub move_between_desktops : Bool
  pub cursor_query : Bool
  pub cursor_warp : Bool
  pub process_command_line : Bool
  pub process_working_directory : Bool
  pub launch_processes : Bool
  pub window_thumbnails : Bool
  pub limitations : List Bytes

pub record RestoreOptions : Type 0 where
  pub selectors : List RestoreSelector
  pub launch_missing_apps : Bool
  pub restore_tabs : Bool
  pub lazy_load_tabs : Bool
  pub restore_cursor : Bool
  pub restore_focus : Bool
  pub restore_z_order : Bool
  pub restore_workspaces : Bool
  pub close_conflicting_windows : Bool
  pub dry_run : Bool
  pub app_launch_timeout : ℤ
  pub window_settle_timeout : ℤ
  pub max_parallel_launches : ℕ

pub data StepKind : Type 0 where
  launch_process wait_for_window move_window set_state set_workspace : StepKind
  raise_window open_tabs warp_cursor focus_window : StepKind

pub record RestoreStep : Type 0 where
  pub kind : StepKind
  pub target_id : Bytes
  pub description : Bytes
  pub skipped : Bool
  pub skip_reason : Bytes

pub record RestorePlan : Type 0 where
  pub snapshot_id : Bytes
  pub steps : List RestoreStep
  pub warnings : List Bytes
  pub estimated_duration_ms : ℕ

abbrev pub step : StepKind → Bytes → Bytes → Bool → Bytes → RestoreStep
step k target about skip reason = record {
  kind = k;
  target_id = target;
  description = about;
  skipped = skip;
  skip_reason = reason;
}

pub record Planning : Type 0 where
  pub used : List ℕ
  pub steps : List RestoreStep
  pub estimate : ℕ

-- `plan.steps.push_back`, and `estimate +=` on a `uint32_t`.
abbrev pub push : List RestoreStep → ℕ → Planning → Planning
push new_steps ms s = record s {
  steps = s.steps ++ new_steps;
  estimate = (s.estimate + ms) % 2 ^ 32;
}

abbrev pub one_when : Bool → RestoreStep → List RestoreStep
one_when b st = if b then st ∷ [] else []

abbrev pub is_normal : WindowState → Bool
is_normal WindowState.normal = true
is_normal _ = false

abbrev pub has_text : Option Bytes → Bool
has_text none = false
has_text (some t) = true

abbrev or_empty : Option Bytes → Bytes
or_empty none = []
or_empty (some t) = t

module _ (fpu : Fpu) (caps : Capabilities) (o : RestoreOptions)
    (live_windows : List WindowInfo) where
  unfoldable pub launched : WindowInfo → Planning → Planning
  launched w s =
      let can_launch = caps.launch_processes in
      push
        (step launch_process w.id (codes "launch " ++ w.process.app_id) (not can_launch)
            (if can_launch then [] else codes "platform cannot launch processes")
          ∷ step wait_for_window w.id (codes "wait for a window from " ++ w.process.app_id)
              (not can_launch) []
          ∷ [])
        (if can_launch then 900 else 0) s

  unfoldable pub move_step : WindowInfo → RestoreStep
  unfolding int_string
  move_step w =
      step move_window w.id
        (codes "place \""
          ++ w.title
          ++ codes "\" at "
          ++ int_string w.restored_frame.x
          ++ codes ","
          ++ int_string w.restored_frame.y)
        (not caps.set_window_geometry)
        (if caps.set_window_geometry
          then []
          else codes "compositor does not allow window placement")

  unfoldable pub state_step : WindowInfo → RestoreStep
  unfolding window_state_string
  state_step w =
      step set_state w.id (codes "set state " ++ window_state_string w.state)
        (not caps.set_window_state) []

  abbrev pub workspace_step : WindowInfo → RestoreStep
  workspace_step w =
      step set_workspace w.id (codes "move to workspace " ++ or_empty w.workspace_id)
        (not caps.move_between_desktops) []

  unfoldable pub tabs_step : WindowInfo → RestoreStep
  unfolding nat_string browser_string
  tabs_step w =
      step open_tabs w.id
        (codes "restore "
          ++ nat_string (length w.tabs)
          ++ codes " tabs in "
          ++ browser_string w.browser)
        false []

  -- The steps behind the search for a live window.
  unfoldable pub placed : WindowInfo → Planning → Planning
  unfolding move_step state_step tabs_step
  placed w s =
      let with_tabs = o.restore_tabs && not (is_empty w.tabs) in
      let s1 = push (move_step w ∷ []) 20 s in
      let s2 = push (one_when (not (is_normal w.state)) (state_step w)) 0 s1 in
      let s3 =
        push (one_when (o.restore_workspaces && has_text w.workspace_id) (workspace_step w)) 0 s2 in
      push (one_when with_tabs (tabs_step w))
        (if with_tabs then (length w.tabs % 2 ^ 32 * 12) % 2 ^ 32 else 0) s3

  unfoldable pub left_out : WindowInfo → Planning → Planning
  left_out w s =
      push
        (step move_window w.id (codes "skip " ++ w.title) true
            (codes "app is not running and launching is disabled")
          ∷ [])
        0 s

  unfoldable pub with_live : WindowInfo → Planning → Option WindowInfo → Planning
  unfolding launched placed left_out
  with_live w s (some m) = placed w (record s { used = s.used ++ m.native_handle ∷ [] })
  with_live w s none = if o.launch_missing_apps then placed w (launched w s) else left_out w s

  unfoldable pub plan_window : WindowInfo → Planning → Planning
  unfolding selector_matches best_live_match with_live
  plan_window w s =
      if selector_matches w o.selectors
      then with_live w s (best_live_match fpu w live_windows s.used)
      else s

  unfoldable pub plan_windows : List WindowInfo → Planning → Planning
  unfolding plan_window
  plan_windows [] s = s
  plan_windows (w ∷ ws) s = plan_windows ws (plan_window w s)

  -- `std::sort` by z-order, as an insertion sort; windows of one z-order may come in any order.
  unfoldable pub insert_by_z : WindowInfo → List WindowInfo → List WindowInfo
  insert_by_z w [] = w ∷ []
  insert_by_z w (v ∷ vs) =
      let rest = insert_by_z w vs in if ltb_ℤ v.z_order w.z_order then v ∷ rest else w ∷ v ∷ vs

  unfoldable pub sort_by_z : List WindowInfo → List WindowInfo
  unfolding insert_by_z
  sort_by_z [] = []
  sort_by_z (w ∷ ws) = insert_by_z w (sort_by_z ws)

  abbrev pub raise_step : WindowInfo → RestoreStep
  raise_step w =
      step raise_window w.id (codes "raise \"" ++ w.title ++ codes "\"") (not caps.z_order) []

  unfoldable pub raise_steps : List WindowInfo → List RestoreStep
  unfolding selector_matches sort_by_z
  raise_steps ws = map raise_step (sort_by_z (filter (λ w. selector_matches w o.selectors) ws))

  unfoldable pub cursor_step : CursorState → RestoreStep
  unfolding int_string
  cursor_step c =
      step warp_cursor (codes "cursor")
        (codes "warp cursor to " ++ int_string c.x ++ codes "," ++ int_string c.y)
        (not caps.cursor_warp) []

  abbrev pub focus_steps : Option Bytes → List RestoreStep
  focus_steps none = []
  focus_steps (some w) =
      step focus_window w (codes "focus the previously active window") (not caps.focus_control) []
      ∷ []

  -- All steps of the plan, and the estimate.
  unfoldable pub plan_steps : Snapshot → Planning
  unfolding plan_windows raise_steps cursor_step
  plan_steps saved =
      let s = plan_windows saved.windows (record { used = []; steps = []; estimate = 0 }) in
      let s1 = push (if o.restore_z_order then raise_steps saved.windows else []) 0 s in
      let s2 = push (one_when o.restore_cursor (cursor_step saved.cursor)) 0 s1 in
      push (if o.restore_focus then focus_steps saved.cursor.focused_window_id else []) 0 s2

-- The warnings, from what the platform answers.
unfoldable pub layout_warnings : Snapshot → Result (List MonitorInfo) → List Bytes
unfolding nat_string
layout_warnings saved (error e) = []
layout_warnings saved (value monitors) =
    if length monitors == length saved.monitors
    then []
    else (codes "display layout changed ("
        ++ nat_string (length saved.monitors)
        ++ codes " saved vs "
        ++ nat_string (length monitors)
        ++ codes " now); windows will be clamped to visible work areas")
      ∷ []

unfoldable pub live_warnings : Result (List WindowInfo) → List Bytes
unfolding error_string
live_warnings (value ws) = []
live_warnings (error e) = (codes "cannot enumerate live windows: " ++ error_string e) ∷ []

abbrev pub same_platform : PlatformKind → PlatformKind → Bool
same_platform PlatformKind.unknown PlatformKind.unknown = true
same_platform PlatformKind.windows PlatformKind.windows = true
same_platform PlatformKind.mac_os PlatformKind.mac_os = true
same_platform PlatformKind.linux PlatformKind.linux = true
same_platform _ _ = false

abbrev pub platform_warnings : PlatformKind → PlatformKind → List Bytes
platform_warnings saved current =
    if same_platform saved current
    then []
    else codes "snapshot was captured on a different platform; app paths may not resolve" ∷ []

-- `SnapshotManager::plan_restore`: `stored` is what `get` returns.
unfoldable pub plan_restore :
    Fpu
    → Capabilities
    → RestoreOptions
    → PlatformKind
    → Result (List MonitorInfo)
    → Result (List WindowInfo)
    → Result Snapshot
    → Result RestorePlan
unfolding value_or plan_steps layout_warnings live_warnings
plan_restore fpu caps o current monitors live stored = stored >>= λ saved.
    let s = plan_steps fpu caps o (value_or live []) saved in
    value (record {
      snapshot_id = saved.metadata.id;
      steps = s.steps;
      warnings =
          layout_warnings saved monitors
          ++ platform_warnings saved.metadata.platform current
          ++ live_warnings live;
      estimated_duration_ms = s.estimate;
    })
