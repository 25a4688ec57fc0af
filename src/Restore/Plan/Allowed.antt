-- ===== src/Restore/Plan/Allowed.antt =====
-- Every step of a plan is skipped or is one that the platform offers.
use contextsnap.Base.{
  Bool, Bytes, List, Option, [], all, ap, false, filter, if◌then◌else◌, is_empty, length, map, none,
  not, refl, some, true, ℕ, ◌%◌, ◌&&◌, ◌*◌, ◌++◌, ◌^◌, ◌||◌, ◌∙◌, ◌∷◌, ◌≡◌,
}
use contextsnap.Base.Cuts.{all-append}
use contextsnap.Base.Double.{Fpu}
use contextsnap.Errors.{Result, value, value_or}
use contextsnap.Types.{MonitorInfo, PlatformKind, Snapshot, WindowInfo}
use contextsnap.Restore.Select.{selector_matches}
use contextsnap.Restore.Place.{best_live_match}
use contextsnap.Restore.Plan.{
  Capabilities, Planning, RestoreOptions, RestorePlan, RestoreStep, cursor_step, focus_steps,
  has_text, is_normal, launched, left_out, move_step, one_when, placed, plan_restore, plan_steps,
  plan_window, plan_windows, push, raise_step, raise_steps, sort_by_z, state_step, tabs_step,
  with_live, workspace_step,
}
use contextsnap.Restore.Plan.Steps.{moves, plan_steps-moves, respects, placements}

skipped_or : (b : Bool) → (not b || b) ≡ true
skipped_or true = refl
skipped_or false = refl

-- One step that is allowed.
one_allowed :
    (caps : Capabilities) (st : RestoreStep)
    → respects caps st ≡ true
    → all (respects caps) (st ∷ []) ≡ true
one_allowed caps st h = rw h refl

one_when-allowed :
    (caps : Capabilities) (b : Bool) (st : RestoreStep)
    → respects caps st ≡ true
    → all (respects caps) (one_when b st) ≡ true
one_when-allowed caps true st h = one_allowed caps st h
one_when-allowed caps false st h = refl

module _ (fpu : Fpu) (caps : Capabilities) (o : RestoreOptions)
    (live_windows : List WindowInfo) where
  abbrev Allowed : Planning → Type 0
  Allowed s = all (respects caps) s.steps ≡ true

  push-Allowed :
      (new_steps : List RestoreStep) (ms : ℕ) (s : Planning)
      → all (respects caps) new_steps ≡ true
      → Allowed s
      → Allowed (push new_steps ms s)
  push-Allowed new_steps ms s h k =
      all-append (respects caps) s.steps new_steps
      ∙ ap (λ b. b && all (respects caps) new_steps) k
      ∙ h

  placed-Allowed :
      (w : WindowInfo) (s : Planning) → Allowed s → Allowed (placed fpu caps o live_windows w s)
  unfolding placed move_step state_step tabs_step
  placed-Allowed w s h =
      let s1 = push (move_step fpu caps o live_windows w ∷ []) 20 s in
      let state = state_step fpu caps o live_windows w in
      let s2 = push (one_when (not (is_normal w.state)) state) 0 s1 in
      let place = workspace_step fpu caps o live_windows w in
      let s3 = push (one_when (o.restore_workspaces && has_text w.workspace_id) place) 0 s2 in
      let with_tabs = o.restore_tabs && not (is_empty w.tabs) in
      push-Allowed (one_when with_tabs (tabs_step fpu caps o live_windows w))
        (if with_tabs then (length w.tabs % 2 ^ 32 * 12) % 2 ^ 32 else 0) s3
        (one_when-allowed caps with_tabs (tabs_step fpu caps o live_windows w) refl)
        (push-Allowed (one_when (o.restore_workspaces && has_text w.workspace_id) place) 0 s2
          (one_when-allowed caps (o.restore_workspaces && has_text w.workspace_id) place
            (skipped_or caps.move_between_desktops))
          (push-Allowed (one_when (not (is_normal w.state)) state) 0 s1
            (one_when-allowed caps (not (is_normal w.state)) state
              (skipped_or caps.set_window_state))
            (push-Allowed (move_step fpu caps o live_windows w ∷ []) 20 s
              (one_allowed caps (move_step fpu caps o live_windows w)
                (skipped_or caps.set_window_geometry))
              h)))

  launched-Allowed :
      (w : WindowInfo) (s : Planning) → Allowed s → Allowed (launched fpu caps o live_windows w s)
  unfolding launched
  launched-Allowed w s h =
      push-Allowed _ (if caps.launch_processes then 900 else 0) s
        (rw (skipped_or caps.launch_processes) refl) h

  with_live-Allowed :
      (w : WindowInfo) (s : Planning) (m : Option WindowInfo)
      → Allowed s
      → Allowed (with_live fpu caps o live_windows w s m)
  unfolding with_live left_out
  with_live-Allowed w s (some m) h =
      placed-Allowed w (record s { used = s.used ++ m.native_handle ∷ [] }) h
  with_live-Allowed w s none h = go o.launch_missing_apps
    where
      go :
          (b : Bool)
          → Allowed (
              if b
              then placed fpu caps o live_windows w (launched fpu caps o live_windows w s)
              else left_out fpu caps o live_windows w s)
      go true = placed-Allowed w (launched fpu caps o live_windows w s) (launched-Allowed w s h)
      go false = push-Allowed _ 0 s refl h

  plan_windows-Allowed :
      (ws : List WindowInfo) (s : Planning)
      → Allowed s
      → Allowed (plan_windows fpu caps o live_windows ws s)
  unfolding plan_windows plan_window
  plan_windows-Allowed [] s h = h
  plan_windows-Allowed (w ∷ ws) s h =
      plan_windows-Allowed ws (plan_window fpu caps o live_windows w s)
        (go (selector_matches w o.selectors))
    where
      go :
          (b : Bool)
          → Allowed (
              if b
              then with_live fpu caps o live_windows w s (best_live_match fpu w live_windows s.used)
              else s)
      go true = with_live-Allowed w s (best_live_match fpu w live_windows s.used) h
      go false = h

  raise_all :
      (ws : List WindowInfo)
      → all (respects caps) (map (raise_step fpu caps o live_windows) ws) ≡ true
  raise_all [] = refl
  raise_all (w ∷ ws) = rw (skipped_or caps.z_order) (raise_all ws)

  raise_steps-allowed :
      (b : Bool) (ws : List WindowInfo)
      → all (respects caps) (if b then raise_steps fpu caps o live_windows ws else []) ≡ true
  unfolding raise_steps
  raise_steps-allowed true ws =
      raise_all
        (sort_by_z fpu caps o live_windows (filter (λ w. selector_matches w o.selectors) ws))
  raise_steps-allowed false ws = refl

  focus_steps-allowed :
      (b : Bool) (w : Option Bytes)
      → all (respects caps) (if b then focus_steps fpu caps o live_windows w else []) ≡ true
  focus_steps-allowed true none = refl
  focus_steps-allowed true (some w) = rw (skipped_or caps.focus_control) refl
  focus_steps-allowed false w = refl

  plan_steps-Allowed : (saved : Snapshot) → Allowed (plan_steps fpu caps o live_windows saved)
  unfolding plan_steps cursor_step
  plan_steps-Allowed saved =
      let s =
        plan_windows fpu caps o live_windows saved.windows
          (record { used = []; steps = []; estimate = 0 }) in
      let raised =
        if o.restore_z_order then raise_steps fpu caps o live_windows saved.windows else [] in
      let s1 = push raised 0 s in
      let cursor = cursor_step fpu caps o live_windows saved.cursor in
      let s2 = push (one_when o.restore_cursor cursor) 0 s1 in
      push-Allowed
        (if o.restore_focus
          then focus_steps fpu caps o live_windows saved.cursor.focused_window_id
          else [])
        0 s2 (focus_steps-allowed o.restore_focus saved.cursor.focused_window_id)
        (push-Allowed (one_when o.restore_cursor cursor) 0 s1
          (one_when-allowed caps o.restore_cursor cursor (skipped_or caps.cursor_warp))
          (push-Allowed raised 0 s (raise_steps-allowed o.restore_z_order saved.windows) (
            plan_windows-Allowed saved.windows (record { used = []; steps = []; estimate = 0 })
              refl)))

-- For a snapshot that is there, a plan is made whatever the platform answers. Its placing steps are
-- those for the windows that the selectors fit, one each and in the order in which they are saved;
-- such a step is carried out, and not skipped, exactly if the platform can place windows and either
-- the window has a live match that no earlier window has taken or missing apps are to be launched.
-- Every step of the plan is marked as skipped or needs only what the platform can do.
pub plan_restore-moves :
    (fpu : Fpu) (caps : Capabilities) (o : RestoreOptions) (current : PlatformKind)
    (monitors : Result (List MonitorInfo)) (live : Result (List WindowInfo)) (saved : Snapshot)
    → (plan : RestorePlan) × (plan_restore fpu caps o current monitors live (value saved)
        ≡ value plan)
      × (moves plan.steps ≡ placements fpu caps o (value_or live []) saved.windows [])
      × (all (respects caps) plan.steps ≡ true)
unfolding plan_restore
plan_restore-moves fpu caps o current monitors live saved = (
  _,
  refl,
  plan_steps-moves fpu caps o (value_or live []) saved,
  plan_steps-Allowed fpu caps o (value_or live []) saved,
)
