-- ===== src/Restore/Plan/Steps.antt =====
-- The steps of a plan: one place for each window that is restored, and no step that the platform
-- does not offer.
use contextsnap.Base.{
  Bool, Bytes, List, [], ap, append-nil, false, filter, if◌then◌else◌, map, refl, true, ℕ, ◌++◌,
  ◌||◌, ◌∙◌, ◌∷◌, ◌≡◌, Option, append_assoc, is_empty, length, none, not, some, sym, ◌%◌, ◌&&◌, ◌*◌,
  ◌^◌,
}
use contextsnap.Base.Double.{Fpu}
use contextsnap.Types.{WindowInfo, Snapshot}
use contextsnap.Restore.Plan.{
  Capabilities, Planning, RestoreOptions, RestoreStep, StepKind, focus_window, launch_process,
  move_window, one_when, open_tabs, placed, push, raise_window, set_state, set_workspace,
  wait_for_window, warp_cursor, has_text, is_normal, launched, left_out, move_step, plan_window,
  plan_windows, state_step, tabs_step, with_live, workspace_step, cursor_step, focus_steps,
  plan_steps, raise_step, raise_steps, sort_by_z,
}
use contextsnap.Restore.Select.{selector_matches}
use contextsnap.Restore.Place.{best_live_match}

abbrev pub is_move : RestoreStep → Bool
is_move st = elim st.kind [ move_window ↦ true | _ ↦ false ]

-- The steps that place windows, in the plan's order: the window, and whether the step is skipped.
abbrev pub placement : RestoreStep → Bytes × Bool
placement st = (st.target_id, st.skipped)

abbrev pub moves : List RestoreStep → List (Bytes × Bool)
moves steps = map placement (filter is_move steps)

-- What a restore promises for a window, told by the live window that is found for it.
abbrev pub expect :
    Capabilities
    → RestoreOptions
    → WindowInfo
    → (List ℕ → List (Bytes × Bool))
    → List ℕ
    → Option WindowInfo
    → List (Bytes × Bool)
expect caps o w rest used none =
    (w.id, not (o.launch_missing_apps && caps.set_window_geometry)) ∷ rest used
expect caps o w rest used (some m) =
    (w.id, not caps.set_window_geometry) ∷ rest (used ++ m.native_handle ∷ [])

-- The windows to place, each with whether it is skipped. A window that the selectors fit is placed
-- when the platform can place windows and either a live window fits that no earlier one has taken,
-- or missing apps are launched; it is skipped otherwise.
unfoldable pub placements :
    Fpu
    → Capabilities
    → RestoreOptions
    → List WindowInfo
    → List WindowInfo
    → List ℕ
    → List (Bytes × Bool)
placements fpu caps o live_windows [] used = []
placements fpu caps o live_windows (w ∷ ws) used =
    let rest = placements fpu caps o live_windows ws in
    if selector_matches w o.selectors
    then expect caps o w rest used (best_live_match fpu w live_windows used)
    else rest used

-- What a step asks of the platform.
abbrev pub is_allowed : Capabilities → StepKind → Bool
is_allowed caps launch_process = caps.launch_processes
is_allowed caps wait_for_window = caps.launch_processes
is_allowed caps move_window = caps.set_window_geometry
is_allowed caps set_state = caps.set_window_state
is_allowed caps set_workspace = caps.move_between_desktops
is_allowed caps raise_window = caps.z_order
is_allowed caps open_tabs = true
is_allowed caps warp_cursor = caps.cursor_warp
is_allowed caps focus_window = caps.focus_control

abbrev pub respects : Capabilities → RestoreStep → Bool
respects caps st = st.skipped || is_allowed caps st.kind

moves-append : (xs ys : List RestoreStep) → moves (xs ++ ys) ≡ moves xs ++ moves ys
moves-append [] ys = refl
moves-append (x ∷ xs) ys = go (is_move x) (moves-append xs ys)
  where
    go :
        (b : Bool)
        → moves (xs ++ ys) ≡ moves xs ++ moves ys
        → map placement (if b then x ∷ filter is_move (xs ++ ys) else filter is_move (xs ++ ys))
          ≡ map placement (if b then x ∷ filter is_move xs else filter is_move xs) ++ moves ys
    go true e = ap (λ l. placement x ∷ l) e
    go false e = e

module _ (fpu : Fpu) (caps : Capabilities) (o : RestoreOptions)
    (live_windows : List WindowInfo) where
  moves-one_when : (b : Bool) (st : RestoreStep) → is_move st ≡ false → moves (one_when b st) ≡ []
  moves-one_when true st h = ap (λ b. map placement (if b then st ∷ [] else [])) h
  moves-one_when false st h = refl

  -- A push of steps that move nothing.
  moves-push :
      (new_steps : List RestoreStep) (ms : ℕ) (s : Planning)
      → moves new_steps ≡ []
      → moves (push new_steps ms s).steps ≡ moves s.steps
  moves-push new_steps ms s h =
      moves-append s.steps new_steps ∙ ap (λ l. moves s.steps ++ l) h ∙ append-nil (moves s.steps)

  placed-moves :
      (w : WindowInfo) (s : Planning)
      → moves (placed fpu caps o live_windows w s).steps
        ≡ moves s.steps ++ (w.id, not caps.set_window_geometry) ∷ []
  unfolding placed move_step state_step tabs_step
  placed-moves w s =
      let s1 = push (move_step fpu caps o live_windows w ∷ []) 20 s in
      let extra1 = one_when (not (is_normal w.state)) (state_step fpu caps o live_windows w) in
      let s2 = push extra1 0 s1 in
      let extra2 =
        one_when (o.restore_workspaces && has_text w.workspace_id)
          (workspace_step fpu caps o live_windows w) in
      let s3 = push extra2 0 s2 in
      let with_tabs = o.restore_tabs && not (is_empty w.tabs) in
      moves-push (one_when with_tabs (tabs_step fpu caps o live_windows w))
        (if with_tabs then (length w.tabs % 2 ^ 32 * 12) % 2 ^ 32 else 0) s3
        (moves-one_when with_tabs (tabs_step fpu caps o live_windows w) refl)
      ∙ moves-push extra2 0 s2 (
          moves-one_when (o.restore_workspaces && has_text w.workspace_id)
            (workspace_step fpu caps o live_windows w) refl)
      ∙ moves-push extra1 0 s1
          (moves-one_when (not (is_normal w.state)) (state_step fpu caps o live_windows w) refl)
      ∙ moves-append s.steps (move_step fpu caps o live_windows w ∷ [])

  with_live-moves :
      (w : WindowInfo) (s : Planning) (m : Option WindowInfo) (rest : List ℕ → List (Bytes × Bool))
      → moves (with_live fpu caps o live_windows w s m).steps
          ++ rest (with_live fpu caps o live_windows w s m).used
        ≡ moves s.steps ++ expect caps o w rest s.used m
  unfolding with_live launched left_out placed
  with_live-moves w s (some m) rest =
      let used = s.used ++ m.native_handle ∷ [] in
      ap (λ l. l ++ rest used) (placed-moves w (record s { used = used }))
      ∙ append_assoc (moves s.steps) ((w.id, not caps.set_window_geometry) ∷ []) (rest used)
  with_live-moves w s none rest = go o.launch_missing_apps
    where
      go :
          (b : Bool)
          → (let after =
                if b
                then placed fpu caps o live_windows w (launched fpu caps o live_windows w s)
                else left_out fpu caps o live_windows w s in
              moves (Planning.steps after) ++ rest (Planning.used after))
            ≡ moves s.steps ++ (w.id, not (b && caps.set_window_geometry)) ∷ rest s.used
      go true =
          ap (λ l. l ++ rest s.used)
            (placed-moves w (launched fpu caps o live_windows w s)
              ∙ ap (λ l. l ++ (w.id, not caps.set_window_geometry) ∷ [])
                  (moves-append s.steps _ ∙ append-nil (moves s.steps)))
          ∙ append_assoc (moves s.steps) ((w.id, not caps.set_window_geometry) ∷ []) (rest s.used)
      go false =
          ap (λ l. l ++ rest s.used) (moves-append s.steps _)
          ∙ append_assoc (moves s.steps) ((w.id, true) ∷ []) (rest s.used)

  abbrev pub is_selected : WindowInfo → Bool
  is_selected w = selector_matches w o.selectors

  plan_windows-moves :
      (ws : List WindowInfo) (s : Planning)
      → moves (plan_windows fpu caps o live_windows ws s).steps
        ≡ moves s.steps ++ placements fpu caps o live_windows ws s.used
  unfolding plan_windows plan_window placements
  plan_windows-moves [] s = sym (append-nil (moves s.steps))
  plan_windows-moves (w ∷ ws) s =
      plan_windows-moves ws (plan_window fpu caps o live_windows w s) ∙ go (is_selected w)
    where
      rest : List ℕ → List (Bytes × Bool)
      rest = placements fpu caps o live_windows ws

      go :
          (b : Bool)
          → (let after =
                if b
                then with_live fpu caps o live_windows w s
                    (best_live_match fpu w live_windows s.used)
                else s in
              moves (Planning.steps after) ++ rest (Planning.used after))
            ≡ moves s.steps
              ++ (if b
                  then expect caps o w rest s.used (best_live_match fpu w live_windows s.used)
                  else rest s.used)
      go true = with_live-moves w s (best_live_match fpu w live_windows s.used) rest
      go false = refl

  insert_steps-moves :
      (ws : List WindowInfo) → moves (map (raise_step fpu caps o live_windows) ws) ≡ []
  insert_steps-moves [] = refl
  insert_steps-moves (w ∷ ws) = insert_steps-moves ws

  raise_steps-moves :
      (b : Bool) (ws : List WindowInfo)
      → moves (if b then raise_steps fpu caps o live_windows ws else []) ≡ []
  unfolding raise_steps
  raise_steps-moves true ws =
      insert_steps-moves (sort_by_z fpu caps o live_windows (filter is_selected ws))
  raise_steps-moves false ws = refl

  focus_steps-moves :
      (b : Bool) (w : Option Bytes)
      → moves (if b then focus_steps fpu caps o live_windows w else []) ≡ []
  focus_steps-moves true none = refl
  focus_steps-moves true (some w) = refl
  focus_steps-moves false w = refl

  pub plan_steps-moves :
      (saved : Snapshot)
      → moves (plan_steps fpu caps o live_windows saved).steps
        ≡ placements fpu caps o live_windows saved.windows []
  unfolding plan_steps cursor_step
  plan_steps-moves saved =
      let s =
        plan_windows fpu caps o live_windows saved.windows
          (record { used = []; steps = []; estimate = 0 }) in
      let raised =
        if o.restore_z_order then raise_steps fpu caps o live_windows saved.windows else [] in
      let s1 = push raised 0 s in
      let cursor = one_when o.restore_cursor (cursor_step fpu caps o live_windows saved.cursor) in
      let s2 = push cursor 0 s1 in
      let focus =
        if o.restore_focus
        then focus_steps fpu caps o live_windows saved.cursor.focused_window_id
        else [] in
      moves-push focus 0 s2 (focus_steps-moves o.restore_focus saved.cursor.focused_window_id)
      ∙ moves-push cursor 0 s1
          (moves-one_when o.restore_cursor (cursor_step fpu caps o live_windows saved.cursor) refl)
      ∙ moves-push raised 0 s (raise_steps-moves o.restore_z_order saved.windows)
      ∙ plan_windows-moves saved.windows (record { used = []; steps = []; estimate = 0 })
