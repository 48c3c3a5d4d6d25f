-- ===== src/DesktopNative/Records/Windows.antt =====
-- The records of windows, surfaces, focus and scenes.
use floe_native_apps.Prelude.{
  ℕ, ◌+◌, Bool, true, false, not, ◌&&◌, ◌||◌, Option, none, some, [], ◌∷◌, leb, ltb, ◌==◌,
  if◌then◌else◌, length, Dict, get, put, remove, nat_key, any, keep_if,
}
use floe_native_apps.Python.Int.{ℤ, pos, negsuc}
use floe_native_apps.Python.Text.{Text, text_eq}
use floe_native_apps.DesktopClipboard.{Target}
use floe_native_apps.DesktopNative.{
  Protocol, wayland, x11, NativeWindow, NativeFocus, Desktop, Outcome, notify, metadata_changed,
  is_minimized,
}
use floe_native_apps.DesktopNative.Records.{is_some, contains, reject, accept, accept_changed}

unfoldable pub window_instance : ℕ → Desktop → Outcome
window_instance wid s =
    if leb wid s.last_window || leb 256 (length s.declared)
    then reject s
    else accept (record s { declared = put wid [] s.declared; last_window = wid }) []

abbrev is_title : Text → Option Text → Bool
is_title title none = false
is_title title (some t) = text_eq t title

-- `title` is the decoded title.
unfoldable pub window_title : ℕ × Text → Desktop → Outcome
window_title (wid, title) s =
    if not (is_some (get wid s.declared))
    then reject s
    else if is_title title (get wid s.declared)
    then accept s []
    else let t = record s { declared = put wid title s.declared } in
      accept t (notify metadata_changed t)

unfoldable pub surface_instance : ℕ → Desktop → Outcome
surface_instance sid s =
    if leb sid s.last_surface || leb 4096 (length s.surfaces)
    then reject s
    else accept (record s { last_surface = sid; surfaces = sid ∷ s.surfaces }) []

abbrev pub focuses : ℕ → Option NativeFocus → Bool
focuses sid none = false
focuses sid (some f) = f.identity == sid

unfoldable pub surface_retired : ℕ → Desktop → Outcome
surface_retired sid s =
    let t = record s { surfaces = keep_if (λ x. not (x == sid)) s.surfaces } in
    if focuses sid s.focus
    then accept_changed (record t { focus = none; target = none })
    else accept t []

abbrev bool_eq : Bool → Bool → Bool
bool_eq true b = b
bool_eq false b = not b

abbrev focus_eq : NativeFocus → NativeFocus → Bool
focus_eq a b =
    a.identity == b.identity
    && a.window == b.window
    && a.pid == b.pid
    && a.surface == b.surface
    && bool_eq a.available b.available

abbrev same_focus : Option NativeFocus → Option NativeFocus → Bool
same_focus none none = true
same_focus (some a) (some b) = focus_eq a b
same_focus _ _ = false

unfoldable pub set_focus : Option NativeFocus → Desktop → Outcome
set_focus f s =
    if same_focus f s.focus
    then accept s []
    else accept_changed (record s { focus = f; target = none })

-- The five numbers of a `focus` record.
unfoldable pub focus : ℕ × ℕ × ℕ × ℕ × ℕ → Desktop → Outcome
unfolding set_focus
focus (sid, wid, pid, surface, ready) s =
    let f : NativeFocus = record {
      identity = sid;
      window = wid;
      pid = pid;
      surface = surface;
      available = not (ready == 0);
    } in
    if sid == 0
    then (if not (wid == 0) || not (pid == 0) || not (surface == 0) || not (ready == 0)
        then reject s
        else set_focus none s)
    else if not (contains sid s.surfaces)
        || not (is_some (get wid s.declared))
        || pid == 0
        || surface == 0
        || ltb 1 ready
    then reject s
    else set_focus (some f) s

abbrev protocol_eq : Protocol → Protocol → Bool
protocol_eq wayland wayland = true
protocol_eq x11 x11 = true
protocol_eq _ _ = false

abbrev int_eq : ℤ → ℤ → Bool
int_eq (pos a) (pos b) = a == b
int_eq (negsuc a) (negsuc b) = a == b
int_eq _ _ = false

-- Whether a window that is known has another protocol or process.
abbrev identity_differs : NativeWindow → Option NativeWindow → Bool
identity_differs w none = false
identity_differs w (some v) = not (protocol_eq v.protocol w.protocol && int_eq v.pid w.pid)

abbrev same_geometry : NativeWindow → Option NativeWindow → Bool
same_geometry w none = false
same_geometry w (some v) = v.parent == w.parent && v.width == w.width && v.height == w.height

abbrev pub same_window : NativeWindow → Option NativeWindow → Bool
same_window w none = false
same_window w (some v) =
    not (identity_differs w (some v)) && same_geometry w (some v) && v.mode == w.mode

abbrev grab_ended : NativeWindow → Option NativeWindow → Bool
grab_ended w none = false
grab_ended w (some v) = v.mode == 8 && not (w.mode == 8)

abbrev pub aims_at : ℕ → Option Target → Bool
aims_at wid none = false
aims_at wid (some t) = t.window == wid

unfoldable pub window_state : NativeWindow → Desktop → Outcome
window_state w s =
    let previous = get w.window s.windows in
    let t = record s { windows = put w.window w s.windows } in
    if w.parent == w.window
      || not (is_some (get w.window s.declared))
      || identity_differs w previous
      || (not (w.parent == 0) && not (is_some (get w.parent s.declared)))
    then reject s
    else if same_window w previous
    then accept t []
    else if aims_at w.window s.target
        && (is_minimized w
            || grab_ended w previous
            || (not (w.mode == 8) && not (same_geometry w previous)))
    then accept_changed (record t { target = none })
    else accept t (notify metadata_changed t)

abbrev is_x11 : Option NativeWindow → Bool
is_x11 none = false
is_x11 (some w) = protocol_eq w.protocol x11

abbrev bound_elsewhere : ℕ → Option ℕ → Bool
bound_elsewhere xid none = false
bound_elsewhere xid (some x) = not (x == xid)

-- Whether another window has this number.
abbrev bound_by_other : ℕ → ℕ → Dict ℕ ℕ → Bool
bound_by_other wid xid d = any (λ e. not (e.0 == wid) && e.1 == xid) d

unfoldable pub window_x11 : ℕ × ℕ → Desktop → Outcome
window_x11 (wid, xid) s =
    if not (is_x11 (get wid s.windows))
      || bound_elsewhere xid (get wid s.x11_windows)
      || bound_by_other wid xid s.x11_windows
    then reject s
    else accept (record s { x11_windows = put wid xid s.x11_windows }) []

unfoldable pub window_retired : ℕ → Desktop → Outcome
window_retired wid s =
    let t = record s {
      windows = remove wid s.windows;
      declared = remove wid s.declared;
      x11_windows = remove wid s.x11_windows;
    } in
    if aims_at wid s.target then accept_changed (record t { target = none }) else accept t []

abbrev pub is_ready : ℕ → Option NativeFocus → Bool
is_ready wid none = false
is_ready wid (some f) = f.available && f.window == wid

abbrev pub minimized : Option NativeWindow → Bool
minimized none = false
minimized (some w) = is_minimized w

unfoldable pub scene : ℕ × ℕ → Desktop → Outcome
scene (generation, wid) s =
    let window = get wid s.windows in
    let t = record s { generation = generation } in
    let target : Target = record { id = s.next_id; window = wid; generation = generation } in
    if leb generation s.generation
      || (not (wid == 0) && not (is_some window))
      || (not (wid == 0) && not (is_ready wid s.focus))
      || minimized window
    then reject s
    else if is_some window
    then accept_changed (record t { target = some target; next_id = s.next_id + 1 })
    else accept_changed (record t { target = none })
