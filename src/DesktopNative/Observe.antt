-- ===== src/DesktopNative/Observe.antt =====
-- `NativeDesktop.observe`: the kinds of record, their fields, and the branch of each.
use floe_native_apps.Prelude.{
  ◌+◌, Bool, true, false, not, ◌&&◌, Option, none, some, List, [], ◌∷◌, if◌then◌else◌, map,
}
use floe_native_apps.Python.Text.{Text, codes, text_eq}
use floe_native_apps.Python.Number.{int_of_text}
use floe_native_apps.DesktopControl.Reader.{Bytes}
use floe_native_apps.DesktopClipboard.Observe as ClipRecords
use floe_native_apps.DesktopClipboard.{max_id}
use floe_native_apps.DesktopCursor as Pointer
use floe_native_apps.DesktopCursor.Records as PointerRecords
use floe_native_apps.DesktopNative.{
  Phase, barrier, text, Desktop, Outcome, notify, damage, each, cursor_event, clipboard_event,
  native_of, cursor_target,
}
use floe_native_apps.DesktopNative.Records.{reject, accept, on_fields}
use floe_native_apps.DesktopNative.Fields.{
  one, two, context_fields, surrounding_fields, display_fields, title_fields, focus_fields,
  window_fields, barrier_fields,
}
use floe_native_apps.DesktopNative.Records.Windows.{
  window_instance, window_title, surface_instance, surface_retired, focus, window_state, window_x11,
  window_retired, scene,
}
use floe_native_apps.DesktopNative.Records.Texts.{
  text_reply, text_context, text_context_retired, native_display, scene_at,
}

pub data Kind : Type 0 where
  native_version clipboard_record cursor_record : Kind
  reply : Phase → Bool → Kind
  context context_retired surrounding display instance_of title_of surface_of surface_gone focused
        state binding window_gone scene_of scene_barrier damaged ignored :
      Kind

abbrev kinds : List (Text × Kind)
kinds =
    (codes "native-version", native_version)
    ∷ (codes "clipboard-state", clipboard_record)
    ∷ (codes "clipboard-data", clipboard_record)
    ∷ (codes "clipboard-published", clipboard_record)
    ∷ (codes "clipboard-rejected", clipboard_record)
    ∷ (codes "cursor-state", cursor_record)
    ∷ (codes "cursor-data", cursor_record)
    ∷ (codes "client-barrier-done", reply barrier true)
    ∷ (codes "client-barrier-cancelled", reply barrier false)
    ∷ (codes "text-dispatched", reply text true)
    ∷ (codes "text-rejected", reply text false)
    ∷ (codes "text-context", context)
    ∷ (codes "text-context-retired", context_retired)
    ∷ (codes "context-surrounding", surrounding)
    ∷ (codes "native-display", display)
    ∷ (codes "window-instance", instance_of)
    ∷ (codes "window-title", title_of)
    ∷ (codes "surface-instance", surface_of)
    ∷ (codes "surface-retired", surface_gone)
    ∷ (codes "focus", focused)
    ∷ (codes "window-state", state)
    ∷ (codes "window-x11", binding)
    ∷ (codes "window-retired", window_gone)
    ∷ (codes "scene", scene_of)
    ∷ (codes "scene-at", scene_barrier)
    ∷ (codes "damage", damaged)
    ∷ map (λ k. (k, ignored))
        (codes "ready"
          ∷ codes "frame"
          ∷ codes "window-added"
          ∷ codes "window-mapped"
          ∷ codes "window-protocol"
          ∷ codes "window-restored"
          ∷ codes "window-removed"
          ∷ codes "context"
          ∷ codes "pointer"
          ∷ codes "capture-authorized"
          ∷ codes "connection-ready"
          ∷ codes "input-rejected"
          ∷ codes "selection-unavailable"
          ∷ codes "close-unavailable"
          ∷ codes "text-queued"
          ∷ codes "text-unavailable"
          ∷ [])

find : Text → List (Text × Kind) → Option Kind
find name [] = none
find name ((k, x) ∷ rest) = if text_eq k name then some x else find name rest

unfoldable pub kind_of : Text → Option Kind
unfolding find
kind_of name = find name kinds

-- What the program takes from Python's codecs and from zlib: `decode` is the UTF-8 decoder, with none
-- where it raises, and `replaced` the one that replaces what it cannot decode.
pub record Codecs : Type 0 where
  pub library : Pointer.Library
  pub decode : Bytes → Option Text
  pub replaced : Bytes → Text

module _ (codecs : Codecs) where
  clipboard_record_in : List Text → Desktop → Outcome
  clipboard_record_in fields s =
      let (raised, clipboard, events) =
        ClipRecords.observe int_of_text codecs.decode s.next_id fields (native_of s) s.clipboard in
      (
        raised,
        record s { clipboard = clipboard; next_id = s.next_id + 1 },
        each (clipboard_event s) events,
      )

  cursor_record_in : List Text → Desktop → Outcome
  cursor_record_in fields s =
      let (raised, cursor, events) =
        PointerRecords.observe codecs.library fields (cursor_target s) s.epoch s.cursor in
      (raised, record s { cursor = cursor }, each (cursor_event s) events)

  -- The record `kind fields` in the branch of its kind, past the test of the version.
  unfoldable pub branch : Kind → Text → List Text → Desktop → Outcome
  unfolding clipboard_record_in cursor_record_in
  branch native_version kind fields s = reject s
  branch clipboard_record kind fields s = clipboard_record_in (kind ∷ fields) s
  branch cursor_record kind fields s = cursor_record_in (kind ∷ fields) s
  branch (reply phase done) kind fields s =
      on_fields (one 1 max_id fields) (text_reply phase done) s
  branch context kind fields s = on_fields (context_fields fields) text_context s
  branch context_retired kind fields s = on_fields (one 1 max_id fields) text_context_retired s
  branch surrounding kind fields s = on_fields (surrounding_fields fields) (λ x t. accept t []) s
  branch display kind fields s = on_fields (display_fields fields) native_display s
  branch instance_of kind fields s = on_fields (one 1 max_id fields) window_instance s
  branch title_of kind fields s = on_fields (title_fields codecs.replaced fields) window_title s
  branch surface_of kind fields s = on_fields (one 1 max_id fields) surface_instance s
  branch surface_gone kind fields s = on_fields (one 1 max_id fields) surface_retired s
  branch focused kind fields s = on_fields (focus_fields fields) focus s
  branch state kind fields s = on_fields (window_fields fields) window_state s
  branch binding kind fields s = on_fields (two 1 1 0xffffffff fields) window_x11 s
  branch window_gone kind fields s = on_fields (one 1 max_id fields) window_retired s
  branch scene_of kind fields s = on_fields (two 1 0 max_id fields) scene s
  branch scene_barrier kind fields s = on_fields (barrier_fields fields) scene_at s
  branch damaged kind fields s =
      on_fields (two 1 0 max_id fields) (λ x t. accept t (notify damage t)) s
  branch ignored kind fields s = accept s []

  -- `native-version 1`, which is accepted once.
  versioned : List Text → Desktop → Outcome
  versioned (v ∷ []) s =
      if text_eq v (codes "1") && not s.version
      then accept (record s { version = true }) []
      else reject s
  versioned fields s = reject s

  -- The kinds that need no version.
  abbrev is_free : Kind → Bool
  is_free context_retired = true
  is_free surface_gone = true
  is_free window_gone = true
  is_free scene_barrier = true
  is_free damaged = true
  is_free ignored = true
  is_free _ = false

  unfoldable pub observe_kind : Option Kind → Text → List Text → Desktop → Outcome
  unfolding versioned
  observe_kind none kind fields s = reject s
  observe_kind (some native_version) kind fields s = versioned fields s
  observe_kind (some k) kind fields s =
      if not s.version && not (is_free k) then reject s else branch k kind fields s

  -- The record, as the words of its line.
  unfoldable pub observe : List Text → Desktop → Outcome
  unfolding observe_kind
  observe [] s = if s.closed then accept s [] else reject s
  observe (kind ∷ fields) s =
      if s.closed then accept s [] else observe_kind (kind_of kind) kind fields s
