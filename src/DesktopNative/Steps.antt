-- ===== src/DesktopNative/Steps.antt =====
-- The steps of `NativeDesktop`: the records of the channel and the calls of its methods, in any order.
use floe_native_apps.Prelude.{ℕ, Bool, true, false, List, [], ◌∷◌}
use floe_native_apps.Python.Text.{Text}
use floe_native_apps.Python.Value.{Fields}
use floe_native_apps.DesktopClipboard.{Target}
use floe_native_apps.DesktopNative.{Waiter, Command, select, close_window, Desktop, Outcome, lost}
use floe_native_apps.DesktopNative.Observe.{Codecs, observe}
use floe_native_apps.DesktopNative.Requests.{
  query_display, query_scene, bind, register_attachment, unbind, unregister_attachment,
  release_epoch, window_request, submit, TextOperation, text_operation, cancel_text_operation,
  capture, take_waiters, end_dispatch,
}
use floe_native_apps.DesktopNative.Operations.{deliver}

pub data Call : Type 0 where
  observes : List Text → Call
  loses : Call
  queries_display queries_scene binds unregisters releases unbinds selects closes_window cancels :
      ℕ → Bool → Call
  registers : ℕ → ℕ → Bool → Call
  submits : ℕ → Target → List Command → Bool → Call
  delivers : ℕ → Target → Fields → Bool → Call
  operates : ℕ → Target → TextOperation → ℕ → Bool → Call
  captures : Waiter → Bool → Call
  takes_waiters : Call
  ends_dispatch : Bool → Call

-- A record that raises closes the channel (Channel), which calls `lost`.
abbrev pub after_record : Outcome → Desktop
after_record (true, s, events) = (lost s).0
after_record (false, s, events) = s

unfoldable pub step : Codecs → Desktop → Call → Desktop
step codecs s (observes fields) = after_record (observe codecs fields s)
step codecs s loses = (lost s).0
step codecs s (queries_display callback ok) = (query_display callback ok s).1
step codecs s (queries_scene callback ok) = (query_scene callback ok s).1
step codecs s (binds epoch ok) = (bind epoch ok s).1
step codecs s (unregisters a ok) = (unregister_attachment a ok s).1
step codecs s (releases epoch ok) = (release_epoch epoch ok s).1
step codecs s (unbinds epoch ok) = (unbind epoch ok s).1
step codecs s (selects window ok) = (window_request select window ok s).1
step codecs s (closes_window window ok) = (window_request close_window window ok s).1
step codecs s (cancels n ok) = (cancel_text_operation n ok s).1
step codecs s (registers a epoch ok) = (register_attachment a epoch ok s).1
step codecs s (submits epoch target commands ok) = (submit epoch target commands ok s).1
step codecs s (delivers epoch target fields ok) = (deliver epoch target fields ok s).1
step codecs s (operates epoch target operation completed ok) =
    (text_operation epoch target operation completed ok s).1
step codecs s (captures w started) = (capture w started s).1
step codecs s takes_waiters = (take_waiters s).1
step codecs s (ends_dispatch started) = (end_dispatch started s).0

unfoldable pub run : Codecs → Desktop → List Call → Desktop
run codecs s [] = s
run codecs s (c ∷ cs) = run codecs (step codecs s c) cs
