-- ===== src/DesktopNative/Aim/Run.antt =====
-- Every step of `NativeDesktop` keeps its aim.
use floe_native_apps.Prelude.{refl, false, List, [], ◌∷◌, get, nat_key}
use floe_native_apps.DesktopNative.{Desktop, new}
use floe_native_apps.DesktopNative.Observe.{Codecs, observe}
use floe_native_apps.DesktopNative.Aim.{IsAimed, lost-IsAimed}
use floe_native_apps.DesktopNative.Steps.{
  Call, observes, loses, queries_display, queries_scene, binds, unregisters, releases, unbinds,
  selects, closes_window, cancels, registers, submits, delivers, operates, captures, takes_waiters,
  ends_dispatch, step, run,
}
use floe_native_apps.DesktopNative.Requests.{take_waiters, end_dispatch}
use floe_native_apps.DesktopNative.{select, close_window}
use floe_native_apps.DesktopNative.Aim.Records.{observe-IsAimed, after_record-IsAimed}
use floe_native_apps.DesktopNative.Aim.Requests.{
  query_display-IsAimed, query_scene-IsAimed, bind-IsAimed, register_attachment-IsAimed,
  unbind-IsAimed, unregister_attachment-IsAimed, release_epoch-IsAimed, window_request-IsAimed,
  submit-IsAimed, deliver-IsAimed, text_operation-IsAimed, cancel_text_operation-IsAimed,
  capture-IsAimed, start_next-IsAimed,
}

module _ (codecs : Codecs) where
  step-IsAimed : (s : Desktop) (c : Call) → IsAimed s → IsAimed (step codecs s c)
  unfolding step take_waiters end_dispatch
  step-IsAimed s (observes fields) h =
      after_record-IsAimed codecs (observe codecs fields s) (observe-IsAimed codecs fields s h)
  step-IsAimed s loses h = lost-IsAimed s h
  step-IsAimed s (queries_display n ok) h = query_display-IsAimed n ok s h
  step-IsAimed s (queries_scene n ok) h = query_scene-IsAimed n ok s h
  step-IsAimed s (binds n ok) h = bind-IsAimed n ok s h
  step-IsAimed s (unregisters n ok) h = unregister_attachment-IsAimed n ok s h
  step-IsAimed s (releases n ok) h = release_epoch-IsAimed n ok s h
  step-IsAimed s (unbinds n ok) h = unbind-IsAimed n ok s h
  step-IsAimed s (selects n ok) h = window_request-IsAimed select n ok s h
  step-IsAimed s (closes_window n ok) h = window_request-IsAimed close_window n ok s h
  step-IsAimed s (cancels n ok) h = cancel_text_operation-IsAimed n ok s h
  step-IsAimed s (registers a n ok) h = register_attachment-IsAimed a n ok s h
  step-IsAimed s (submits n t cs ok) h = submit-IsAimed n t cs ok s h
  step-IsAimed s (delivers n t fields ok) h = deliver-IsAimed n t fields ok s h
  step-IsAimed s (operates n t o c ok) h = text_operation-IsAimed n t o c ok s h
  step-IsAimed s (captures w b) h = capture-IsAimed w b s h
  step-IsAimed s takes_waiters h = record { aims = h.aims; shut = h.shut; nonzero = h.nonzero }
  step-IsAimed s (ends_dispatch b) h =
      start_next-IsAimed s.capture_waiters b (record s { capture_dispatching = false })
        (record { aims = h.aims; shut = h.shut; nonzero = h.nonzero })

  run-IsAimed_from : (s : Desktop) (cs : List Call) → IsAimed s → IsAimed (run codecs s cs)
  unfolding run
  run-IsAimed_from s [] h = h
  run-IsAimed_from s (c ∷ cs) h = run-IsAimed_from (step codecs s c) cs (step-IsAimed s c h)

  -- From a new object, after any records and calls: a target is in the latest scene, and its window is
  -- known, has the focus of an available surface and is not minimized; a closed object has no target,
  -- and no window has the number 0.
  pub run-IsAimed : (cs : List Call) → IsAimed (run codecs new cs)
  unfolding new get
  run-IsAimed cs = run-IsAimed_from new cs (record { aims = tt; shut = λ c. refl; nonzero = refl })
