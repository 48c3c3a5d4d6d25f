-- ===== src/DesktopAttachment/Examples.antt =====
-- The theorem on an attachment whose first frame is captured, sent and acknowledged.
use floe_native_apps.Prelude.{◌≡◌, refl, true, false, none, some, List, [], ◌∷◌}
use floe_native_apps.DesktopClipboard.{Target}
use floe_native_apps.DesktopAttachment.{
  View, Description, frame, new, pump, pump_to, damage, captured, captured_for, with_capture,
  send_frame, schedule_refinement,
}
use floe_native_apps.DesktopAttachment.Requests.{
  Call, attaches, completes, requests, acknowledges_frame, step, run, attach, leave, request,
  by_method, frame_ack, acknowledges, acknowledge_first,
}
use floe_native_apps.DesktopAttachment.Pace.{IsPaced}
use floe_native_apps.DesktopAttachment.Pace.Run.{run-IsPaced}

abbrev target : Target
target = record { id = 3; window = 7; generation = 1 }

abbrev view : View
view = record {
  target = some target;
  frame_pending = false;
  takes_frame = true;
  starts = true;
  registers = true;
  controls = true;
  can_terminate = true;
  obeys = true;
}

abbrev description : Description
description = record {
  width = 640;
  height = 480;
  x = none;
  y = none;
  region_width = none;
  region_height = none;
  is_jpeg = false;
}

abbrev calls : List (View × Call)
calls =
    (view, attaches 1)
    ∷ (view, completes (frame description) 0)
    ∷ (view, requests 1 1 (acknowledges_frame (some 1)))
    ∷ []

run-IsPaced_example : IsPaced (run new calls)
run-IsPaced_example = run-IsPaced calls

becomes_ready : (run new calls).ready ≡ some target
unfolding run step new attach leave damage pump pump_to captured captured_for with_capture
    send_frame schedule_refinement request by_method frame_ack acknowledges acknowledge_first
becomes_ready = refl
