-- ===== src/DesktopNative/Aim/Requests.antt =====
-- Every method that viewers and adapters call keeps the aim.
use floe_native_apps.Prelude.{
  ℕ, ◌+◌, ◌++◌, keep_if, max, ltb, Bool, true, false, not, ◌&&◌, ◌||◌, Option, none, some, List, [],
  ◌∷◌, ◌==◌, if◌then◌else◌, nat_key, arith, Bool-cases, Option-cases, inl, inr,
}
use floe_native_apps.Prelude.Options.{◌>>=◌}
use floe_native_apps.DesktopClipboard.{Target, max_id}
use floe_native_apps.DesktopNative.{TextRequest, Desktop, Outcome}
use floe_native_apps.DesktopNative.Records.{contains, is_some}
use floe_native_apps.DesktopNative.Aim.{IsAimed, lost-IsAimed}
use floe_native_apps.DesktopNative.Requests.{
  sending, or_else, is_attachment, first, is_empty, withdrawn, start_next, query_display,
  query_scene, bind, register_attachment, unbind, unregister_attachment, release_epoch,
  window_request, submit, text_operation_in, TextOperation, text_operation, cancel_text_operation,
  start_capture, capture,
}
use floe_native_apps.DesktopNative.{Message, Command, Waiter}
use floe_native_apps.DesktopNative.Operations.{validate_input, commands_of, deliver, deliver_in}
use floe_native_apps.Python.Value.{Fields}

pub sending-IsAimed :
    (ok : Bool) (m : Message) (s : Desktop) → IsAimed s → IsAimed (sending ok m s).1
sending-IsAimed true m s h = h
sending-IsAimed false m s h = lost-IsAimed s h

pub query_display-IsAimed :
    (n : ℕ) (ok : Bool) (s : Desktop) → IsAimed s → IsAimed (query_display n ok s).1
unfolding query_display
query_display-IsAimed n ok s h =
    let t = record s { display_requested = true; display_query = some n } in
    let k : IsAimed t = record { aims = h.aims; shut = h.shut; nonzero = h.nonzero } in
    ground (arith, lost-IsAimed t k)

pub query_scene-IsAimed :
    (n : ℕ) (ok : Bool) (s : Desktop) → IsAimed s → IsAimed (query_scene n ok s).1
unfolding query_scene
query_scene-IsAimed n ok s h =
    let t = record s { query_id = s.query_id + 1; query = some n } in
    let k : IsAimed t = record { aims = h.aims; shut = h.shut; nonzero = h.nonzero } in
    ground (arith, lost-IsAimed t k)

pub bind-IsAimed : (n : ℕ) (ok : Bool) (s : Desktop) → IsAimed s → IsAimed (bind n ok s).1
unfolding bind
bind-IsAimed n ok s h =
    let t = record s { epoch = n; last_epoch = n } in
    let k : IsAimed t = record { aims = h.aims; shut = h.shut; nonzero = h.nonzero } in
    ground (arith, lost-IsAimed t k)

pub register_attachment-IsAimed :
    (a n : ℕ) (ok : Bool) (s : Desktop) → IsAimed s → IsAimed (register_attachment a n ok s).1
unfolding register_attachment
register_attachment-IsAimed a n ok s h =
    let t = record s {
      attachments = if contains a s.attachments then s.attachments else s.attachments ++ a ∷ [];
      attachment = or_else s.attachment a;
    } in
    let k : IsAimed t = record { aims = h.aims; shut = h.shut; nonzero = h.nonzero } in
    ground (arith, bind-IsAimed (max n (s.last_epoch + 1)) ok t k)

pub unbind-IsAimed : (n : ℕ) (ok : Bool) (s : Desktop) → IsAimed s → IsAimed (unbind n ok s).1
unfolding unbind
unbind-IsAimed n ok s h = ground (arith, lost-IsAimed s h)

pub unregister_attachment-IsAimed :
    (a : ℕ) (ok : Bool) (s : Desktop) → IsAimed s → IsAimed (unregister_attachment a ok s).1
unfolding unregister_attachment
unregister_attachment-IsAimed a ok s h =
    let remaining = keep_if (λ b. not (b == a)) s.attachments in
    let t = record s {
      attachments = remaining;
      attachment = if is_attachment a s.attachment then first remaining else s.attachment;
      capture_waiters = keep_if (λ w. not (w.attachment == a)) s.capture_waiters;
    } in
    let k : IsAimed t = record { aims = h.aims; shut = h.shut; nonzero = h.nonzero } in
    elim (Bool-cases (is_empty remaining && not (s.epoch == 0))) [
      | inl e ↦ simp e (unbind-IsAimed s.epoch ok t k)
      | inr e ↦ simp e k
    ]

pub release_epoch-IsAimed :
    (n : ℕ) (ok : Bool) (s : Desktop) → IsAimed s → IsAimed (release_epoch n ok s).1
unfolding release_epoch
release_epoch-IsAimed n ok s h = ground (arith, lost-IsAimed s h)

pub window_request-IsAimed :
    (m : ℕ → ℕ → Message) (w : ℕ) (ok : Bool) (s : Desktop)
    → IsAimed s
    → IsAimed (window_request m w ok s).1
unfolding window_request
window_request-IsAimed m w ok s h = ground (arith, lost-IsAimed s h)

pub submit-IsAimed :
    (n : ℕ) (t : Target) (cs : List Command) (ok : Bool) (s : Desktop)
    → IsAimed s
    → IsAimed (submit n t cs ok s).1
unfolding submit
submit-IsAimed n t cs ok s h = ground (arith, lost-IsAimed s h)

pub deliver-IsAimed :
    (n : ℕ) (t : Target) (fields : Fields) (ok : Bool) (s : Desktop)
    → IsAimed s
    → IsAimed (deliver n t fields ok s).1
unfolding deliver
deliver-IsAimed n t fields ok s h = elim (Option-cases (validate_input fields >>= commands_of)) [
  | inl e ↦ rw (e, deliver_in) h
  | inr (cs, e) ↦ rw (e, deliver_in) (submit-IsAimed n t cs ok s h)
]

pub withdrawn-IsAimed : (o : Outcome) → IsAimed o.1 → IsAimed (withdrawn o).1
withdrawn-IsAimed (true, s, events) h = record { aims = h.aims; shut = h.shut; nonzero = h.nonzero }
withdrawn-IsAimed (false, s, events) h = h

pub text_operation_in-IsAimed :
    (c : Option Command) (r : TextRequest) (ok : Bool) (s : Desktop)
    → IsAimed s
    → IsAimed (text_operation_in c r ok s).1
unfolding text_operation_in
text_operation_in-IsAimed none r ok s h = h
text_operation_in-IsAimed (some c) r ok s h =
    withdrawn-IsAimed (submit r.epoch r.target (c ∷ []) ok (record s { text_request = some r })) (
      submit-IsAimed r.epoch r.target (c ∷ []) ok (record s { text_request = some r })
        (record { aims = h.aims; shut = h.shut; nonzero = h.nonzero }))

pub text_operation-IsAimed :
    (n : ℕ) (t : Target) (o : TextOperation) (c : ℕ) (ok : Bool) (s : Desktop)
    → IsAimed s
    → IsAimed (text_operation n t o c ok s).1
unfolding text_operation
text_operation-IsAimed n t o c ok s h =
    elim (Bool-cases (is_some s.text_request || ltb max_id (s.last_text_request + 1))) [
      | inl e ↦ simp e h
      | inr e ↦ simp e (
          text_operation_in-IsAimed _ _ ok
            (record s { last_text_request = s.last_text_request + 1 })
            (record { aims = h.aims; shut = h.shut; nonzero = h.nonzero }))
    ]

pub cancel_text_operation-IsAimed :
    (n : ℕ) (ok : Bool) (s : Desktop) → IsAimed s → IsAimed (cancel_text_operation n ok s).1
unfolding cancel_text_operation
cancel_text_operation-IsAimed n ok s h =
    let t = record s { text_request = none } in
    let k : IsAimed t = record { aims = h.aims; shut = h.shut; nonzero = h.nonzero } in
    ground (arith, lost-IsAimed t k)

pub start_capture-IsAimed :
    (t : Target) (b : Bool) (s : Desktop) → IsAimed s → IsAimed (start_capture t b s).0
unfolding start_capture
start_capture-IsAimed t b s h = ground arith

pub capture-IsAimed : (w : Waiter) (b : Bool) (s : Desktop) → IsAimed s → IsAimed (capture w b s).1
unfolding capture
capture-IsAimed w b s h = ground arith

pub start_next-IsAimed :
    (ws : List Waiter) (b : Bool) (s : Desktop) → IsAimed s → IsAimed (start_next ws b s).0
start_next-IsAimed [] b s h = h
start_next-IsAimed (w ∷ ws) b s h = ground (arith, start_capture-IsAimed w.target b s h)
