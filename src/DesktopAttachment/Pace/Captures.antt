-- ===== src/DesktopAttachment/Pace/Captures.antt =====
-- A capture that completes, and an owner that comes or goes, keep the pace of the frames.
use floe_native_apps.Prelude.{
  ℕ, ◌+◌, ◌<◌, ◌≡◌, refl, sym, ap, subst, inl, inr, true, false, Option, none, some, [], ◌∷◌, ◌++◌,
  ◌==◌, if◌then◌else◌, length, length-append, arith, Bool-cases,
}
use floe_native_apps.DesktopClipboard.{Target}
use floe_native_apps.DesktopAttachment.{
  Ticket, Attachment, View, is_some, is_owner, is_target, capture_failed, schedule_refinement,
  Description, is_full, Captured, frame, unchanged, unavailable, send_frame, with_capture,
  captured_for,
}
use floe_native_apps.DesktopAttachment.Requests.{detach, leave, attach}
use floe_native_apps.DesktopAttachment.Pace.{
  Shown, Queued, IsPaced, Between-suc, Between-append, Queued-append, known-more, Shown-more,
  retire-IsPaced, quiet, uncaptured, pump-IsPaced, damage-IsPaced, schedule-IsPaced,
}

owner_absurd : {A : Type 0} (o : ℕ) (p : Option ℕ) → is_owner o p ≡ true → p ≡ none → A
owner_absurd o none e f = cc
owner_absurd o (some q) e f = cc

send_frame-IsPaced :
    (v : View) (d : Description) (o : ℕ) (t : Target) (s : Attachment)
    → is_owner o s.owner ≡ true
    → length s.awaiting < s.capacity
    → s.capture ≡ none
    → IsPaced s
    → IsPaced (send_frame v d o t s).0
unfolding send_frame
send_frame-IsPaced v d o t s w l c h =
    let n = s.frame_sequence + 1 in
    let u = record s {
      frame_sequence = n;
      awaiting = s.awaiting ++ (n, t) ∷ [];
      lossy = if d.is_jpeg then true else if is_full d then false else s.lossy;
      sent = (n, s.epoch, t) ∷ s.sent;
    } in
    let more = length-append s.awaiting ((n, t) ∷ []) in
    let k : IsPaced u = record {
      least = h.least;
      most = h.most;
      bounded = omega (arith, l, more);
      room = λ e. cc;
      idle = λ e. owner_absurd o s.owner w e;
      order = Between-append 0 s.frame_sequence t s.awaiting h.order;
      queued = Queued-append s.epoch n t s.sent s.awaiting h.queued;
      shown = Shown-more (n, s.epoch, t) s.sent s.ready s.epoch s.acknowledged h.shown;
      known = known-more (n, s.epoch, t) s.sent s.acknowledged h.known;
    } in
    let x = schedule_refinement o t true u in
    let q = schedule-IsPaced o t true u k in
    elim (Bool-cases v.takes_frame) [
      | inl e ↦ simp e (
          pump-IsPaced v _
            (quiet x x.refinement _ x.lossy x.dirty x.failed x.next_ticket x.last_request q))
      | inr e ↦ simp e (record {
        least = h.least;
        most = h.most;
        bounded = h.bounded;
        room = h.room;
        idle = h.idle;
        order = Between-suc 0 s.frame_sequence s.awaiting h.order;
        queued = h.queued;
        shown = h.shown;
        known = h.known;
      })
    ]

with_capture-IsPaced :
    (v : View) (c : Captured) (o : ℕ) (t : Target) (s : Attachment)
    → is_owner o s.owner ≡ true
    → length s.awaiting < s.capacity
    → s.capture ≡ none
    → IsPaced s
    → IsPaced (with_capture v c o t s).0
unfolding with_capture capture_failed
with_capture-IsPaced v (frame d) o t s w l c h = send_frame-IsPaced v d o t s w l c h
with_capture-IsPaced v unchanged o t s w l c h = pump-IsPaced v _ (schedule-IsPaced o t false s h)
with_capture-IsPaced v unavailable o t s w l c h = retire-IsPaced s h

pub captured_for-IsPaced :
    (v : View) (c : Captured) (n : ℕ) (k : Option Ticket) (s : Attachment)
    → s.capture ≡ k
    → IsPaced s
    → IsPaced (captured_for v c n k s).0
unfolding captured_for
captured_for-IsPaced v c n none s e h = h
captured_for-IsPaced v c n (some k) s e h =
    let u = record s { capture = none } in
    let hu = uncaptured s h in
    let l : length s.awaiting < s.capacity = h.room (ap is_some e) in
    elim (Bool-cases (k.serial == n)) [
      | inr a ↦ simp a h
      | inl a ↦ elim (Bool-cases (is_owner k.owner s.owner)) [
        | inr b ↦ simp (a, b) (damage-IsPaced v u hu)
        | inl b ↦ elim (Bool-cases (is_target k.target v.target)) [
          | inr d ↦ simp (a, b, d) (damage-IsPaced v u hu)
          | inl d ↦ simp (a, b, d) (with_capture-IsPaced v c k.owner k.target u b l refl hu)
        ]
      ]
    ]

pub detach-IsPaced : (o : ℕ) (s : Attachment) → IsPaced s → IsPaced (detach o s).0
unfolding detach
detach-IsPaced o s h = elim (Bool-cases (is_owner o s.owner)) [
  | inl e ↦ simp e (record {
    least = h.least;
    most = h.most;
    bounded = omega arith;
    room = λ c. h.least;
    idle = λ e. (refl, refl);
    order = omega arith;
    queued = tt;
    shown = tt;
    known = h.known;
  })
  | inr e ↦ simp e h
]

pub leave-IsPaced : (p : Option ℕ) (s : Attachment) → IsPaced s → IsPaced (leave p s).0
unfolding leave
leave-IsPaced none s h = h
leave-IsPaced (some o) s h = detach-IsPaced o s h

owner-leave : (p : Option ℕ) (s : Attachment) → s.owner ≡ p → (leave p s).0.owner ≡ none
unfolding leave detach
owner-leave none s e = e
owner-leave (some o) s e = ground (arith, e)

pub attach-IsPaced : (v : View) (o : ℕ) (s : Attachment) → IsPaced s → IsPaced (attach v o s).0
unfolding attach
attach-IsPaced v o s h =
    let t = (leave s.owner s).0 in
    let ht = leave-IsPaced s.owner s h in
    let empty = ht.idle (owner-leave s.owner s refl) in
    let u = record t {
      owner = some o;
      last_request = 0;
      mode = none;
      capacity = 1;
      lossy = false;
      epoch = t.epoch + 1;
      failed = false;
    } in
    let k : IsPaced u = record {
      least = omega arith;
      most = omega arith;
      bounded = omega (arith, ap length empty.0);
      room = λ c. omega (arith, ap length empty.0);
      idle = λ e. cc;
      order = ht.order;
      queued = subst (λ xs. Queued (t.epoch + 1) t.sent xs) (sym empty.0) tt;
      shown = subst (λ r. Shown r (t.epoch + 1) t.sent t.acknowledged) (sym empty.1) tt;
      known = ht.known;
    } in
    elim (Bool-cases v.registers) [ inl e ↦ simp e (damage-IsPaced v u k) | inr e ↦ simp e k ]
