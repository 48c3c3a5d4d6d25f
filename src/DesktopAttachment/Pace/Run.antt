-- ===== src/DesktopAttachment/Pace/Run.antt =====
-- Every call of an attachment keeps the pace of its frames.
use floe_native_apps.Prelude.{
  ℕ, ◌≡◌, refl, ap, subst, inl, inr, Bool, ==_iff, true, false, ◌&&◌, Option, none, some, List, [],
  ◌∷◌, leb, length, arith, Bool-cases,
}
use floe_native_apps.DesktopClipboard.{Target}
use floe_native_apps.DesktopAttachment.{
  Mode, Attachment, new, View, is_owner, is_target, scene_changed, captured,
}
use floe_native_apps.DesktopAttachment.Requests.{
  leave, is_frame, is_authorized, is_controllable, terminate, select_window, close_window,
  asks_status, terminates, selects, closes_window, taken_over, acknowledges, acknowledge_first,
  frame_ack, configure_stream, same_mode, refresh, Method, acknowledges_frame, configures,
  refreshes, by_method, request, input_failed, refine_for, refinement_runs, cadence_runs, writable,
  close, Call, attaches, detaches, input_fails, requests, scene_changes, damages, refinement_fires,
  cadence_fires, closes, becomes_writable, completes, step, run,
}
use floe_native_apps.DesktopAttachment.Pace.{
  Between, Queued, IsPaced, Between-le, retire-IsPaced, quiet, uncaptured, pump-IsPaced,
  damage-IsPaced,
}
use floe_native_apps.DesktopAttachment.Pace.Captures.{
  captured_for-IsPaced, detach-IsPaced, leave-IsPaced, attach-IsPaced,
}

is_frame-eq : (f : Option ℕ) (n : ℕ) → is_frame f n ≡ true → f ≡ some n
is_frame-eq none n e = absurd cc
is_frame-eq (some m) n e = ap some ((==_iff m n).0 e)

acknowledges_names :
    (f : Option ℕ) (u : Option Target) (n : ℕ) (t : Target) (xs : List (ℕ × Target))
    → acknowledges f u ((n, t) ∷ xs) ≡ true
    → (f ≡ some n) × (is_target t u ≡ true)
unfolding acknowledges
acknowledges_names f u n t xs e = elim (Bool-cases (is_frame f n)) [
  | inl w ↦ (is_frame-eq f n w, ground (arith, e, w))
  | inr w ↦ absurd (ground (arith, e, w))
]

acknowledge_first-IsPaced :
    (v : View) (f : Option ℕ) (o n : ℕ) (xs : List (ℕ × Target)) (s : Attachment)
    → acknowledges f v.target xs ≡ true
    → s.awaiting ≡ xs
    → IsPaced s
    → IsPaced (acknowledge_first v f o n xs s).0
unfolding acknowledge_first
acknowledge_first-IsPaced v f o n [] s a e h = h
acknowledge_first-IsPaced v f o n ((m, t) ∷ rest) s a e h =
    let l = ap length e in
    let i = subst (λ ys. Between 0 s.frame_sequence ys) e h.order in
    let q = subst (λ ys. Queued s.epoch s.sent ys) e h.queued in
    let w = acknowledges_names f v.target m t rest a in
    pump-IsPaced v _ (record {
      least = h.least;
      most = h.most;
      bounded = omega (arith, l, h.bounded);
      room = λ c. let r = h.room c in omega (arith, l, r);
      idle = λ w. absurd (let a = ap length (h.idle w).0 in omega (arith, a, l));
      order = Between-le m 0 s.frame_sequence rest (omega arith) i.1;
      queued = q.1;
      shown = (refl, (m, w.0, q.0, w.1));
      known = ((t, (m, w.0, q.0, w.1)), h.known);
    })

frame_ack-IsPaced :
    (v : View) (o n : ℕ) (m : Option ℕ) (s : Attachment)
    → IsPaced s
    → IsPaced (frame_ack v o n m s).0
unfolding frame_ack
frame_ack-IsPaced v o n m s h = elim (Bool-cases (acknowledges m v.target s.awaiting)) [
  | inl e ↦ simp e (acknowledge_first-IsPaced v m o n s.awaiting s e refl h)
  | inr e ↦ simp e h
]

terminate-IsPaced :
    (v : View) (o n : ℕ) (p : Bool) (s : Attachment) → IsPaced s → IsPaced (terminate v o n p s).0
unfolding terminate
terminate-IsPaced v o n p s h = elim (Bool-cases p) [
  | inr e ↦ simp e h
  | inl e ↦ elim (Bool-cases (is_controllable v o s)) [
    | inr f ↦ simp (e, f) h
    | inl f ↦ elim (Bool-cases v.can_terminate) [
      | inr g ↦ simp (e, f, g) h
      | inl g ↦ simp (e, f, g) (retire-IsPaced s h)
    ]
  ]
]

select_window-IsPaced :
    (v : View) (o n : ℕ) (w : Option ℕ) (s : Attachment)
    → IsPaced s
    → IsPaced (select_window v o n w s).0
unfolding select_window
select_window-IsPaced v o n none s h = h
select_window-IsPaced v o n (some w) s h = elim (Bool-cases (is_authorized v o s)) [
  | inr f ↦ simp f h
  | inl f ↦ simp f (retire-IsPaced s h)
]

close_window-IsPaced :
    (v : View) (o n : ℕ) (w : Option ℕ) (s : Attachment)
    → IsPaced s
    → IsPaced (close_window v o n w s).0
unfolding close_window
close_window-IsPaced v o n none s h = h
close_window-IsPaced v o n (some w) s h = elim (Bool-cases (is_authorized v o s)) [
  | inr f ↦ simp f h
  | inl f ↦ elim (Bool-cases s.failed) [
    | inr g ↦ simp (f, g) h
    | inl g ↦ elim (Bool-cases v.obeys) [ inl k ↦ simp (f, g, k) h | inr k ↦ simp (f, g, k) h ]
  ]
]

configure-IsPaced :
    (v : View) (o n : ℕ) (m : Option Mode) (s : Attachment)
    → IsPaced s
    → IsPaced (configure_stream v o n m s).0
unfolding configure_stream
configure-IsPaced v o n none s h = h
configure-IsPaced v o n (some m) s h =
    let u = record s { cadence = false; mode = some m; capacity = 2 } in
    let k : IsPaced u = record {
      least = omega arith;
      most = omega arith;
      bounded = omega (arith, h.bounded, h.most);
      room = λ c. let r = h.room c in omega (arith, r, h.most);
      idle = h.idle;
      order = h.order;
      queued = h.queued;
      shown = h.shown;
      known = h.known;
    } in
    elim (Bool-cases (same_mode m s.mode)) [
      | inl e ↦ simp e h
      | inr e ↦ simp e (damage-IsPaced v u k)
    ]

by_method-IsPaced :
    (v : View) (o n : ℕ) (m : Method) (s : Attachment) → IsPaced s → IsPaced (by_method v o n m s).0
unfolding by_method refresh
by_method-IsPaced v o n asks_status s h = h
by_method-IsPaced v o n (terminates p) s h = terminate-IsPaced v o n p s h
by_method-IsPaced v o n (selects w) s h = select_window-IsPaced v o n w s h
by_method-IsPaced v o n (closes_window w) s h = close_window-IsPaced v o n w s h
by_method-IsPaced v o n (acknowledges_frame f) s h = frame_ack-IsPaced v o n f s h
by_method-IsPaced v o n (configures m) s h = configure-IsPaced v o n m s h
by_method-IsPaced v o n refreshes s h = damage-IsPaced v s h

request-IsPaced :
    (v : View) (o n : ℕ) (m : Method) (s : Attachment) → IsPaced s → IsPaced (request v o n m s).0
unfolding request
request-IsPaced v o n m s h = elim (Bool-cases (is_owner o s.owner)) [
  | inr e ↦ simp e h
  | inl e ↦ elim (Bool-cases (leb n s.last_request)) [
    | inl f ↦ simp (e, f) h
    | inr f ↦
        simp (e, f)
          (by_method-IsPaced v o n m _
            (quiet s s.refinement s.cadence s.lossy s.dirty s.failed s.next_ticket n h))
  ]
]

refine_for-IsPaced :
    (v : View) (r : Option (ℕ × Target)) (s : Attachment) → IsPaced s → IsPaced (refine_for v r s).0
unfolding refine_for
refine_for-IsPaced v none s h = h
refine_for-IsPaced v (some (o, t)) s h =
    elim (Bool-cases (is_owner o s.owner && is_target t v.target)) [
      | inl e ↦ simp e (
          pump-IsPaced v _
            (quiet s none s.cadence s.lossy true s.failed s.next_ticket s.last_request h))
      | inr e ↦
          simp e (quiet s none s.cadence s.lossy s.dirty s.failed s.next_ticket s.last_request h)
    ]

step-IsPaced : (v : View) (s : Attachment) (c : Call) → IsPaced s → IsPaced (step v s c).0
unfolding step input_failed scene_changed refinement_runs cadence_runs writable close captured
step-IsPaced v s (attaches o) h = attach-IsPaced v o s h
step-IsPaced v s (detaches o) h = detach-IsPaced o s h
step-IsPaced v s (input_fails o) h = elim (Bool-cases (is_owner o s.owner)) [
  | inl e ↦ simp e (
      retire-IsPaced _
        (quiet s s.refinement s.cadence s.lossy s.dirty true s.next_ticket s.last_request h))
  | inr e ↦ simp e h
]
step-IsPaced v s (requests o n m) h = request-IsPaced v o n m s h
step-IsPaced v s scene_changes h = damage-IsPaced v _ (retire-IsPaced s h)
step-IsPaced v s damages h = damage-IsPaced v s h
step-IsPaced v s refinement_fires h = refine_for-IsPaced v s.refinement s h
step-IsPaced v s cadence_fires h = elim (Bool-cases s.cadence) [
  | inl e ↦ simp e (
      pump-IsPaced v _
        (quiet s s.refinement false s.lossy s.dirty s.failed s.next_ticket s.last_request h))
  | inr e ↦ simp e h
]
step-IsPaced v s closes h =
    let t = record s { refinement = none; cadence = false } in
    uncaptured (leave s.owner t).0 (
      leave-IsPaced s.owner t
        (quiet s none false s.lossy s.dirty s.failed s.next_ticket s.last_request h))
step-IsPaced v s taken_over h = retire-IsPaced s h
step-IsPaced v s (becomes_writable o) h = elim (Bool-cases (is_owner o s.owner)) [
  | inl e ↦ simp e (pump-IsPaced v s h)
  | inr e ↦ simp e h
]
step-IsPaced v s (completes c n) h = captured_for-IsPaced v c n s.capture s refl h

runs : (s : Attachment) (cs : List (View × Call)) → IsPaced s → IsPaced (run s cs)
unfolding run
runs s [] h = h
runs s ((v, c) ∷ cs) h = runs (step v s c).0 cs (step-IsPaced v s c h)

-- After any calls on a new attachment, whatever the native desktop and the owner answer, the frames
-- that wait for an acknowledgement are no more than the capacity, which is 1 or 2, and fewer while a
-- capture runs; they were sent in this connection and wait in order; every acknowledgement that was
-- granted names a frame sent in its connection, of the target that was the native desktop's at that
-- time; and the target of input, if there is one, is that of the frame which the acknowledgement that
-- was granted last, in this connection, names.
pub run-IsPaced : (cs : List (View × Call)) → IsPaced (run new cs)
unfolding new
run-IsPaced cs = runs new cs (record {
  least = omega arith;
  most = omega arith;
  bounded = omega arith;
  room = λ c. cc;
  idle = λ e. (refl, refl);
  order = omega arith;
  queued = tt;
  shown = tt;
  known = tt;
})
