-- ===== src/InputDispatch/Keeps.antt =====
-- A rule for invariants of the dispatch: what its writes keep, every call keeps, with the scheduler.
use floe_native_apps.Prelude.{
  Bool, ℕ, if◌then◌else◌, ◌<◌, ◌≡◌, true, false, not, ◌&&◌, ◌||◌, Option, none, some, List, [], ◌∷◌,
  leb, put, nat_key, Bool-cases, inl, inr, arith,
}
use floe_native_apps.Python.Int.{ℤ}
use floe_native_apps.Python.Text.{Text, valid_text}
use floe_native_apps.InputOrder.{
  Owner, InputError, context_error, delivery_timeout, delivery_failed, each,
}
use floe_native_apps.InputOrder as Order
use floe_native_apps.InputOrder.Worlds.{
  KeepsWorld, world_each, world_until_broken, world_enqueue, world_invalidated, world_complete,
  world_expire, world_close,
}
use floe_native_apps.InputDispatch.{
  Source, DispatchError, version_unsupported, text_invalid, no_context, target_unavailable,
  sequence_invalid, Host, World, Operation, ordinary, confirmed, state_of, available, fail, tell,
  reject, admit, confirm, lacks_target, with_window, with_token, result, after_result, env, is_some,
}
use floe_native_apps.InputDispatch.Calls.{
  packet_fields, Dispatch, turn_away, enqueue_packet, has_version, enqueue_text, enqueue_handler,
  close, Call, enqueues_text, enqueues_handler, completes, expires, invalidates, closes, changes,
  step, run,
}

abbrev pub with_sequence : {H : Type 0} → Owner → ℕ → World H → World H
with_sequence o n w = record w {
  connections = put o (record (state_of o w) { sequence = n }) w.connections;
}

-- The writes of the dispatch that keep `Q`.
pub record Keeps {ℓ} {H : Type 0} (host : Host H) (Q : World H → Type ℓ) : Type ℓ where
  pub hosts : (w : World H) (h : H) → Q w → Q (record w { host = h })
  pub fails :
      (o : Owner) (w : World H)
      → Q w
      → Q (record w { connections = put o (record (state_of o w) { failed = true }) w.connections })
  pub moves :
      (o : Owner) (n : ℕ) (w : World H)
      → available host o w ≡ true
      → (state_of o w).sequence < n
      → Q w
      → Q (with_sequence o n w)
  pub gives :
      (o : Owner) (n : ℕ) (w : World H)
      → available host o w ≡ true
      → (state_of o w).sequence < n
      → Q w
      → Q (record (with_sequence o n w) { delivered = (o, n) ∷ w.delivered })

module _ {ℓ} {H : Type 0} (host : Host H) (Q : World H → Type ℓ) (k : Keeps host Q) where
  keeps_fail : (o : Owner) (w : World H) → Q w → Q (fail host o w)
  unfolding fail
  keeps_fail o w h = k.hosts _ _ (k.fails o w h)

  keeps_tell :
      (known : Bool) (o : Owner) (n : ℕ) (e : DispatchError) (w : World H)
      → Q w
      → Q (tell host known o n e w)
  unfolding tell
  keeps_tell known o n e w h = elim (Bool-cases (known && not (host.is_closed o w.host))) [
    | inl c ↦ simp c (k.hosts w _ h)
    | inr c ↦ simp c h
  ]

  keeps_reject :
      (o : Owner) (n : ℕ) (e : DispatchError) (w : World H) → Q w → Q (reject host o n e w).0
  unfolding reject
  keeps_reject o n e w h = keeps_tell _ o n e (fail host o w) (keeps_fail o w h)

  keeps_token :
      (o : Owner) (n : ℕ) (x : Text) (c d : Option ℕ) (w : World H)
      → Q w
      → Q (record w { delivered = (o, n) ∷ w.delivered })
      → Q (with_token host o n x c d w).0
  unfolding with_token
  keeps_token o n x (some c) d w h g = g
  keeps_token o n x none (some d) w h g = g
  keeps_token o n x none none w h g = keeps_reject o n no_context w h

  keeps_window :
      (o : Owner) (n : ℕ) (x : Text) (v : Option ℕ) (w : World H)
      → Q w
      → Q (record w { delivered = (o, n) ∷ w.delivered })
      → Q (with_window host o n x v w).0
  unfolding with_window
  keeps_window o n x none w h g = keeps_reject o n target_unavailable w h
  keeps_window o n x (some v) w h g = elim (Bool-cases (host.focused v w.host)) [
    | inl c ↦ simp c (keeps_token o n x (host.context v w.host) (host.xim_context v w.host) w h g)
    | inr c ↦ simp c (keeps_reject o n no_context w h)
  ]

  keeps_confirm :
      (o : Owner) (n : ℕ) (wid : ℤ) (x : Text) (v : Option ℕ) (c : Option Source) (w : World H)
      → available host o w ≡ true
      → Q w
      → Q (confirm host o n wid x v c w).0
  unfolding confirm
  keeps_confirm o n wid x v none w a h = h
  keeps_confirm o n wid x v (some c) w a h = elim (Bool-cases (leb n (state_of o w).sequence)) [
    | inl l ↦ simp l (keeps_reject o n sequence_invalid w h)
    | inr l ↦
        let lt : (state_of o w).sequence < n = ground (arith, l) in
        let t = with_sequence o n w in
        let ht = k.moves o n w a lt h in
        elim (Bool-cases (lacks_target host o (host.window wid w.host) v c w.host)) [
          | inl m ↦ simp (l, m) (keeps_reject o n target_unavailable t ht)
          | inr m ↦
              simp (l, m) (keeps_window o n x (host.window wid w.host) t ht (k.gives o n w a lt h))
        ]
  ]

  keeps_admit :
      (o : Owner) (op : Operation) (w : World H)
      → available host o w ≡ true
      → Q w
      → Q (admit host o op w).0
  unfolding admit
  keeps_admit o (ordinary n) w a h = k.hosts w _ h
  keeps_admit o (confirmed n wid x v) w a h = keeps_confirm o n wid x v (host.source o w.host) w a h

  keeps_result :
      (o : Owner) (n : ℕ) (e : Option InputError) (w : World H) → Q w → Q (result host o n e w).0
  unfolding result
  keeps_result o n none w h = k.hosts w _ h
  keeps_result o n (some (context_error [])) w h = k.hosts w _ h
  keeps_result o n (some (context_error (c ∷ cs))) w h = keeps_fail o w h
  keeps_result o n (some delivery_timeout) w h = keeps_fail o w h
  keeps_result o n (some delivery_failed) w h = keeps_fail o w h

  keeps_after_result :
      (o : Owner) (n : ℕ) (e : Option InputError) (w v : World H)
      → Q v
      → Q (after_result host o n e w v)
  unfolding after_result
  keeps_after_result o n none w v h = h
  keeps_after_result o n (some (context_error [])) w v h = h
  keeps_after_result o n (some (context_error (c ∷ cs))) w v h = keeps_tell _ o n _ v h
  keeps_after_result o n (some delivery_timeout) w v h = keeps_tell _ o n _ v h
  keeps_after_result o n (some delivery_failed) w v h = keeps_tell _ o n _ v h

  keeps : KeepsWorld (env host) Q
  keeps = record {
    admit = keeps_admit;
    result = λ o n e w a h. keeps_result o n e w h;
    after_result = keeps_after_result;
    overflow = λ o w h. k.hosts w _ h;
    timeout_add = λ n w h. k.hosts w _ h;
    timeout_remove = λ n w h. k.hosts w _ h;
    commit = λ a t x w h. k.hosts w _ h;
    cancel = λ a t w h. k.hosts w _ h;
  }

  either : (b : Bool) (s t : Dispatch host) → Q s.world → Q t.world → Q (if b then s else t).world
  either true s t h k = h
  either false s t h k = k

  keeps_turn_away :
      (o : Owner) (n : ℕ) (e : DispatchError) (s : Dispatch host)
      → Q s.world
      → Q (turn_away host o n e s).world
  unfolding turn_away
  keeps_turn_away o n e s h =
      let r : Dispatch host = record s { world = fail host o s.world; broken = false } in
      let t = Order.invalidated (env host) o r in
      let done = world_invalidated (env host) Q keeps o r (keeps_fail o s.world h) in
      let told = tell host (is_some (host.source o s.world.host)) o n e t.world in
      either t.broken t (record t { world = told }) done (keeps_tell _ o n e _ done)

  keeps_packet :
      (o : Owner) (p : Option (ℕ × ℤ × Text)) (s : Dispatch host)
      → Q s.world
      → Q (enqueue_packet host o p s).world
  unfolding enqueue_packet
  keeps_packet o none s h =
      let t = Order.invalidated (env host) o (record s { broken = false }) in
      let done = world_invalidated (env host) Q keeps o (record s { broken = false }) h in
      let shut = host.close_protocol o t.world.host in
      let r : Dispatch host = record t { world = record t.world { host = shut.0 } } in
      either t.broken t (each (Order.until_broken (env host)) shut.1 r) done (
        world_each (env host) Q keeps (Order.until_broken (env host))
          (world_until_broken (env host) Q keeps) shut.1 r (k.hosts t.world shut.0 done))
  keeps_packet o (some (n, wid, x)) s h = elim (Bool-cases (valid_text x)) [
    | inl c ↦ simp c (world_enqueue (env host) Q keeps o _ s h)
    | inr c ↦ simp c (keeps_turn_away o n text_invalid s h)
  ]

  keeps_step : (s : Dispatch host) (c : Call H) → Q s.world → Q (step host s c).world
  unfolding step enqueue_text enqueue_handler close
  keeps_step s (enqueues_text o p) h =
      elim (Bool-cases (s.closed || not (available host o s.world))) [
        | inl b ↦ simp b h
        | inr b ↦ elim (Bool-cases (has_version host (host.source o s.world.host))) [
          | inl v ↦ simp (b, v) (keeps_packet o (packet_fields p) s h)
          | inr v ↦ simp (b, v) (keeps_turn_away o 0 version_unsupported s h)
        ]
      ]
  keeps_step s (enqueues_handler o n) h =
      elim (Bool-cases (s.closed || not (available host o s.world))) [
        | inl b ↦ simp b h
        | inr b ↦ elim (Bool-cases (has_version host (host.source o s.world.host))) [
          | inl v ↦ simp (b, v) (world_enqueue (env host) Q keeps o _ s h)
          | inr v ↦ simp (b, v) (keeps_turn_away o 0 version_unsupported s h)
        ]
      ]
  keeps_step s (completes n e) h = world_complete (env host) Q keeps n e s h
  keeps_step s (expires n) h = world_expire (env host) Q keeps n s h
  keeps_step s (invalidates o) h = world_invalidated (env host) Q keeps o s h
  keeps_step s closes h = k.hosts _ _ (world_close (env host) Q keeps s h)
  keeps_step s (changes x) h = k.hosts s.world x h

  pub keeps_run : (s : Dispatch host) (cs : List (Call H)) → Q s.world → Q (run host s cs).world
  unfolding run
  keeps_run s [] h = h
  keeps_run s (c ∷ cs) h = keeps_run (step host s c) cs (keeps_step s c h)
