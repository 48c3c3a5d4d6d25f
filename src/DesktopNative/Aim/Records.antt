-- ===== src/DesktopNative/Aim/Records.antt =====
-- Every record that is observed keeps the aim.
use floe_native_apps.Prelude.{
  ℕ, ◌≤◌, ◌≡◌, refl, subst, true, false, Option, none, some, some-injective, List, [], ◌∷◌, nat_key,
  arith, Bool-cases, inl, inr,
}
use floe_native_apps.Prelude.Options.{◌>>=◌}
use floe_native_apps.Python.Text.{Text}
use floe_native_apps.DesktopClipboard.{max_id}
use floe_native_apps.DesktopNative.{NativeWindow, Desktop, Outcome}
use floe_native_apps.DesktopNative.Records.{natural, on_fields}
use floe_native_apps.DesktopNative.Records.Windows.{
  window_instance, window_title, surface_instance, surface_retired, focus, window_state, window_x11,
  window_retired, scene,
}
use floe_native_apps.Python.Number.{int_of_text}
use floe_native_apps.DesktopNative.Fields.{
  protocol_of, pid_of, one, two, context_fields, display_fields, title_fields, focus_fields,
  window_fields, barrier_fields,
}
use floe_native_apps.DesktopNative.Observe.{
  Kind, native_version, clipboard_record, cursor_record, reply, context, context_retired,
  surrounding, display, instance_of, title_of, surface_of, surface_gone, focused, state, binding,
  window_gone, scene_of, scene_barrier, damaged, ignored, Codecs, branch, observe_kind, observe,
  kind_of,
}
use floe_native_apps.DesktopNative.Records.Texts.{
  text_reply, text_context, text_context_retired, native_display, scene_at,
}
use floe_native_apps.DesktopNative.Aim.{
  IsAimed, lost-IsAimed, window_instance-IsAimed, window_title-IsAimed, surface_instance-IsAimed,
  surface_retired-IsAimed, focus-IsAimed, window_state-IsAimed, window_x11-IsAimed,
  window_retired-IsAimed, scene-IsAimed, text_reply-IsAimed, text_context-IsAimed,
  text_context_retired-IsAimed, native_display-IsAimed, scene_at-IsAimed,
}
use floe_native_apps.DesktopNative.Steps.{after_record}

on_fields-IsAimed :
    {A : Type 0} (o : Option A) (f : A → Desktop → Outcome) (s : Desktop)
    → ((a : A) → o ≡ some a → IsAimed (f a s).1)
    → IsAimed s
    → IsAimed (on_fields o f s).1
on_fields-IsAimed none f s k h = h
on_fields-IsAimed (some a) f s k h = k a refl

natural-ge : (low high : ℕ) (t : Text) {n : ℕ} → natural low high t ≡ some n → low ≤ n
natural-ge low high t e = ground arith

>>=-some :
    {A B : Type 0} (o : Option A) (f : A → Option B) {b : B}
    → (o >>= f) ≡ some b
    → (a : A) × (o ≡ some a) × (f a ≡ some b)
>>=-some none f e = cc
>>=-some (some a) f e = (a, refl, e)

window_fields-ge :
    (fields : List Text) {w : NativeWindow} → window_fields fields ≡ some w → 1 ≤ w.window
unfolding window_fields
window_fields-ge [] e = cc
window_fields-ge (a ∷ []) e = cc
window_fields-ge (a ∷ b ∷ []) e = cc
window_fields-ge (a ∷ b ∷ p ∷ []) e = cc
window_fields-ge (a ∷ b ∷ p ∷ c ∷ []) e = cc
window_fields-ge (a ∷ b ∷ p ∷ c ∷ d ∷ []) e = cc
window_fields-ge (a ∷ b ∷ p ∷ c ∷ d ∷ x ∷ []) e = cc
window_fields-ge (a ∷ b ∷ p ∷ c ∷ d ∷ x ∷ y ∷ z ∷ zs) e = cc
window_fields-ge (a ∷ b ∷ p ∷ c ∷ d ∷ x ∷ y ∷ []) e =
    let i = >>=-some (natural 1 max_id a) _ e in
    let j = >>=-some (natural 0 max_id b) _ i.2 in
    let k = >>=-some (protocol_of p) _ j.2 in
    let l = >>=-some (pid_of (int_of_text c)) _ k.2 in
    let m = >>=-some (natural 1 65536 d) _ l.2 in
    let n = >>=-some (natural 1 65536 x) _ m.2 in
    let o = >>=-some (natural 0 8 y) _ n.2 in
    subst (λ w. 1 ≤ w.window) (some-injective _ _ o.2) (natural-ge 1 max_id a i.1)

module _ (codecs : Codecs) where
  branch-IsAimed :
      (k : Kind) (name : Text) (fields : List Text) (s : Desktop)
      → s.closed ≡ false
      → IsAimed s
      → IsAimed (branch codecs k name fields s).1
  unfolding branch
  branch-IsAimed native_version name fields s c h = h
  branch-IsAimed clipboard_record name fields s c h = record {
    aims = h.aims;
    shut = h.shut;
    nonzero = h.nonzero;
  }
  branch-IsAimed cursor_record name fields s c h = record {
    aims = h.aims;
    shut = h.shut;
    nonzero = h.nonzero;
  }
  branch-IsAimed (reply p b) name fields s c h =
      on_fields-IsAimed (one 1 max_id fields) (text_reply p b) s
        (λ x e. text_reply-IsAimed p b x s h) h
  branch-IsAimed context name fields s c h =
      on_fields-IsAimed (context_fields fields) text_context s (λ x e. text_context-IsAimed x s h) h
  branch-IsAimed context_retired name fields s c h =
      on_fields-IsAimed (one 1 max_id fields) text_context_retired s
        (λ x e. text_context_retired-IsAimed x s h) h
  branch-IsAimed display name fields s c h =
      on_fields-IsAimed (display_fields fields) native_display s
        (λ x e. native_display-IsAimed x s h) h
  branch-IsAimed instance_of name fields s c h =
      on_fields-IsAimed (one 1 max_id fields) window_instance s
        (λ x e. window_instance-IsAimed x s h) h
  branch-IsAimed title_of name fields s c h =
      on_fields-IsAimed (title_fields codecs.replaced fields) window_title s
        (λ x e. window_title-IsAimed x s h) h
  branch-IsAimed surface_of name fields s c h =
      on_fields-IsAimed (one 1 max_id fields) surface_instance s
        (λ x e. surface_instance-IsAimed x s h) h
  branch-IsAimed surface_gone name fields s c h =
      on_fields-IsAimed (one 1 max_id fields) surface_retired s
        (λ x e. surface_retired-IsAimed x s h) h
  branch-IsAimed focused name fields s c h =
      on_fields-IsAimed (focus_fields fields) focus s (λ x e. focus-IsAimed x s h) h
  branch-IsAimed binding name fields s c h =
      on_fields-IsAimed (two 1 1 0xffffffff fields) window_x11 s (λ x e. window_x11-IsAimed x s h) h
  branch-IsAimed window_gone name fields s c h =
      on_fields-IsAimed (one 1 max_id fields) window_retired s (λ x e. window_retired-IsAimed x s h)
        h
  branch-IsAimed scene_barrier name fields s c h =
      on_fields-IsAimed (barrier_fields fields) scene_at s (λ x e. scene_at-IsAimed x s h) h
  branch-IsAimed state name fields s c h =
      on_fields-IsAimed (window_fields fields) window_state s
        (λ x e. window_state-IsAimed x s (window_fields-ge fields e) h) h
  branch-IsAimed scene_of name fields s c h =
      on_fields-IsAimed (two 1 0 max_id fields) scene s (λ x e. scene-IsAimed x s c h) h
  branch-IsAimed surrounding name fields s c h = ground arith
  branch-IsAimed damaged name fields s c h = ground arith
  branch-IsAimed ignored name fields s c h = h

  observe_kind-IsAimed :
      (o : Option Kind) (name : Text) (fields : List Text) (s : Desktop)
      → s.closed ≡ false
      → IsAimed s
      → IsAimed (observe_kind codecs o name fields s).1
  unfolding observe_kind
  observe_kind-IsAimed none name fields s c h = h
  observe_kind-IsAimed (some native_version) name [] s c h = h
  observe_kind-IsAimed (some native_version) name (v ∷ []) s c h = ground arith
  observe_kind-IsAimed (some native_version) name (v ∷ w ∷ ws) s c h = h
  observe_kind-IsAimed (some k) name fields s c h =
      ground (arith, branch-IsAimed k name fields s c h)

  pub observe-IsAimed :
      (fields : List Text) (s : Desktop) → IsAimed s → IsAimed (observe codecs fields s).1
  unfolding observe
  observe-IsAimed [] s h = ground arith
  observe-IsAimed (name ∷ fields) s h = elim (Bool-cases s.closed) [
    | inl c ↦ simp c h
    | inr c ↦ simp c (observe_kind-IsAimed (kind_of name) name fields s c h)
  ]

  pub after_record-IsAimed : (o : Outcome) → IsAimed o.1 → IsAimed (after_record o)
  after_record-IsAimed (true, s, events) h = lost-IsAimed s h
  after_record-IsAimed (false, s, events) h = h
