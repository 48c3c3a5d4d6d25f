-- ===== src/DesktopNative/Records/Texts.antt =====
-- The records of text requests, text contexts, barriers, and the replies to queries.
use floe_native_apps.Prelude.{
  ℕ, max, Bool, true, false, not, ◌&&◌, ◌||◌, Option, none, some, List, [], ◌∷◌, leb, ltb, ◌==◌,
  if◌then◌else◌, length, get, put, remove, nat_key,
}
use floe_native_apps.Python.Text.{Text}
use floe_native_apps.DesktopNative.{
  NativeTextContext, Phase, barrier, text, TextRequest, NativeError, target_unavailable,
  context_unavailable, Desktop, Event, native_changed, text_answered, display_answered,
  scene_answered, Outcome, is_target,
}
use floe_native_apps.DesktopNative.Records.{contains, reject, accept}

abbrev phase_eq : Phase → Phase → Bool
phase_eq barrier barrier = true
phase_eq text text = true
phase_eq _ _ = false

-- The error of a reply: the target of the request comes first.
abbrev reply_error : TextRequest → Bool → Desktop → Option NativeError
reply_error r done s =
    if not (s.epoch == r.epoch) || not (is_target r.target s.target)
    then some target_unavailable
    else if done
    then none
    else some context_unavailable

unfoldable pub reply_in : Option TextRequest → Phase → Bool → ℕ → Desktop → Outcome
reply_in none phase done sequence s = accept s []
reply_in (some r) phase done sequence s =
    if not (r.sequence == sequence)
    then accept s []
    else if not (phase_eq r.phase phase)
    then reject s
    else accept (record s { text_request = none })
        (text_answered r.completed (reply_error r done s) ∷ [])

-- `client-barrier-done` and the like: the phase, whether it is done, and the sequence.
unfoldable pub text_reply : Phase → Bool → ℕ → Desktop → Outcome
unfolding reply_in
text_reply phase done sequence s = reply_in s.text_request phase done sequence s

abbrev contexts_changed : Desktop → List Event
contexts_changed s = if s.has_contexts then native_changed ∷ [] else []

-- Whether the revision of a known context has passed; a new one is refused by its number or the limit.
abbrev is_retired : NativeTextContext → Option NativeTextContext → ℕ → ℕ → Bool
is_retired c none last count = leb c.identity last || leb 64 count
is_retired c (some p) last count = ltb c.revision p.revision

unfoldable pub text_context : NativeTextContext → Desktop → Outcome
text_context c s =
    if is_retired c (get c.identity s.text_contexts) s.last_text_context (length s.text_contexts)
      || (not (c.surface == 0) && not (contains c.surface s.surfaces))
      || (c.enabled && c.surface == 0)
    then reject s
    else accept
        (record s {
          last_text_context = max c.identity s.last_text_context;
          text_contexts = put c.identity c s.text_contexts;
        })
        (contexts_changed s)

unfoldable pub text_context_retired : ℕ → Desktop → Outcome
text_context_retired identity s =
    accept (record s { text_contexts = remove identity s.text_contexts }) (contexts_changed s)

abbrev display_in : Option ℕ → Option Text → Desktop → Outcome
display_in none display s = reject s
display_in (some c) display s =
    accept (record s { display_query = none }) (display_answered c display ∷ [])

unfoldable pub native_display : Option Text → Desktop → Outcome
native_display display s = display_in s.display_query display s

abbrev scene_in : Option ℕ → ℕ → ℕ → ℕ → Desktop → Outcome
scene_in none id generation window s = reject s
scene_in (some c) id generation window s =
    if id == s.query_id
    then accept (record s { query = none }) (scene_answered c window generation ∷ [])
    else reject s

unfoldable pub scene_at : ℕ × ℕ × ℕ → Desktop → Outcome
scene_at (id, generation, window) s = scene_in s.query id generation window s
