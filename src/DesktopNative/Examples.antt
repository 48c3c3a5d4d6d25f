-- ===== src/DesktopNative/Examples.antt =====
-- The theorems on the native channel at one window, its surface, its focus and its scene, and on a
-- channel that reads two lines and is closed by a record that is too long.
use floe_native_apps.Prelude.{
  if◌then◌else◌, arith, ℕ, true, false, some, List, [], ◌∷◌, ◌≡◌, refl, ◌+◌, get, put,
}
use floe_native_apps.Python.Text.{codes, text_eq}
use floe_native_apps.Python.Number.{int_of_text}
use floe_native_apps.DesktopClipboard.{Target}
use floe_native_apps.DesktopControl.Reader.{Bytes}
use floe_native_apps.DesktopNative.{new, key, changed}
use floe_native_apps.DesktopNative.Observe.{Codecs, observe, observe_kind, kind_of, branch}
use floe_native_apps.DesktopNative.Fields.{one, two, focus_fields, window_fields}
use floe_native_apps.DesktopNative.Records.Windows.{
  window_instance, surface_instance, focus, window_state, scene,
}
use floe_native_apps.DesktopNative.Requests.{bind, submit}
use floe_native_apps.DesktopNative.Steps.{Call, observes, binds, step, run}
use floe_native_apps.DesktopNative.Aim.{IsAimed}
use floe_native_apps.DesktopNative.Aim.Run.{run-IsAimed}
use floe_native_apps.DesktopNative.Aim.Submit.{IsOpen, submit-run}
use floe_native_apps.DesktopNative.Channel as Channel
use floe_native_apps.DesktopNative.Channel.{
  takes, read, line, loop, index, Script, sends, ends, raises, returns, play, send,
}
use floe_native_apps.DesktopNative.Channel.Bounds as Bounds
use floe_native_apps.DesktopNative.Channel.Flush.{IsFlushed, writes, writes-IsFlushed}

abbrev codecs : Codecs
codecs = record {
  library = record { crc32 = λ bytes. 0; compress = λ bytes. bytes; is_hotspot = λ t n. true };
  decode = λ bytes. some bytes;
  replaced = λ bytes. bytes;
}

abbrev calls : List Call
calls =
    observes (codes "native-version" ∷ codes "1" ∷ [])
    ∷ binds 4 true
    ∷ observes (codes "window-instance" ∷ codes "7" ∷ [])
    ∷ observes (
        codes "window-state"
        ∷ codes "7"
        ∷ codes "0"
        ∷ codes "wayland"
        ∷ codes "100"
        ∷ codes "640"
        ∷ codes "480"
        ∷ codes "0"
        ∷ [])
    ∷ observes (codes "surface-instance" ∷ codes "3" ∷ [])
    ∷ observes (codes "focus" ∷ codes "3" ∷ codes "7" ∷ codes "100" ∷ codes "9" ∷ codes "1" ∷ [])
    ∷ observes (codes "scene" ∷ codes "1" ∷ codes "7" ∷ [])
    ∷ []

abbrev target : Target
target = record { id = 0; window = 7; generation = 1 }

run-IsAimed_example : IsAimed (run codecs new calls)
run-IsAimed_example = run-IsAimed codecs calls

accepted : (submit 4 target (key 30 true ∷ []) true (run codecs new calls)).0 ≡ false
unfolding submit run step new observe text_eq observe_kind kind_of branch int_of_text one two
    focus_fields window_fields window_instance surface_instance focus window_state scene bind
    changed get put
accepted = refl

submit-run_example : (u : Target) × IsOpen 4 0 (run codecs new calls) u
submit-run_example = submit-run codecs calls 4 target (key 30 true ∷ []) true accepted

-- What is observed of a line: it counts the lines, and answers each with a line.
abbrev counting : Bytes → ℕ → Script ℕ
counting bytes n =
    sends (120 ∷ 10 ∷ []) (λ raised. ends (n + 1) (if raised then raises else returns))

abbrev reads_and_writes : List Bounds.Call
reads_and_writes =
    Bounds.reads (97 ∷ 10 ∷ 98 ∷ 10 ∷ 99 ∷ [])
    ∷ Bounds.sends (100 ∷ 10 ∷ [])
    ∷ Bounds.writes (takes 1)
    ∷ Bounds.reads []
    ∷ []

-- Both lines are observed, and the rest is kept.
lines_observed : (read counting (97 ∷ 10 ∷ 98 ∷ 10 ∷ 99 ∷ []) (Channel.new 0)).world ≡ 2
unfolding read loop line index Channel.new play send
lines_observed = refl

abbrev waiting : Channel.Channel ℕ
waiting = record {
  input = [];
  output = 97 ∷ 10 ∷ [];
  closed = false;
  reports = 0;
  escaped = false;
  world = 0;
}

writes-IsFlushed_example : IsFlushed waiting (writes (1 ∷ 5 ∷ []) waiting)
writes-IsFlushed_example =
    writes-IsFlushed (1 ∷ 5 ∷ []) waiting refl (omega arith, (omega arith, tt)) (omega arith)
