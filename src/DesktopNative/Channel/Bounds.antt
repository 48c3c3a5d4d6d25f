-- ===== src/DesktopNative/Channel/Bounds.antt =====
-- The buffers of the native channel are bounded, and its loss is reported once.
use floe_native_apps.Prelude.{◌||◌, ℕ, ◌≤◌, ◌≡◌, Bool, true, false, ◌||◌, List, [], ◌∷◌, length}
use floe_native_apps.DesktopControl.Reader.{Bytes}
use floe_native_apps.DesktopNative.Channel as Channel
use floe_native_apps.DesktopNative.Channel.{
  max_buffer, max_record, Channel, close, send, Answer, write, Script, read,
}

abbrev pub counted : Bool → ℕ
counted true = 1
counted false = 0

-- What waits to be written is bounded, and `lost` was called once, exactly if the channel is closed.
pub record IsCounted {W : Type 0} (c : Channel W) : Type 0 where
  pub output : length c.output ≤ max_buffer
  pub reported : c.reports ≡ counted c.closed
  pub cleared : c.closed ≡ true → c.input ≡ []

-- The same, with a rest of a line that is no longer than a record, unless an exception of another kind
-- left the lines that follow.
pub record IsBounded {W : Type 0} (c : Channel W) : Type 0 where
  pub counts : IsCounted c
  pub input : c.escaped ≡ false → length c.input ≤ max_record

-- What can happen to a channel.
pub data Call : Type 0 where
  sends reads : Bytes → Call
  writes : Answer → Call
  closes : Call

module _ {W : Type 0} (observed : Bytes → W → Script W) where
  unfoldable pub step : Channel W → Call → Channel W
  step c (sends bytes) = (send bytes c).1
  step c (reads bytes) = read observed bytes c
  step c (writes answer) = write answer c
  step c closes = close c

  unfoldable pub run : Channel W → List Call → Channel W
  unfolding step
  run c [] = c
  run c (call ∷ calls) = run (step c call) calls
