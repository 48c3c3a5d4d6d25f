-- ===== src/HostContract.antt =====
-- host_desktop_contract.py: the errors and argument checks that the physical-desktop helper shares.
pub mod Authority
pub mod Credit
mod Examples
use floe_native_apps.Prelude.{
  ℕ, Bool, true, false, not, ◌&&◌, Option, none, some, List, leb, if◌then◌else◌, length,
}
use floe_native_apps.Python.Int.{pos}
use floe_native_apps.Python.Text.{encode, has_nul}
use floe_native_apps.Python.Value.{Value, int, text}

-- The code of a `DesktopError`.
pub data ErrorCode : Type 0 where
  invalid_argument native_resolution_unsupported stale_desktop invalid_frame view_only : ErrorCode

-- 2 ** 53 - 1, the largest integer that a peer's numbers hold exactly.
abbrev pub max_safe : ℕ
max_safe = 9007199254740991

-- `integer(value, low, high)`: the number itself where the check passes.
unfoldable pub integer : Value → ℕ → ℕ → Option ℕ
integer (int (pos n)) low high = if leb low n && leb n high then some n else none
integer _ low high = none

abbrev encoded_within : Option (List ℕ) → ℕ → Bool
encoded_within none maximum = false
encoded_within (some bytes) maximum = leb (length bytes) maximum

-- `text_value(value, maximum)`: a text with no NUL whose encoding has at most `maximum` bytes.
unfoldable pub text_value : Value → ℕ → Bool
text_value (text t) maximum = not (has_nul t) && encoded_within (encode t) maximum
text_value _ maximum = false
