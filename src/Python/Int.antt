-- ===== src/Python/Int.antt =====
-- Python's unbounded integers.
use floe_native_apps.Prelude.{ℕ}

-- `negsuc n` is -(n + 1).
pub data ℤ : Type 0 where
  pos : ℕ → ℤ
  negsuc : ℕ → ℤ
