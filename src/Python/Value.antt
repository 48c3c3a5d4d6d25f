-- ===== src/Python/Value.antt =====
-- Values as `json.loads` makes them, with Python's `isinstance`, `type` and `==` on them.
use floe_native_apps.Prelude.{ℕ, suc, ◌*◌, ◌<◌, ◌≡◌, arith, Bool, true, false, ◌==◌}
use floe_native_apps.Python.Int.{ℤ, pos}
use floe_native_apps.Python.Text.{Text}

-- `real n d` is the finite float n / (d + 1); `infinite` is what an overflowing literal reads as.
mutual
  pub data Value : Type 0 where
    null : Value
    bool : Bool → Value
    int : ℤ → Value
    real : ℤ → ℕ → Value
    infinite : Bool → Value
    text : Text → Value
    array : Items → Value
    object : Fields → Value

  pub data Items : Type 0 where
    nil : Items
    cons : Value → Items → Items

  pub data Fields : Type 0 where
    end : Fields
    field : Text → Value → Fields → Fields

-- `value == n` for an integer n that is not negative.
abbrev pub eq_nat : Value → ℕ → Bool
eq_nat (int (pos m)) n = m == n
eq_nat (bool true) n = n == 1
eq_nat (bool false) n = n == 0
eq_nat (real (pos m) d) n = m == n * suc d
eq_nat _ n = false

mul-lt : (a b d : ℕ) → a < b → a * suc d < b * suc d
mul-lt a b d h = grind arith

mul-injective : (a b d : ℕ) → a * suc d ≡ b * suc d → a ≡ b
mul-injective a b d h = ground (arith, mul-lt a b d, mul-lt b a d)

-- A value equals one integer at most.
pub eq_nat_unique : (v : Value) (a b : ℕ) → eq_nat v a ≡ true → eq_nat v b ≡ true → a ≡ b
eq_nat_unique (int (pos m)) a b h k = ground arith
eq_nat_unique (bool true) a b h k = ground arith
eq_nat_unique (bool false) a b h k = ground arith
eq_nat_unique (real (pos m) d) a b h k = ground (arith, mul-injective a b d)
eq_nat_unique _ a b h k = cc
