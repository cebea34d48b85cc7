-- ===== src/Float.antt =====
-- What the code does with a `float64`: arithmetic, NaN tests, and the conversions of `fmt` and
-- `strconv`. The type and its operations are parameters; no law of them is assumed unless a theorem
-- says so.
use fadvisor.Prelude.{ℕ, ℤ, Bool, String, if◌then◌else◌}

pub record Float (F : Type 0) : Type 0 where
  pub add : F → F → F
  pub mul : F → F → F
  pub div : F → F → F
  -- `float64(n)`
  pub of_int : ℕ → F
  -- The literal `m` shifted by `k` decimal places.
  pub decimal : ℕ → ℕ → F
  pub is_nan : F → Bool
  pub is_inf : F → Bool
  -- `int64(x)`, whatever it gives for a NaN, an infinity and a number out of range
  pub to_int : F → ℤ
  -- `x == 0`
  pub is_zero : F → Bool
  -- `%v`, `%f` and `%.5f`
  pub show_v : F → String
  pub show_f : F → String
  pub show_5f : F → String
  -- `strconv.ParseFloat`: its first result, and whether its second is nil.
  pub parse : String → F
  pub parses : String → Bool

module _ {F : Type 0} ⦃fl : Float F⦄ where
  open fl use {of_int, is_nan}

  -- `if math.IsNaN(x) { x = 0 }`
  unfoldable pub nan_to_zero : F → F
  nan_to_zero x = if is_nan x then of_int 0 else x
