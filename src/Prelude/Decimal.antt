-- ===== src/Prelude/Decimal.antt =====
-- Decimal notation of an `int64` that is not negative, as `fmt` writes and `strconv` reads it, and
-- `strings.Split` at a dash.
use Prim.Native.Char.{Char, code}
use Prim.Native.String.{String, ◌++◌}
use Prim.Native.String.append
use Prim.Native.Nat.{ℕ, zero, suc, ◌+◌, ◌-◌, ◌*◌, ◌/◌, ◌%◌, ◌^◌, ◌≤◌, ◌<◌}
use mathlib.Core.Path.{◌≡◌, refl}
use mathlib.Core.Bool.{Bool, true, false, ◌&&◌}
use mathlib.Core.Logic.{inl, inr}
use mathlib.Core.Option.{Option, none, some}
use mathlib.Core.List.{List, [], ◌∷◌}
use native.Mathlib.Nat.{pow-suc}
use native.Mathlib.Omega.{arith}
use fadvisor.Prelude.Tests.{ltb, leb, ◌==◌, if◌then◌else◌, ltb→lt, Bool-cases}

abbrev digit : ℕ → Char
digit zero = "0"
digit (suc zero) = "1"
digit (suc (suc zero)) = "2"
digit (suc (suc (suc zero))) = "3"
digit (suc (suc (suc (suc zero)))) = "4"
digit (suc (suc (suc (suc (suc zero))))) = "5"
digit (suc (suc (suc (suc (suc (suc zero)))))) = "6"
digit (suc (suc (suc (suc (suc (suc (suc zero))))))) = "7"
digit (suc (suc (suc (suc (suc (suc (suc (suc zero)))))))) = "8"
digit n = "9"

-- The digits of `n`, in front of those that are there already.
unfoldable pub show_digits : ℕ → ℕ → String → String
show_digits zero n s = s
show_digits (suc fuel) n s =
    let rest = show_digits fuel (n / 10) (String.◌∷◌ (digit (n % 10)) s) in
    if ltb n 10 then String.◌∷◌ (digit n) s else rest

-- `%v` of an `int` or `int64`, which has 19 digits at most.
unfoldable pub show_int : ℕ → String
show_int n = show_digits 19 n ""

unfoldable pub read_digits : String → ℕ → Option ℕ
read_digits String.[] n = some n
read_digits (String.◌∷◌ c s) n =
    let rest = read_digits s (n * 10 + (code c - b'0')) in
    if leb b'0' (code c) && leb (code c) b'9' then rest else none

-- The value that `ParseInt` gives back for digits: 0 beside a syntax error, the greatest `int64`
-- beside a range error.
unfoldable pub parse_digits : String → ℕ
parse_digits String.[] = 0
parse_digits (String.◌∷◌ c s) = elim (read_digits (String.◌∷◌ c s) 0) [
  | none ↦ 0
  | some n ↦ if ltb n (2 ^ 63) then n else 2 ^ 63 - 1
]

-- `strconv.ParseInt(s, 10, 64)` of a text without a dash; its first result.
unfoldable pub parse_int : String → ℕ
parse_int String.[] = 0
parse_int (String.◌∷◌ c s) =
    if code c == b'+' then parse_digits s else parse_digits (String.◌∷◌ c s)

-- `strings.Split(s, "-")`: the first piece, and the others.
unfoldable pub split : String → String × List String
split String.[] = ("", [])
split (String.◌∷◌ c s) =
    let rest = split s in
    if code c == b'-' then ("", rest.0 ∷ rest.1) else (String.◌∷◌ c rest.0, rest.1)

-- No character is a dash.
abbrev pub IsPiece : String → Type 0
IsPiece String.[] = Unit
IsPiece (String.◌∷◌ c s) = ((code c == b'-') ≡ false) × IsPiece s

code-digit : (n : ℕ) → n < 10 → code (digit n) ≡ 48 + n
code-digit zero h = refl
code-digit (suc zero) h = refl
code-digit (suc (suc zero)) h = refl
code-digit (suc (suc (suc zero))) h = refl
code-digit (suc (suc (suc (suc zero)))) h = refl
code-digit (suc (suc (suc (suc (suc zero))))) h = refl
code-digit (suc (suc (suc (suc (suc (suc zero)))))) h = refl
code-digit (suc (suc (suc (suc (suc (suc (suc zero))))))) h = refl
code-digit (suc (suc (suc (suc (suc (suc (suc (suc zero)))))))) h = refl
code-digit (suc (suc (suc (suc (suc (suc (suc (suc (suc zero))))))))) h = refl
code-digit (suc (suc (suc (suc (suc (suc (suc (suc (suc (suc n)))))))))) h = absurd (omega arith)

show_digits-IsPiece : (fuel n : ℕ) (s : String) → IsPiece s → IsPiece (show_digits fuel n s)
unfolding show_digits
show_digits-IsPiece zero n s h = h
show_digits-IsPiece (suc fuel) n s h = ground (
  arith,
  code-digit n,
  code-digit (n % 10) (omega arith),
  show_digits-IsPiece fuel (n / 10) (String.◌∷◌ (digit (n % 10)) s),
)

pub show_int-IsPiece : (n : ℕ) → IsPiece (show_int n)
unfolding show_int
show_int-IsPiece n = show_digits-IsPiece 19 n "" tt

read_digits-digit :
    (n v : ℕ) (s : String)
    → n < 10
    → read_digits (String.◌∷◌ (digit n) s) v ≡ read_digits s (v * 10 + n)
unfolding read_digits
read_digits-digit n v s h = ground (arith, code-digit n h)

zero_mul_add : (n : ℕ) → 0 * 10 + n ≡ n
zero_mul_add n = omega arith

div_mod : (n : ℕ) → n / 10 * 10 + n % 10 ≡ n
div_mod n = omega arith

not_small : (n : ℕ) → ltb n 10 ≡ false → 10 ≤ n
not_small n h = ground arith

pow_step : (fuel : ℕ) → 10 ^ suc fuel ≡ 10 ^ fuel * 10
pow_step fuel = pow-suc 10 fuel

fits : (fuel n : ℕ) → n < 10 ^ suc fuel → n / 10 < 10 ^ fuel
fits fuel n h = omega (arith, pow_step fuel)

positive : (fuel n : ℕ) → n < 10 ^ suc fuel → 10 ≤ n → 0 < fuel
positive zero n h le = absurd (omega arith)
positive (suc fuel) n h le = omega arith

read_digits-show_digits :
    (fuel n : ℕ) (s : String)
    → n < 10 ^ fuel
    → 0 < fuel
    → read_digits (show_digits fuel n s) 0 ≡ read_digits s n
unfolding show_digits
read_digits-show_digits zero n s h p = absurd (omega arith)
read_digits-show_digits (suc fuel) n s h p = elim (Bool-cases (ltb n 10)) [
  | inl small ↦
      let last = read_digits-digit n 0 s (ltb→lt n 10 small) in rw (small, last, zero_mul_add n)
  | inr large ↦
      let first : read_digits (show_digits fuel (n / 10) (String.◌∷◌ (digit (n % 10)) s)) 0
          ≡ read_digits (String.◌∷◌ (digit (n % 10)) s) (n / 10) =
        read_digits-show_digits fuel (n / 10) (String.◌∷◌ (digit (n % 10)) s) (fits fuel n h)
          (positive fuel n h (not_small n large)) in
      rw (large, first, read_digits-digit (n % 10) (n / 10) s (omega arith), div_mod n)
]

-- The first character is a digit.
abbrev BeginsWithDigit : String → Type 0
BeginsWithDigit String.[] = ⊥
BeginsWithDigit (String.◌∷◌ c s) = (48 ≤ code c) × (code c ≤ 57)

digit-BeginsWithDigit : (n : ℕ) (s : String) → n < 10 → BeginsWithDigit (String.◌∷◌ (digit n) s)
digit-BeginsWithDigit n s h = (omega (arith, code-digit n h), omega (arith, code-digit n h))

show_digits-BeginsWithDigit :
    (fuel n : ℕ) (s : String) → BeginsWithDigit s → BeginsWithDigit (show_digits fuel n s)
unfolding show_digits
show_digits-BeginsWithDigit zero n s h = h
show_digits-BeginsWithDigit (suc fuel) n s h = elim (Bool-cases (ltb n 10)) [
  | inl small ↦ rw small (digit-BeginsWithDigit n s (ltb→lt n 10 small))
  | inr large ↦
      let next = digit-BeginsWithDigit (n % 10) s (omega arith) in
      rw large (show_digits-BeginsWithDigit fuel (n / 10) (String.◌∷◌ (digit (n % 10)) s) next)
]

show_int-BeginsWithDigit : (n : ℕ) → BeginsWithDigit (show_int n)
unfolding show_int show_digits
show_int-BeginsWithDigit n = elim (Bool-cases (ltb n 10)) [
  | inl small ↦ rw small (digit-BeginsWithDigit n "" (ltb→lt n 10 small))
  | inr large ↦
      let next = digit-BeginsWithDigit (n % 10) "" (omega arith) in
      rw large (show_digits-BeginsWithDigit 18 (n / 10) (String.◌∷◌ (digit (n % 10)) "") next)
]

parse_int-digits :
    (s : String) (n : ℕ)
    → BeginsWithDigit s
    → read_digits s 0 ≡ some n
    → n < 2 ^ 63
    → parse_int s ≡ n
unfolding parse_int parse_digits
parse_int-digits String.[] n b e h = absurd b
parse_int-digits (String.◌∷◌ c s) n b e h = ground arith

pub parse_int-show_int : (n : ℕ) → n < 2 ^ 63 → parse_int (show_int n) ≡ n
unfolding show_int read_digits
parse_int-show_int n h =
    parse_int-digits (show_int n) n (show_int-BeginsWithDigit n)
      (read_digits-show_digits 19 n "" (omega arith) (omega arith)) h

pub split-IsPiece : (a : String) → IsPiece a → split a ≡ (a, [])
unfolding split
split-IsPiece String.[] h = refl
split-IsPiece (String.◌∷◌ c a) h = rw (h.0, split-IsPiece a h.1)

pub split-append :
    (a s : String) → IsPiece a → split (a ++ ("-" ++ s)) ≡ (a, (split s).0 ∷ (split s).1)
unfolding split
split-append String.[] s h = rw (append.nil ("-" ++ s), append.cons "-" "" s, append.nil s)
split-append (String.◌∷◌ c a) s h = rw (append.cons c a ("-" ++ s), h.0, split-append a s h.1)

abbrev pub is_piece : String → Bool
is_piece String.[] = true
is_piece (String.◌∷◌ c s) = if code c == b'-' then false else is_piece s

pub is_piece-IsPiece : (s : String) → is_piece s ≡ true → IsPiece s
is_piece-IsPiece String.[] e = tt
is_piece-IsPiece (String.◌∷◌ c s) e = ground (arith, is_piece-IsPiece s)
