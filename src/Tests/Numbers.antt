-- ===== src/Tests/Numbers.antt =====
-- Concrete numbers for the parameters: whole numbers written with strokes stand for floating point
-- ones, and a quantity is a number.
use Prim.Native.String.{String}
use fadvisor.Prelude.{
  ℤ, pos, negsuc, ℕ, zero, suc, ◌+◌, ◌*◌, ◌/◌, ◌^◌, ◌≡◌, ◌≢◌, refl, ap, true, false, ◌==◌,
}
use fadvisor.Float.{Float}
use fadvisor.Kube.{Quantity}
use fadvisor.Qcloud.Breakdown.Prices.{ReadsBack}
use fadvisor.Qcloud.Serverless.Laws.{Readable}

abbrev pub strokes : ℕ → String
strokes zero = "0"
strokes (suc n) = String.◌∷◌ "I" (strokes n)

abbrev pub count_strokes : String → ℕ
count_strokes String.[] = 0
count_strokes (String.◌∷◌ c s) = elim s [ String.[] ↦ 0 | String.◌∷◌ d t ↦ suc (count_strokes s) ]

instance unfoldable pub strokes_float : Float ℕ
strokes_float = record {
  add = ◌+◌;
  mul = ◌*◌;
  div = λ x y. x / y;
  of_int = λ n. n;
  decimal = λ m k. m / 10 ^ k;
  is_nan = λ x. false;
  is_inf = λ x. false;
  to_int = pos;
  is_zero = λ x. x == 0;
  show_v = strokes;
  show_f = strokes;
  show_5f = strokes;
  parse = count_strokes;
  parses = λ s. true;
}

abbrev size : ℤ → ℕ
size (pos n) = n
size (negsuc n) = suc n

instance unfoldable pub nat_quantity : Quantity ℕ
nat_quantity = record {
  no_quantity = 0;
  value = λ n. n;
  milli_value = λ n. n * 1000;
  show = strokes;
  plus = ◌+◌;
  of_value = size;
  of_milli = λ n. size n / 1000;
}

strokes_ne : (x : ℕ) → strokes x ≢ ""
strokes_ne zero e = cc
strokes_ne (suc x) e = cc

count_strokes-strokes : (x : ℕ) → count_strokes (strokes x) ≡ x
count_strokes-strokes zero = refl
count_strokes-strokes (suc zero) = refl
count_strokes-strokes (suc (suc x)) = ap suc (count_strokes-strokes (suc x))

pub strokes_float-ReadsBack : ReadsBack strokes_float
unfolding strokes_float
strokes_float-ReadsBack = record {
  show_v_ne = strokes_ne;
  parses-show_v = λ x. refl;
  parse-show_v = count_strokes-strokes;
}

pub strokes_float-Readable : Readable strokes_float
unfolding strokes_float
strokes_float-Readable = record { show_f_ne = strokes_ne; parses-show_f = λ x. refl }
