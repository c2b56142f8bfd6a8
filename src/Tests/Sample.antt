-- ===== src/Tests/Sample.antt =====
-- Whole numbers in place of `float`, to run the model with: it has no fractions, no NaN and no
-- rounding, reads decimal digits and writes four zeros behind the point.
use pypilot_cxx.Prelude.{
  true, ℕ, suc, ◌+◌, ◌-◌, ◌*◌, ◌/◌, ◌%◌, ◌^◌, Bool, false, not, ◌&&◌, ◌||◌, Option, none, some, [],
  ◌∷◌, leb, ◌==◌, if◌then◌else◌, replicate,
}
use pypilot_cxx.Prelude.Text.{Text, codes}
use pypilot_cxx.Prelude.Int.{ℤ, pos, negsuc}
use pypilot_cxx.Float.{Float}
use pypilot_cxx.DataModel.{initial}
use pypilot_cxx.Values.Fields.{FieldId, server_running, ap_heading, field_count}
use pypilot_cxx.Values.Access.{Watch, ValueRegistry, max_watches}

-- a - b, as an integer.
abbrev sub_ℕ : ℕ → ℕ → ℤ
sub_ℕ a b = if leb b a then pos (a - b) else negsuc (b - a - 1)

abbrev pos_part : ℤ → ℕ
pos_part (pos n) = n
pos_part (negsuc n) = 0

abbrev neg_part : ℤ → ℕ
neg_part (pos n) = 0
neg_part (negsuc n) = suc n

abbrev negate : ℤ → ℤ
negate a = sub_ℕ (neg_part a) (pos_part a)

abbrev add_ℤ : ℤ → ℤ → ℤ
add_ℤ a b = sub_ℕ (pos_part a + pos_part b) (neg_part a + neg_part b)

abbrev mul_ℤ : ℤ → ℤ → ℤ
mul_ℤ a b =
    sub_ℕ (pos_part a * pos_part b + neg_part a * neg_part b)
      (pos_part a * neg_part b + neg_part a * pos_part b)

-- Rounded towards zero; 0 for a division by 0.
abbrev div_ℤ : ℤ → ℤ → ℤ
div_ℤ a b =
    let q = (pos_part a + neg_part a) / (pos_part b + neg_part b) in
    if (neg_part a == 0 && neg_part b == 0) || (pos_part a == 0 && pos_part b == 0)
    then pos q
    else sub_ℕ 0 q

abbrev le_ℤ : ℤ → ℤ → Bool
le_ℤ a b = leb (pos_part a + neg_part b) (pos_part b + neg_part a)

abbrev digits_value : Text → ℕ → Option ℕ
digits_value [] acc = some acc
digits_value (c ∷ s) acc =
    let rest = digits_value s (acc * 10 + (c - b'0')) in
    if leb b'0' c && leb c b'9' then rest else none

abbrev parse_digits : Text → Option ℤ
parse_digits [] = none
parse_digits (c ∷ s) = elim (digits_value (c ∷ s) 0) [ none ↦ none | some n ↦ some (pos n) ]

instance abbrev pub whole_numbers : Float ℤ
whole_numbers = record {
  ratio = λ n d. pos (n / d);
  of_nat = pos;
  quiet_nan = pos 0;
  add = add_ℤ;
  sub = λ a b. add_ℤ a (negate b);
  mul = mul_ℤ;
  div = div_ℤ;
  fmod = λ a b. add_ℤ a (negate (mul_ℤ (div_ℤ a b) b));
  neg = negate;
  fabs = λ a. pos (pos_part a + neg_part a);
  round = λ a. a;
  lt = λ a b. not (le_ℤ b a);
  le = le_ℤ;
  eq = λ a b. le_ℤ a b && le_ℤ b a;
  is_nan = λ a. false;
  to_u16 = λ a. pos_part a % 2 ^ 16;
  to_u64 = λ a. pos_part a % 2 ^ 64;
  strtof = parse_digits;
  fixed4 = λ a. codes "0.0000";
  fixed6 = λ a. codes "0.000000";
  behind = λ n. replicate n 0;
}

abbrev pub watch_at : Bool → FieldId → ℕ → ℕ → Watch ℤ
watch_at active id seconds due = record {
  active = active;
  id = id;
  period_seconds = pos seconds;
  next_due_us = due;
}

-- A registry with one watch of `ap.heading`, every two seconds.
abbrev pub registry : ValueRegistry ℤ
registry = record {
  attached = true;
  state = initial;
  watches =
      watch_at true ap_heading 2 100
      ∷ replicate (max_watches - 1) (watch_at false server_running 0 0);
  dirty = replicate field_count false;
}
