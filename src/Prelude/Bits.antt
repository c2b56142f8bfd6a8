-- ===== src/Prelude/Bits.antt =====
-- Laws of `|` and `^` on unsigned words, from the recursion on binary digits.
use Prim.Native.Nat.{
  max, min, differ, digits, bitwise, bit_or, bit_xor, bit_or-bitwise, bit_xor-bitwise,
  bit_and-bitwise, ℕ, zero, suc, ◌+◌, ◌-◌, ◌*◌, ◌/◌, ◌%◌, ◌^◌, ◌≤◌, ◌<◌, bit_and,
}
use mathlib.Core.Path.{◌≡◌, refl, sym, ap, ◌∙◌}
use mathlib.Core.Bool.{Bool, true, ◌&&◌}
use native.Mathlib.Decide.{dec_lt}
use native.Mathlib.Nat.{
  le_refl, pow-suc, one-le-pow, mod-lt, mod-eq_of_lt, div-add-mod', add-mul-mod_self_right,
}
use native.Mathlib.Omega.{arith}
use pypilot_cxx.Prelude.Tests.{◌==◌}

nothing_left : (z : ℕ → ℕ) (op : ℕ → ℕ → ℕ) (turns y : ℕ) → digits z op turns zero y ≡ z y
nothing_left z op zero y = refl
nothing_left z op (suc turns) y = refl

-- What is computed with `k` turns to spare is what is computed without them.
spare_turns :
    (z : ℕ → ℕ) (op : ℕ → ℕ → ℕ) (k turns x y : ℕ)
    → x ≤ turns
    → digits z op (k + turns) x y ≡ digits z op turns x y
spare_turns z op zero turns x y h =
    let none_spare : zero + turns ≡ turns = omega arith in
    ap (λ (t : ℕ). digits z op t x y) none_spare
spare_turns z op (suc k) zero zero y h = nothing_left z op (suc k + zero) y
spare_turns z op (suc k) (suc turns) zero y h = nothing_left z op (suc k + suc turns) y
spare_turns z op (suc k) zero (suc x) y h = absurd (omega arith)
spare_turns z op (suc k) (suc turns) (suc x) y h =
    let next : suc k + suc turns ≡ suc (suc k + turns) = omega arith in
    let low = op (suc x % 2) (y % 2) in
    ap (λ (t : ℕ). digits z op t (suc x) y) next
    ∙ ap (λ (t : ℕ). t * 2 + low) (spare_turns z op (suc k) turns (suc x / 2) (y / 2) (omega arith))

-- The recursion on the digits of a positive number, one digit at a time.
last_digit :
    (z : ℕ → ℕ) (op : ℕ → ℕ → ℕ) (x y : ℕ)
    → bitwise z op (suc x) y ≡ op (suc x % 2) (y % 2) + 2 * bitwise z op (suc x / 2) (y / 2)
last_digit z op x y =
    let half = suc x / 2 in
    let total : (x - half) + half ≡ x = omega arith in
    let same =
      ap (λ (t : ℕ). digits z op t half (y / 2)) (sym total)
      ∙ spare_turns z op (x - half) half half (y / 2) (le_refl half) in
    omega (arith, same)

-- Exclusive or of two binary digits, as arithmetic.
abbrev xor_digit : ℕ → ℕ → ℕ
xor_digit a b = (a + b) % 2

xor_digit-differ : (a b : ℕ) → a < 2 → b < 2 → differ a b ≡ xor_digit a b
xor_digit-differ zero b p q = omega arith
xor_digit-differ (suc zero) zero p q = refl
xor_digit-differ (suc zero) (suc zero) p q = refl
xor_digit-differ (suc zero) (suc (suc b)) p q = absurd (omega arith)
xor_digit-differ (suc (suc a)) b p q = absurd (omega arith)

or_halves : (x y : ℕ) → bit_or x y ≡ max (x % 2) (y % 2) + 2 * bit_or (x / 2) (y / 2)
or_halves zero y = simp bit_or-bitwise (omega arith)
or_halves (suc x) y = simp bit_or-bitwise (last_digit (λ rest. rest) max x y)

xor_halves : (x y : ℕ) → bit_xor x y ≡ xor_digit (x % 2) (y % 2) + 2 * bit_xor (x / 2) (y / 2)
xor_halves zero y = simp bit_xor-bitwise (omega arith)
xor_halves (suc x) y = simp bit_xor-bitwise (
    last_digit (λ rest. rest) differ x y
    ∙ ap (λ (t : ℕ). t + 2 * bitwise (λ rest. rest) differ (suc x / 2) (y / 2))
        (xor_digit-differ (suc x % 2) (y % 2) (omega arith) (omega arith)))

-- Each law below goes from the halves to the numbers; `k` bounds the numbers.
xor_cancel_below : (k a b : ℕ) → a + b ≤ k → bit_xor (bit_xor a b) b ≡ a
xor_cancel_below zero a b h =
    let p : a ≡ 0 = omega arith in let q : b ≡ 0 = omega arith in rw (p, q)
xor_cancel_below (suc k) a b h = elim (dec_lt 0 (a + b)) [
  | no n ↦ xor_cancel_below k a b (omega arith)
  | yes p ↦
      let s = xor_halves a b in
      let half : bit_xor a b / 2 ≡ bit_xor (a / 2) (b / 2) = omega arith in
      omega (
        arith,
        xor_halves (bit_xor a b) b,
        ap (λ (t : ℕ). bit_xor t (b / 2)) half,
        xor_cancel_below k (a / 2) (b / 2) (omega arith),
      )
]

-- `(a ^ b) ^ b` is `a`.
pub xor_cancel : (a b : ℕ) → bit_xor (bit_xor a b) b ≡ a
xor_cancel a b = xor_cancel_below (a + b) a b (omega arith)

-- `^` stays within a width.
pub xor_lt : (k a b : ℕ) → a < 2 ^ k → b < 2 ^ k → bit_xor a b < 2 ^ k
xor_lt zero a b p q =
    let z : a ≡ 0 = omega arith in let y : b ≡ 0 = omega arith in rw (z, y) (omega arith)
xor_lt (suc k) a b p q =
    let e = pow-suc 2 k in
    omega (arith, xor_halves a b, xor_lt k (a / 2) (b / 2) (omega arith) (omega arith))

xor_comm_below : (k a b : ℕ) → a + b ≤ k → bit_xor a b ≡ bit_xor b a
xor_comm_below zero a b h = let p : a ≡ 0 = omega arith in let q : b ≡ 0 = omega arith in rw (p, q)
xor_comm_below (suc k) a b h = elim (dec_lt 0 (a + b)) [
  | no n ↦ xor_comm_below k a b (omega arith)
  | yes p ↦
      omega (arith, xor_halves a b, xor_halves b a, xor_comm_below k (a / 2) (b / 2) (omega arith))
]

pub xor_comm : (a b : ℕ) → bit_xor a b ≡ bit_xor b a
xor_comm a b = xor_comm_below (a + b) a b (omega arith)

pub xor_injective_left : (a b c : ℕ) → bit_xor a c ≡ bit_xor b c → a ≡ b
xor_injective_left a b c e = sym (xor_cancel a c) ∙ ap (λ (t : ℕ). bit_xor t c) e ∙ xor_cancel b c

pub xor_injective_right : (a b c : ℕ) → bit_xor c a ≡ bit_xor c b → a ≡ b
xor_injective_right a b c e = xor_injective_left a b c (xor_comm a c ∙ e ∙ xor_comm c b)

or_assoc_below : (k a b c : ℕ) → a + b + c ≤ k → bit_or (bit_or a b) c ≡ bit_or a (bit_or b c)
or_assoc_below zero a b c h =
    let p : a ≡ 0 = omega arith in
    let q : b ≡ 0 = omega arith in let r : c ≡ 0 = omega arith in rw (p, q, r)
or_assoc_below (suc k) a b c h = elim (dec_lt 0 (a + b + c)) [
  | no n ↦ or_assoc_below k a b c (omega arith)
  | yes p ↦
      let s = or_halves a b in
      let t = or_halves b c in
      let left : bit_or a b / 2 ≡ bit_or (a / 2) (b / 2) = omega arith in
      let right : bit_or b c / 2 ≡ bit_or (b / 2) (c / 2) = omega arith in
      omega (
        arith,
        or_halves (bit_or a b) c,
        or_halves a (bit_or b c),
        ap (λ (u : ℕ). bit_or u (c / 2)) left,
        ap (λ (u : ℕ). bit_or (a / 2) u) right,
        or_assoc_below k (a / 2) (b / 2) (c / 2) (omega arith),
      )
]

-- `|` is associative, and 0 is neutral.
pub or_assoc : (a b c : ℕ) → bit_or (bit_or a b) c ≡ bit_or a (bit_or b c)
or_assoc a b c = or_assoc_below (a + b + c) a b c (omega arith)

pub zero-or : (a : ℕ) → bit_or 0 a ≡ a
zero-or a = simp bit_or-bitwise

or-zero_below : (k a : ℕ) → a ≤ k → bit_or a 0 ≡ a
or-zero_below k zero h = refl
or-zero_below zero (suc a) h = absurd (omega arith)
or-zero_below (suc k) (suc a) h =
    omega (arith, or_halves (suc a) 0, or-zero_below k (suc a / 2) (omega arith))

pub or-zero : (a : ℕ) → bit_or a 0 ≡ a
or-zero a = or-zero_below a a (le_refl a)

-- `r | (q << k)` is a sum when `r` fits `k` bits.
pub or_fields : (k q r : ℕ) → r < 2 ^ k → bit_or r (q * 2 ^ k) ≡ r + q * 2 ^ k
or_fields zero q r h = let z : r ≡ 0 = omega arith in rw z (zero-or (q * 1) ∙ (omega arith))
or_fields (suc k) q r h =
    let e : q * 2 ^ suc k ≡ 2 * (q * 2 ^ k) = omega (arith, ap (λ (t : ℕ). q * t) (pow-suc 2 k)) in
    let p = pow-suc 2 k in
    let half : q * 2 ^ suc k / 2 ≡ q * 2 ^ k = omega arith in
    omega (
      arith,
      or_halves r (q * 2 ^ suc k),
      ap (λ (t : ℕ). bit_or (r / 2) t) half,
      or_fields k q (r / 2) (omega arith),
    )

and_halves : (x y : ℕ) → bit_and x y ≡ min (x % 2) (y % 2) + 2 * bit_and (x / 2) (y / 2)
and_halves zero y = simp bit_and-bitwise (omega arith)
and_halves (suc x) y = simp bit_and-bitwise (last_digit (λ _. 0) min x y)

and_bit : (a b m : ℕ) → bit_and (a / 2) m ≡ b → bit_and a (m * 2 + 1) ≡ b * 2 + a % 2
and_bit a b m h =
    let half : (m * 2 + 1) / 2 ≡ m = omega arith in
    omega (arith, and_halves a (m * 2 + 1), ap (λ (t : ℕ). bit_and (a / 2) t) half)

and-zero_below : (k a : ℕ) → a ≤ k → bit_and a 0 ≡ 0
and-zero_below k zero h = refl
and-zero_below zero (suc a) h = absurd (omega arith)
and-zero_below (suc k) (suc a) h =
    omega (arith, and_halves (suc a) 0, and-zero_below k (suc a / 2) (omega arith))

halves-mod : (a n : ℕ) → 0 < n → a / 2 % n * 2 + a % 2 ≡ a % (n * 2)
halves-mod a n h =
    let q = a / 2 / n in
    let low = a / 2 % n * 2 + a % 2 in
    let bound = mod-lt (a / 2) h in
    let whole : low + q * (n * 2) ≡ a = omega (arith, div-add-mod' (a / 2) n) in
    sym (
      ap (λ (t : ℕ). t % (n * 2)) (sym whole)
      ∙ add-mul-mod_self_right low q (n * 2)
      ∙ mod-eq_of_lt (omega (arith, bound)))

-- `a & (2 ^ k - 1)` is the remainder by `2 ^ k`.
pub and_mask : (k a : ℕ) → bit_and a (2 ^ k - 1) ≡ a % 2 ^ k
and_mask zero a = and-zero_below a a (le_refl a) ∙ (omega arith)
and_mask (suc k) a =
    let e = pow-suc 2 k in
    let one = one-le-pow k 2 in
    let mask : 2 ^ suc k - 1 ≡ (2 ^ k - 1) * 2 + 1 = omega (arith, one) in
    rw mask (
      and_bit a (a / 2 % 2 ^ k) (2 ^ k - 1) (and_mask k (a / 2))
      ∙ (rw e (halves-mod a (2 ^ k) (omega (arith, one)))))

-- Over a small range, two functions are compared by evaluation.
unfoldable pub agree_below : ℕ → (ℕ → ℕ) → (ℕ → ℕ) → Bool
agree_below zero f g = true
agree_below (suc n) f g = (f n == g n) && agree_below n f g

pub agree_below→eq : (n : ℕ) (f g : ℕ → ℕ) → agree_below n f g ≡ true → (i : ℕ) → i < n → f i ≡ g i
unfolding agree_below
agree_below→eq zero f g e i h = absurd (omega arith)
agree_below→eq (suc n) f g e i h = ground (arith, agree_below→eq n f g (ground arith) i)

-- `b & 0x80` on a byte is its top bit.
pub top_bit : (b : ℕ) → b < 256 → bit_and b 0x80 ≡ b / 128 * 128
unfolding agree_below
top_bit = agree_below→eq 256 _ _ refl
