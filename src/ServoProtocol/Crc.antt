-- ===== src/ServoProtocol/Crc.antt =====
-- The check byte of servo_protocol.hpp: each step of `crc8` loses nothing.
use Prim.Native.Nat.{bit_xor}
use pypilot_cxx.Prelude.{
  ℕ, zero, suc, ◌+◌, ◌/◌, ◌%◌, ◌<◌, ◌≡◌, refl, sym, ap, ◌∙◌, ◌≢◌, List, [], ◌∷◌, ◌++◌, All, ◌==◌,
  if◌then◌else◌, arith,
}
use pypilot_cxx.Prelude.Bits.{
  agree_below, agree_below→eq, xor_lt, xor_injective_left, xor_injective_right,
}
use pypilot_cxx.ServoProtocol.{crc8_shift, crc8_loop, crc8_update, crc8_from, crc8}

abbrev pub IsByte : ℕ → Type 0
IsByte b = b < 256

-- The turn of the loop backwards: the last bit tells whether the polynomial went in.
unshift : ℕ → ℕ
unshift y = if y % 2 == 0 then y / 2 else bit_xor y 0x31 / 2 + 128

unloop : ℕ → ℕ → ℕ
unfolding unshift
unloop zero y = y
unloop (suc n) y = unloop n (unshift y)

unloop-crc8_loop : (x : ℕ) → IsByte x → unloop 8 (crc8_loop 8 x) ≡ x
unfolding unloop crc8_loop agree_below
unloop-crc8_loop = agree_below→eq 256 _ _ refl

crc8_shift-IsByte : (x : ℕ) → IsByte (crc8_shift x)
unfolding crc8_shift
crc8_shift-IsByte x = ground arith

crc8_loop-IsByte : (n x : ℕ) → IsByte x → IsByte (crc8_loop n x)
unfolding crc8_loop
crc8_loop-IsByte zero x h = h
crc8_loop-IsByte (suc n) x h = crc8_loop-IsByte n (crc8_shift x) (crc8_shift-IsByte x)

crc8_loop_injective : (x y : ℕ) → IsByte x → IsByte y → crc8_loop 8 x ≡ crc8_loop 8 y → x ≡ y
crc8_loop_injective x y hx hy e =
    sym (unloop-crc8_loop x hx) ∙ ap (unloop 8) e ∙ unloop-crc8_loop y hy

pub crc8_update-IsByte : (crc b : ℕ) → IsByte crc → IsByte b → IsByte (crc8_update crc b)
unfolding crc8_update
crc8_update-IsByte crc b h k = crc8_loop-IsByte 8 (bit_xor crc b) (xor_lt 8 crc b h k)

crc8_update_injective_crc :
    (c d b : ℕ) → IsByte c → IsByte d → IsByte b → crc8_update c b ≡ crc8_update d b → c ≡ d
unfolding crc8_update
crc8_update_injective_crc c d b hc hd hb e =
    xor_injective_left c d b (crc8_loop_injective _ _ (xor_lt 8 c b hc hb) (xor_lt 8 d b hd hb) e)

pub crc8_update_injective_byte :
    (c a b : ℕ) → IsByte c → IsByte a → IsByte b → crc8_update c a ≡ crc8_update c b → a ≡ b
unfolding crc8_update
crc8_update_injective_byte c a b hc ha hb e =
    xor_injective_right a b c (crc8_loop_injective _ _ (xor_lt 8 c a hc ha) (xor_lt 8 c b hc hb) e)

pub crc8_from-IsByte : (c : ℕ) (bs : List ℕ) → IsByte c → All IsByte bs → IsByte (crc8_from c bs)
unfolding crc8_from
crc8_from-IsByte c [] h k = h
crc8_from-IsByte c (b ∷ bs) h k =
    crc8_from-IsByte (crc8_update c b) bs (crc8_update-IsByte c b h k.0) k.1

-- Two registers that differ still differ after the same bytes.
pub crc8_from_injective :
    (bs : List ℕ) (c d : ℕ)
    → IsByte c
    → IsByte d
    → All IsByte bs
    → crc8_from c bs ≡ crc8_from d bs
    → c ≡ d
unfolding crc8_from
crc8_from_injective [] c d hc hd k e = e
crc8_from_injective (b ∷ bs) c d hc hd k e = crc8_update_injective_crc c d b hc hd k.0 (
    crc8_from_injective bs (crc8_update c b) (crc8_update d b) (crc8_update-IsByte c b hc k.0)
      (crc8_update-IsByte d b hd k.0) k.1 e)

-- One byte of a list changed, and its check byte is another.
crc8_from_differs :
    (c : ℕ) (before after : List ℕ) (x y : ℕ)
    → IsByte c
    → All IsByte before
    → All IsByte after
    → IsByte x
    → IsByte y
    → x ≢ y
    → crc8_from c (before ++ x ∷ after) ≢ crc8_from c (before ++ y ∷ after)
unfolding crc8_from
crc8_from_differs c [] after x y hc hb ha hx hy ne e = ne (
    crc8_update_injective_byte c x y hc hx hy (
      crc8_from_injective after (crc8_update c x) (crc8_update c y) (crc8_update-IsByte c x hc hx)
        (crc8_update-IsByte c y hc hy) ha e))
crc8_from_differs c (b ∷ bs) after x y hc hb ha hx hy ne e =
    crc8_from_differs (crc8_update c b) bs after x y (crc8_update-IsByte c b hc hb.0) hb.1 ha hx hy
      ne e

pub crc8_differs :
    (before after : List ℕ) (x y : ℕ)
    → All IsByte before
    → All IsByte after
    → IsByte x
    → IsByte y
    → x ≢ y
    → crc8 (before ++ x ∷ after) ≢ crc8 (before ++ y ∷ after)
unfolding crc8
crc8_differs before after x y = crc8_from_differs 255 before after x y (omega arith)
