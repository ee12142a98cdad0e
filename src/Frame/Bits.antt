-- ===== src/Frame/Bits.antt =====
-- The masks of low bits that `framePaddingClean` tests with.
use embed_bench.Prelude.{
  ℕ, zero, suc, ◌-◌, ◌/◌, ◌%◌, ◌^◌, ◌≤◌, ◌<◌, ◌≡◌, refl, ◌∙◌, arith, bit_and, min,
}
use Prim.Native.Nat.{digits, bit_and-bitwise}

-- The conjunction of two numbers, digit by digit.
abbrev conjunction : (rounds a mask : ℕ) → ℕ
conjunction rounds a mask = digits (λ b. zero) min rounds a mask

-- What each mask leaves of a number.
record LowBits (rounds a : ℕ) : Type 0 where
  none_left : conjunction rounds a 0 ≡ 0
  one : conjunction rounds a 1 ≡ a % 2
  two : conjunction rounds a 3 ≡ a % 4
  three : conjunction rounds a 7 ≡ a % 8
  four : conjunction rounds a 15 ≡ a % 16
  five : conjunction rounds a 31 ≡ a % 32
  six : conjunction rounds a 63 ≡ a % 64
  seven : conjunction rounds a 127 ≡ a % 128

low_bits : (rounds a : ℕ) → a ≤ rounds → LowBits rounds a
low_bits zero zero h = record {
  none_left = refl;
  one = refl;
  two = refl;
  three = refl;
  four = refl;
  five = refl;
  six = refl;
  seven = refl;
}
low_bits zero (suc a) h = absurd (omega (arith, h))
low_bits (suc rounds) zero h = record {
  none_left = refl;
  one = refl;
  two = refl;
  three = refl;
  four = refl;
  five = refl;
  six = refl;
  seven = refl;
}
low_bits (suc rounds) (suc a) h =
    let half = low_bits rounds (suc a / 2) (omega (arith, h)) in
    record {
      none_left = omega (arith, half.none_left);
      one = omega (arith, half.none_left);
      two = omega (arith, half.one);
      three = omega (arith, half.two);
      four = omega (arith, half.three);
      five = omega (arith, half.four);
      six = omega (arith, half.five);
      seven = omega (arith, half.six);
    }

-- The mask of the bits that the first `used` bits of a byte leave free.
pub low_mask :
    (a used : ℕ) → 0 < used → used < 8 → bit_and a ((2 ^ (8 - used) - 1) % 256) ≡ a % 2 ^ (8 - used)
low_mask a zero p q = absurd (omega (arith, p))
low_mask a (suc zero) p q = bit_and-bitwise a 127 ∙ (low_bits a a (omega arith)).seven
low_mask a (suc (suc zero)) p q = bit_and-bitwise a 63 ∙ (low_bits a a (omega arith)).six
low_mask a (suc (suc (suc zero))) p q = bit_and-bitwise a 31 ∙ (low_bits a a (omega arith)).five
low_mask a (suc (suc (suc (suc zero)))) p q =
    bit_and-bitwise a 15 ∙ (low_bits a a (omega arith)).four
low_mask a (suc (suc (suc (suc (suc zero))))) p q =
    bit_and-bitwise a 7 ∙ (low_bits a a (omega arith)).three
low_mask a (suc (suc (suc (suc (suc (suc zero)))))) p q =
    bit_and-bitwise a 3 ∙ (low_bits a a (omega arith)).two
low_mask a (suc (suc (suc (suc (suc (suc (suc zero))))))) p q =
    bit_and-bitwise a 1 ∙ (low_bits a a (omega arith)).one
low_mask a (suc (suc (suc (suc (suc (suc (suc (suc n)))))))) p q = absurd (omega (arith, q))
