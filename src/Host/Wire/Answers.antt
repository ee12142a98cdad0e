-- ===== src/Host/Wire/Answers.antt =====
-- What an I2C transfer tells the sketch.
use embed_bench.Prelude.{
  ℕ, ◌≤◌, ◌≡◌, refl, Bool, true, false, Option, none, some, List, [], ◌++◌, ltb, if◌then◌else◌,
  arith, length, take, length-take,
}
use embed_bench.Label.{codes, hex_byte, dec}
use embed_bench.Host.Monad.{Sys, M, pure, ◌>>=◌, ◌>>◌, Outside}
use embed_bench.Host.Record.{diagnose}
use embed_bench.Host.Deferral.{in_device}
use embed_bench.Host.Wire.{answer_read, on_wire_read_on}

-- An answer of at most `len` bytes, with no more bytes than it claims.
pub record Fits (len : ℕ) (got : ℕ × List ℕ) : Type 0 where
  pub claimed : got.0 ≤ len
  pub supplied : length got.1 ≤ got.0

module _ {ℓ} {W : Type ℓ} (o : Outside W) where
  if_Fits :
      (len : ℕ) (b : Bool) (m k : M W (ℕ × List ℕ)) (s : Sys W)
      → (b ≡ true → Fits len (m s).0)
      → (b ≡ false → Fits len (k s).0)
      → Fits len ((if b then m else k) s).0
  if_Fits len true m k s h g = h refl
  if_Fits len false m k s h g = g refl

  refused : ℕ → ℕ → ℕ → ℕ → M W (ℕ × List ℕ)
  refused req address len claimed = do
    diagnose o req (
        codes "diag.i2c_read_length addr="
        ++ hex_byte address
        ++ codes " got="
        ++ dec claimed
        ++ codes " max="
        ++ dec len)
    pure (0, [])

  answer_read-Fits :
      (device : Option ℕ) (req address len : ℕ) (stop continued : Bool) (s : Sys W)
      → Fits len (answer_read o device req address len stop continued s).0
  unfolding answer_read refused ◌>>=◌ ◌>>◌
  answer_read-Fits none req address len stop continued s = record {
    claimed = omega arith;
    supplied = omega arith;
  }
  answer_read-Fits (some ops) req address len stop continued s =
      if_Fits len (ltb len (asked s).0.0) (refused req address len (asked s).0.0)
        (pure ((asked s).0.0, take (asked s).0.0 (asked s).0.1)) (asked s).1
        (λ _. record { claimed = omega arith; supplied = omega arith })
        (λ b. record {
          claimed = ground (arith, b);
          supplied = omega (arith, length-take (asked s).0.0 (asked s).0.1);
        })
    where
      asked : M W (ℕ × List ℕ)
      asked = in_device (o.wire_read ops len stop continued)

  -- Whatever a device claims and supplies, a read of `len` bytes hands on at most `len` bytes, and no
  -- more than it says it does.
  pub on_wire_read_on-Fits :
      (bus address len : ℕ) (stop : Bool) (s : Sys W)
      → Fits len (on_wire_read_on o bus address len stop s).0
  unfolding on_wire_read_on ◌>>=◌ ◌>>◌
  on_wire_read_on-Fits bus address len stop s = answer_read-Fits _ _ address len stop _ _
