-- ===== src/Device/Encoder/Counter.antt =====
-- The counter of the encoder follows the turns of the knob.
use embed_bench.Prelude.{
  ℕ, ◌+◌, ◌-◌, ◌*◌, ◌/◌, ◌%◌, ◌≤◌, ◌<◌, ◌≡◌, refl, ap, ◌∙◌, Option, List, [], ◌∷◌, arith,
}
use embed_bench.Device.Port.{HostPort}
use embed_bench.Device.Encoder.{Encoder, i2c_write, i2c_read, channel_write}

-- A turn of the knob by some steps.
pub data Turn : Type 0 where
  right left : (steps : ℕ) → Turn

-- The byte that stands for a turn, and the turns that a signed byte can stand for.
abbrev pub byte_of : Turn → ℕ
byte_of (right n) = n
byte_of (left n) = 256 - n

abbrev pub IsTurn : Turn → Type 0
IsTurn (right n) = n ≤ 127
IsTurn (left n) = (1 ≤ n) × (n ≤ 128)

abbrev pub AllTurns : List Turn → Type 0
AllTurns [] = Unit {0}
AllTurns (t ∷ ts) = IsTurn t × AllTurns ts

-- The steps to the right, and those to the left.
abbrev pub steps_right : List Turn → ℕ
steps_right [] = 0
steps_right (right n ∷ ts) = n + steps_right ts
steps_right (left n ∷ ts) = steps_right ts

abbrev pub steps_left : List Turn → ℕ
steps_left [] = 0
steps_left (right n ∷ ts) = steps_left ts
steps_left (left n ∷ ts) = n + steps_left ts

-- The turns of the knob, one after the other.
abbrev pub turned : List Turn → Encoder → Encoder
turned [] c = c
turned (t ∷ ts) c = turned ts (channel_write 0 (byte_of t ∷ []) c).1

-- From `c` to `d` the counter has moved by so many steps, on sixteen bits.
record Balance (c d : Encoder) (rights lefts : ℕ) : Type 0 where
  pointer : d.pointer ≡ c.pointer
  bounded : d.counter < 65536
  balance : (d.counter + lefts) % 65536 ≡ (c.counter + rights) % 65536

right_lem : (n : ℕ) (c : Encoder) → n ≤ 127 → Balance c (channel_write 0 (n ∷ []) c).1 n 0
unfolding channel_write
right_lem n c h = record { pointer = refl; bounded = omega arith; balance = ground (arith, h) }

left_lem :
    (n : ℕ) (c : Encoder) → 1 ≤ n → n ≤ 128 → Balance c (channel_write 0 ((256 - n) ∷ []) c).1 0 n
unfolding channel_write
left_lem n c l h = record { pointer = refl; bounded = omega arith; balance = ground (arith, l, h) }

turned_lem :
    (ts : List Turn) (c : Encoder)
    → c.counter < 65536
    → AllTurns ts
    → Balance c (turned ts c) (steps_right ts) (steps_left ts)
turned_lem [] c b h = record { pointer = refl; bounded = b; balance = refl }
turned_lem (right n ∷ ts) c b h =
    let m = right_lem n c h.0 in
    let r = turned_lem ts _ m.bounded h.1 in
    record {
      pointer = r.pointer ∙ m.pointer;
      bounded = r.bounded;
      balance = omega (arith, r.balance, m.balance);
    }
turned_lem (left n ∷ ts) c b h =
    let m = left_lem n c h.0.0 h.0.1 in
    let r = turned_lem ts _ m.bounded h.1 in
    record {
      pointer = r.pointer ∙ m.pointer;
      bounded = r.bounded;
      balance = omega (arith, r.balance, m.balance);
    }

-- A read of the counter, the low byte first: a number of sixteen bits that is, modulo 2^16, `start` and
-- the steps to the right, less those to the left.
pub record Reads (start rights lefts : ℕ) (got : List ℕ) : Type 0 where
  pub value : ℕ
  pub bytes : got ≡ value % 256 ∷ value / 256 ∷ []
  pub bounded : value < 65536
  pub balance : (value + lefts) % 65536 ≡ (start + rights) % 65536

module _ {ℓ} {P : Type ℓ} (port : Option (HostPort P)) where
  write_lem :
      (low high : ℕ) (c : Encoder) (p : P)
      → (i2c_write port (0 ∷ low ∷ high ∷ []) c p).1
        ≡ record c { pointer = 0; counter = low + high * 256 }
  unfolding i2c_write
  write_lem low high c p = refl

  read_lem : (c : Encoder) → c.pointer ≡ 0 → i2c_read 2 c ≡ c.counter % 256 ∷ c.counter / 256 ∷ []
  unfolding i2c_read
  read_lem c z = ground (arith, z)

  -- A sketch writes two bytes to the counter, the knob is turned any number of times, each by up to 127
  -- steps to the right or 128 to the left, and the sketch reads the counter. It gets, the low byte first,
  -- the number of sixteen bits that is the number written plus all steps to the right less all steps to
  -- the left, modulo 2^16.
  pub write-turns-read :
      (low high : ℕ) (ts : List Turn) (c : Encoder) (p : P)
      → low < 256
      → high < 256
      → AllTurns ts
      → Reads
          (low + high * 256)
          (steps_right ts)
          (steps_left ts)
          (i2c_read 2 (turned ts (i2c_write port (0 ∷ low ∷ high ∷ []) c p).1))
  write-turns-read low high ts c p l h a =
      let written = record c { pointer = 0; counter = low + high * 256 } in
      let t = turned_lem ts written (omega (arith, l, h)) a in
      record {
        value = (turned ts written).counter;
        bytes = ap (λ d. i2c_read 2 (turned ts d)) (write_lem low high c p) ∙ read_lem _ t.pointer;
        bounded = t.bounded;
        balance = t.balance;
      }
