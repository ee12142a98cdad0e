-- ===== src/Label/Format.antt =====
-- The `snprintf` conversions that src/embedbench_host.cpp uses, and its `hexOf`.
use Prim.Native.Char.{code}
use Prim.Native.String.{String}
use embed_bench.Prelude.{
  ℕ, zero, suc, ◌+◌, ◌-◌, ◌/◌, ◌%◌, ◌<◌, ◌≡◌, refl, List, [], ◌∷◌, ◌++◌, arith, ltb, leb,
  if◌then◌else◌, length, take,
}

-- The bytes of an ASCII literal.
abbrev pub codes : String → List ℕ
codes String.[] = []
codes (String.◌∷◌ c s) = code c ∷ codes s

-- One hexadecimal digit, upper case.
unfoldable pub hex_digit : ℕ → ℕ
hex_digit d = if ltb d 10 then b'0' + d else b'A' + (d - 10)

-- %02X of a byte.
unfoldable pub hex_byte : ℕ → List ℕ
unfolding hex_digit
hex_byte b = hex_digit (b / 16 % 16) ∷ hex_digit (b % 16) ∷ []

-- Decimal digits in front of `rest`; the fuel bounds their number.
unfoldable pub digits_onto : ℕ → ℕ → List ℕ → List ℕ
digits_onto zero n rest = rest
digits_onto (suc fuel) n rest =
    let more = digits_onto fuel (n / 10) ((b'0' + n % 10) ∷ rest) in
    if ltb n 10 then (b'0' + n) ∷ rest else more

-- %u and %llu: a 64-bit value has 20 digits at most.
unfoldable pub dec : ℕ → List ℕ
unfolding digits_onto
dec n = digits_onto 20 n []

-- `snprintf(out, cap, …)` and `vsnprintf`: at most cap - 1 characters are kept.
unfoldable pub fit : ℕ → List ℕ → List ℕ
fit cap text = take (cap - 1) text

-- hexOf: two digits a byte, while three characters are left. `room` is cap - pos.
unfoldable pub hex_of : List ℕ → ℕ → List ℕ
unfolding hex_byte
hex_of [] room = []
hex_of (b ∷ bs) room = if leb 3 room then hex_byte b ++ hex_of bs (room - 2) else []

dec_runs : dec 4096 ≡ codes "4096"
unfolding dec
dec_runs = refl

hex_of_runs : hex_of (0xF4 ∷ 0x0A ∷ 1 ∷ 2 ∷ 3 ∷ 4 ∷ []) 12 ≡ codes "F40A010203"
unfolding hex_of
hex_of_runs = refl

-- A buffer of `room` characters takes whole bytes only: no more than its characters allow.
pub length-hex_of : (bs : List ℕ) (room : ℕ) → 0 < room → length (hex_of bs room) < room
unfolding hex_of
length-hex_of [] room h = omega arith
length-hex_of (b ∷ bs) room h = ground (arith, length-hex_of bs (room - 2))

-- Where the buffer has room for every byte, every byte is printed.
pub length-hex_of_whole :
    (bs : List ℕ) (room : ℕ)
    → length bs + length bs < room
    → length (hex_of bs room) ≡ length bs + length bs
unfolding hex_of
length-hex_of_whole [] room h = omega arith
length-hex_of_whole (b ∷ bs) room h = ground (arith, length-hex_of_whole bs (room - 2))
