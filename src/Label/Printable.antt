-- ===== src/Label/Printable.antt =====
-- Event lines stay lines: every label is made of printable characters and fits its buffer.
use embed_bench.Prelude.{
  ℕ, zero, suc, ◌+◌, ◌-◌, ◌/◌, ◌%◌, ◌≤◌, ◌<◌, ◌≡◌, inl, inr, true, some, List, [], ◌∷◌, ◌++◌, arith,
  leb, ltb, length, ◌==◌, take, length-take, Option-cases, Bool-cases,
}
use embed_bench.Label.Format.{hex_digit, hex_byte, hex_of, dec, digits_onto, fit, codes}
use embed_bench.Label.Bytes.{payload_label, needed_from, render, rendered, bytes_label}
use embed_bench.Label.Crc.{crc8}

-- Printable ASCII, so neither a NUL nor a line break.
abbrev pub IsPrintable : List ℕ → Type 0
IsPrintable [] = Unit {0}
IsPrintable (b ∷ bs) = (0x20 ≤ b) × (b ≤ 0x7E) × IsPrintable bs

append-IsPrintable : (xs ys : List ℕ) → IsPrintable xs → IsPrintable ys → IsPrintable (xs ++ ys)
append-IsPrintable [] ys h k = k
append-IsPrintable (x ∷ xs) ys h k = (h.0, h.1, append-IsPrintable xs ys h.2 k)

take-IsPrintable : (n : ℕ) (xs : List ℕ) → IsPrintable xs → IsPrintable (take n xs)
take-IsPrintable zero xs h = tt
take-IsPrintable (suc n) [] h = tt
take-IsPrintable (suc n) (x ∷ xs) h = (h.0, h.1, take-IsPrintable n xs h.2)

hex_digit_bounds : (d : ℕ) → d < 16 → (0x20 ≤ hex_digit d) × (hex_digit d ≤ 0x7E)
unfolding hex_digit
hex_digit_bounds d h = ground arith

hex_byte-IsPrintable : (b : ℕ) → IsPrintable (hex_byte b)
unfolding hex_byte
hex_byte-IsPrintable b =
    let hi = hex_digit_bounds (b / 16 % 16) (omega arith) in
    let lo = hex_digit_bounds (b % 16) (omega arith) in (hi.0, hi.1, (lo.0, lo.1, tt))

digits_onto-IsPrintable :
    (fuel n : ℕ) (rest : List ℕ) → IsPrintable rest → IsPrintable (digits_onto fuel n rest)
unfolding digits_onto
digits_onto-IsPrintable zero n rest h = h
digits_onto-IsPrintable (suc fuel) n rest h = elim (Bool-cases (ltb n 10)) [
  | inl e ↦ rw e (omega (arith, ltb→digit n e), omega (arith, ltb→digit n e), h)
  | inr e ↦
      rw e (
        digits_onto-IsPrintable fuel (n / 10) ((b'0' + n % 10) ∷ rest)
          (omega arith, omega arith, h))
]
  where
    ltb→digit : (n : ℕ) → ltb n 10 ≡ true → n < 10
    ltb→digit n e = ground arith

hex_of-IsPrintable : (bs : List ℕ) (room : ℕ) → IsPrintable (hex_of bs room)
unfolding hex_of
hex_of-IsPrintable [] room = tt
hex_of-IsPrintable (b ∷ bs) room = elim (Bool-cases (leb 3 room)) [
  | inl e ↦ rw e (
      append-IsPrintable (hex_byte b) (hex_of bs (room - 2)) (hex_byte-IsPrintable b)
        (hex_of-IsPrintable bs (room - 2)))
  | inr e ↦ rw e tt
]

dec-IsPrintable : (n : ℕ) → IsPrintable (dec n)
unfolding dec
dec-IsPrintable n = digits_onto-IsPrintable 20 n [] tt

payload_label-IsPrintable : (bytes : List ℕ) (cap : ℕ) → IsPrintable (payload_label bytes cap)
unfolding payload_label fit
payload_label-IsPrintable bytes cap = elim (Bool-cases (length bytes == 0)) [
  | inl e ↦ rw e (take-IsPrintable (cap - 1) _ (omega arith))
  | inr e ↦ elim (Bool-cases (leb (length bytes) 4)) [
    | inl f ↦
        rw (e, f)
          (take-IsPrintable (cap - 1) _ (
            append-IsPrintable (codes "data=") (hex_of bytes 12) (omega arith)
              (hex_of-IsPrintable bytes 12)))
    | inr f ↦
        rw (e, f)
          (take-IsPrintable (cap - 1) _ (
            append-IsPrintable (codes "len=" ++ dec (length bytes) ++ codes " crc=")
              (hex_byte (crc8 bytes))
              (append-IsPrintable (codes "len=" ++ dec (length bytes)) (codes " crc=")
                (append-IsPrintable (codes "len=") (dec (length bytes)) (omega arith)
                  (dec-IsPrintable (length bytes)))
                (omega arith))
              (hex_byte-IsPrintable (crc8 bytes))))
  ]
]

-- What the first loop accepts, the second renders in exactly the characters that it counted.
needed-render :
    (bs : List ℕ) (acc n : ℕ)
    → needed_from acc bs ≡ some n
    → IsPrintable (render bs) × (acc + length (render bs) ≡ n)
unfolding needed_from render
needed-render [] acc n h = (tt, ground arith)
needed-render (b ∷ bs) acc n h =
    ground (arith, needed-render bs (acc + 1) n, needed-render bs (acc + 2) n)

length-fit : (cap : ℕ) (xs : List ℕ) → 0 < cap → length (fit cap xs) < cap
unfolding fit
length-fit cap xs h = omega (arith, length-take (cap - 1) xs)

payload_label-lt : (bytes : List ℕ) (cap : ℕ) → 0 < cap → length (payload_label bytes cap) < cap
unfolding payload_label
payload_label-lt bytes cap h = ground (
  arith,
  length-fit cap (codes "empty"),
  length-fit cap (codes "data=" ++ hex_of bytes 12),
  length-fit cap (codes "len=" ++ dec (length bytes) ++ codes " crc=" ++ hex_byte (crc8 bytes)),
)

abbrev IsLabel : List ℕ → ℕ → Type 0
IsLabel text cap = IsPrintable text × (length text < cap)

payload_label-IsLabel : (bytes : List ℕ) (cap : ℕ) → 0 < cap → IsLabel (payload_label bytes cap) cap
payload_label-IsLabel bytes cap h =
    (payload_label-IsPrintable bytes cap, payload_label-lt bytes cap h)

rendered-IsLabel :
    (bytes : List ℕ) (cap : ℕ) → 0 < cap → IsLabel (rendered (needed_from 0 bytes) bytes cap) cap
rendered-IsLabel bytes cap h = elim (Option-cases (needed_from 0 bytes)) [
  | inl e ↦ rw e (payload_label-IsLabel bytes cap h)
  | inr (n, e) ↦ elim (Bool-cases (ltb cap (n + 1))) [
    | inl f ↦ rw (e, f) (payload_label-IsLabel bytes cap h)
    | inr f ↦ let r = needed-render bytes 0 n e in rw (e, f) (r.0, ground (arith, r.1))
  ]
]

-- Whatever the bytes, the label of a serial payload is printable text that fits its buffer with the
-- terminating NUL: no byte value can cut a record short or break its line.
pub bytes_label-IsPrintable :
    (bytes : List ℕ) (cap : ℕ)
    → 0 < cap
    → IsPrintable (bytes_label bytes cap) × (length (bytes_label bytes cap) < cap)
unfolding bytes_label
bytes_label-IsPrintable [] cap h = payload_label-IsLabel [] cap h
bytes_label-IsPrintable (b ∷ bs) cap h = rendered-IsLabel (b ∷ bs) cap h
