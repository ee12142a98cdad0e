-- ===== src/Label/Bytes.antt =====
-- `payloadLabel` and `bytesLabel` of src/embedbench_host.cpp.
use embed_bench.Prelude.{
  ℕ, ◌+◌, ◌≡◌, refl, Bool, ◌&&◌, ◌||◌, Option, none, some, List, [], ◌∷◌, ◌++◌, ltb, leb, ◌==◌,
  if◌then◌else◌, length,
}
use embed_bench.Label.Format.{codes, hex_byte, hex_of, dec, fit}
use embed_bench.Label.Crc.{crc8}

unfoldable pub payload_label : List ℕ → ℕ → List ℕ
payload_label bytes cap =
    if length bytes == 0
    then fit cap (codes "empty")
    else if leb (length bytes) 4
    then fit cap (codes "data=" ++ hex_of bytes 12)
    else fit cap (codes "len=" ++ dec (length bytes) ++ codes " crc=" ++ hex_byte (crc8 bytes))

-- A byte that prints as itself.
abbrev pub is_text : ℕ → Bool
is_text b = leb 0x20 b && leb b 0x7E

-- \r, \n or \t.
abbrev pub is_escape : ℕ → Bool
is_escape b = b == 13 || (b == 10 || b == 9)

-- The first loop: the characters needed, or none at the first byte that cannot be rendered.
unfoldable pub needed_from : ℕ → List ℕ → Option ℕ
needed_from needed [] = some needed
needed_from needed (b ∷ bs) =
    let text = needed_from (needed + 1) bs in
    let escape = needed_from (needed + 2) bs in
    if is_text b then text else if is_escape b then escape else none

-- The second loop.
unfoldable pub render : List ℕ → List ℕ
render [] = []
render (b ∷ bs) =
    let rest = render bs in
    if is_text b
    then b ∷ rest
    else b'\\' ∷ (if b == 13 then b'r' else if b == 10 then b'n' else b't') ∷ rest

-- A fitting rendition of a non-empty text, or the payload's summary.
abbrev pub rendered : Option ℕ → List ℕ → ℕ → List ℕ
rendered none bytes cap = payload_label bytes cap
rendered (some needed) bytes cap =
    if ltb cap (needed + 1) then payload_label bytes cap else render bytes

unfoldable pub bytes_label : List ℕ → ℕ → List ℕ
unfolding needed_from render payload_label
bytes_label [] cap = payload_label [] cap
bytes_label (b ∷ bs) cap = rendered (needed_from 0 (b ∷ bs)) (b ∷ bs) cap

bytes_label_runs : bytes_label (72 ∷ 105 ∷ 13 ∷ 10 ∷ []) 24 ≡ codes "Hi\\r\\n"
unfolding bytes_label
bytes_label_runs = refl

bytes_label_binary : bytes_label (0 ∷ 1 ∷ []) 24 ≡ codes "data=0001"
unfolding bytes_label payload_label hex_of fit
bytes_label_binary = refl
