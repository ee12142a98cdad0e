-- ===== src/Device/Modbus/Replies.antt =====
-- What the Modbus slave puts on the line.
use embed_bench.Prelude.{
  ℕ, zero, suc, ◌+◌, ◌-◌, ◌*◌, ◌/◌, ◌%◌, ◌≤◌, ◌<◌, ◌≡◌, refl, ap, ap₂, sym, ◌∙◌, true, some, List,
  [], ◌∷◌, ◌++◌, length, get_or, take, length-append, arith, ==_iff,
}
use embed_bench.Device.Port.{HostPort}
use embed_bench.Device.Modbus.{
  crc16, Modbus, address, read_holding, register_count, big_endian, crc_ok, register_bytes,
  reply_body, reply, serve, handle_frame,
}

-- The parts of a list with two entries at its end.
take-append_two : (xs : List ℕ) (a b : ℕ) → take (length xs) (xs ++ (a ∷ b ∷ [])) ≡ xs
take-append_two [] a b = refl
take-append_two (x ∷ xs) a b = ap (λ ys. x ∷ ys) (take-append_two xs a b)

get_or-append_two :
    (xs : List ℕ) (a b : ℕ)
    → (get_or (xs ++ (a ∷ b ∷ [])) (length xs) 0 ≡ a)
      × (get_or (xs ++ (a ∷ b ∷ [])) (length xs + 1) 0 ≡ b)
get_or-append_two [] a b = (refl, refl)
get_or-append_two (x ∷ xs) a b =
    let e : suc (length xs) + 1 ≡ suc (length xs + 1) = omega arith in
    let r = get_or-append_two xs a b in
    (r.0, ap (λ i. get_or (x ∷ (xs ++ (a ∷ b ∷ []))) i 0) e ∙ r.1)

-- A frame that ends in the checksum of what stands before it passes the check.
crc_ok-framed : (xs : List ℕ) → crc_ok (xs ++ (crc16 xs % 256 ∷ crc16 xs / 256 ∷ [])) ≡ true
unfolding crc_ok
crc_ok-framed xs =
    let bytes = xs ++ (crc16 xs % 256 ∷ crc16 xs / 256 ∷ []) in
    let len : length bytes - 2 ≡ length xs =
      omega (arith, length-append xs (crc16 xs % 256 ∷ crc16 xs / 256 ∷ [])) in
    let ends = get_or-append_two xs (crc16 xs % 256) (crc16 xs / 256) in
    let joined : get_or bytes (length xs) 0 + get_or bytes (length xs + 1) 0 * 256 ≡ crc16 xs =
      omega (arith, ends.0, ends.1) in
    (==_iff _ _).1 (
      ap (λ i. get_or bytes i 0 + get_or bytes (i + 1) 0 * 256) len
      ∙ joined
      ∙ ap crc16 (sym (ap (λ i. take i bytes) len ∙ take-append_two xs _ _)))

length-register_bytes :
    (count first : ℕ) (registers : List ℕ)
    → length (register_bytes count first registers) ≡ count * 2
unfolding register_bytes
length-register_bytes zero first registers = refl
length-register_bytes (suc count) first registers =
    omega (arith, length-register_bytes count (first + 1) registers)

-- Register `first + i` stands at byte `2 * i`, the high byte first.
big_endian-register_bytes :
    (count first i : ℕ) (registers tail : List ℕ)
    → i < count
    → big_endian (register_bytes count first registers ++ tail) (2 * i)
      ≡ get_or registers (first + i) 0
unfolding register_bytes
big_endian-register_bytes zero first i registers tail h = absurd (omega (arith, h))
big_endian-register_bytes (suc count) first zero registers tail h =
    let e : first ≡ first + 0 = omega arith in
    let whole : get_or registers first 0 / 256 * 256 + get_or registers first 0 % 256
        ≡ get_or registers first 0 =
      omega arith in
    whole ∙ ap (λ j. get_or registers j 0) e
big_endian-register_bytes (suc count) first (suc i) registers tail h =
    let hi = get_or registers first 0 / 256 in
    let lo = get_or registers first 0 % 256 in
    let rest = register_bytes count (first + 1) registers ++ tail in
    let e : 2 * suc i ≡ suc (suc (2 * i)) = omega arith in
    let e' : suc (suc (2 * i)) + 1 ≡ suc (suc (2 * i + 1)) = omega arith in
    let j : first + 1 + i ≡ first + suc i = omega arith in
    ap (big_endian (hi ∷ lo ∷ rest)) e
    ∙ ap (λ k. get_or rest (2 * i) 0 * 256 + get_or (hi ∷ lo ∷ rest) k 0) e'
    ∙ big_endian-register_bytes count (first + 1) i registers tail (omega (arith, h))
    ∙ ap (λ k. get_or registers k 0) j

-- What a reply promises: it fits the source's buffer, passes the check that the slave itself makes,
-- names the slave, and has register `i` of those asked for.
pub record Answers (first count i : ℕ) (registers bytes : List ℕ) : Type 0 where
  pub fits : length bytes ≤ 16
  pub checked : crc_ok bytes ≡ true
  pub from_slave : (get_or bytes 0 0 ≡ address) × (get_or bytes 1 0 ≡ read_holding)
  pub counted : get_or bytes 2 0 ≡ 2 * count
  pub value : big_endian bytes (3 + 2 * i) ≡ get_or registers (first + i) 0

reply-Answers :
    (first count i : ℕ) (registers : List ℕ)
    → count ≤ register_count
    → i < count
    → Answers first count i registers (reply first count registers)
unfolding reply
reply-Answers first count i registers h b =
    let body = reply_body first count registers in
    let tail = crc16 body % 256 ∷ crc16 body / 256 ∷ [] in
    let three : 3 + 2 * i ≡ suc (suc (suc (2 * i))) = omega arith in
    let four : 3 + 2 * i + 1 ≡ suc (suc (suc (2 * i + 1))) = omega arith in
    record {
      fits = omega (
        arith,
        h,
        length-append (register_bytes count first registers) tail,
        length-register_bytes count first registers,
      );
      checked = crc_ok-framed body;
      from_slave = (refl, refl);
      counted = omega (arith, h);
      value =
          ap₂
            (λ j k.
              get_or (reply first count registers) j 0 * 256
              + get_or (reply first count registers) k 0)
            three four
          ∙ big_endian-register_bytes count first i registers tail b;
    }

module _ {ℓ} {P : Type ℓ} where
  -- To a frame that has the right checksum, its own address and a request for one to four registers
  -- that exist, the slave sends one reply: at most 16 bytes with the right
  -- checksum, its address, the function, the length, and the value of each register asked for.
  pub handle_frame-Answers :
      (h : HostPort P) (c : Modbus) (p : P) (i : ℕ)
      → length c.frame ≡ 8
      → crc_ok c.frame ≡ true
      → get_or c.frame 0 0 ≡ address
      → get_or c.frame 1 0 ≡ read_holding
      → big_endian c.frame 2 + big_endian c.frame 4 ≤ register_count
      → i < big_endian c.frame 4
      → (bytes : List ℕ) × ((handle_frame (some h) c p).1 ≡ (h.serial_out bytes p).1)
        × Answers (big_endian c.frame 2) (big_endian c.frame 4) i c.registers bytes
  unfolding handle_frame serve
  handle_frame-Answers h c p i l k a f e b = (
    reply (big_endian c.frame 2) (big_endian c.frame 4) c.registers,
    ground (arith, l, k, a, f, e, b),
    reply-Answers _ _ i c.registers (omega (arith, e)) b,
  )
