-- ===== src/Label/Detect.antt =====
-- What the checksum of a summary line tells apart.
use embed_bench.Prelude.{
  ℕ, zero, suc, ◌+◌, ◌<◌, ◌≡◌, refl, Bool, true, false, ◌&&◌, List, [], ◌∷◌, ◌++◌, arith, bit_xor,
  ◌==◌, ==_iff, ap, ◌≢◌, ◌∙◌, sym, ltb, ltb→lt, &&-eq-true, if◌then◌else◌, ◌%◌, ◌/◌,
}
use embed_bench.Label.Crc.{crc8_bits, crc8_step_bits, crc8_step, crc8_steps, crc8_from, crc8}

-- Over a small range, check every value by evaluation.
true_under : (bound : ℕ) (test : ℕ → Bool) → Bool
true_under zero test = true
true_under (suc bound) test = if test bound then true_under bound test else false

true_under-at :
    (bound : ℕ) (test : ℕ → Bool) (value : ℕ)
    → true_under bound test ≡ true
    → value < bound
    → test value ≡ true
unfolding true_under
true_under-at zero test value all under = absurd (omega arith)
true_under-at (suc bound) test value all under = ground (arith, all, true_under-at bound test value)

xor_table : true_under 256 (λ c. true_under 256 (λ a. bit_xor c (bit_xor c a) == a)) ≡ true
unfolding true_under
xor_table = refl

xor_byte_table : true_under 256 (λ c. true_under 256 (λ a. ltb (bit_xor c a) 256)) ≡ true
unfolding true_under
xor_byte_table = refl

-- The bit loop run backwards.
unbit : ℕ → ℕ
unbit crc = if crc % 2 == 1 then bit_xor crc 7 / 2 + 128 else crc / 2

unbits : ℕ → ℕ → ℕ
unfolding unbit
unbits zero crc = crc
unbits (suc n) crc = unbits n (unbit crc)

round_table : true_under 256 (λ x. unbits 8 (crc8_bits 8 x) == x && ltb (crc8_bits 8 x) 256) ≡ true
unfolding true_under unbits crc8_bits
round_table = refl

abbrev IsByte : ℕ → Type 0
IsByte b = b < 256

xor_twice : (c a : ℕ) → IsByte c → IsByte a → bit_xor c (bit_xor c a) ≡ a
xor_twice c a hc ha = (==_iff _ a).0 (
    true_under-at 256 (λ a. bit_xor c (bit_xor c a) == a) a
      (true_under-at 256 (λ c. true_under 256 (λ a. bit_xor c (bit_xor c a) == a)) c xor_table hc)
      ha)

xor-IsByte : (c a : ℕ) → IsByte c → IsByte a → IsByte (bit_xor c a)
xor-IsByte c a hc ha = ltb→lt _ _ (
    true_under-at 256 (λ a. ltb (bit_xor c a) 256) a
      (true_under-at 256 (λ c. true_under 256 (λ a. ltb (bit_xor c a) 256)) c xor_byte_table hc) ha)

rounds : (x : ℕ) → IsByte x → (unbits 8 (crc8_bits 8 x) ≡ x) × IsByte (crc8_bits 8 x)
rounds x h =
    let p = &&-eq-true _ _ (
      true_under-at 256 (λ x. unbits 8 (crc8_bits 8 x) == x && ltb (crc8_bits 8 x) 256) x
        round_table h) in
    ((==_iff _ x).0 p.0, ltb→lt _ _ p.1)

rounds_injective : (x y : ℕ) → IsByte x → IsByte y → crc8_bits 8 x ≡ crc8_bits 8 y → x ≡ y
rounds_injective x y hx hy e = sym (rounds x hx).0 ∙ ap (unbits 8) e ∙ (rounds y hy).0

xor_injective : (c a b : ℕ) → IsByte c → IsByte a → IsByte b → bit_xor c a ≡ bit_xor c b → a ≡ b
xor_injective c a b hc ha hb e = sym (xor_twice c a hc ha) ∙ ap (bit_xor c) e ∙ xor_twice c b hc hb

xor_comm_table : true_under 256 (λ c. true_under 256 (λ a. bit_xor c a == bit_xor a c)) ≡ true
unfolding true_under
xor_comm_table = refl

xor_comm : (c a : ℕ) → IsByte c → IsByte a → bit_xor c a ≡ bit_xor a c
xor_comm c a hc ha = (==_iff _ _).0 (
    true_under-at 256 (λ a. bit_xor c a == bit_xor a c) a
      (true_under-at 256 (λ c. true_under 256 (λ a. bit_xor c a == bit_xor a c)) c xor_comm_table
        hc)
      ha)

-- Bytes of a payload.
abbrev pub AllBytes : List ℕ → Type 0
AllBytes [] = Unit {0}
AllBytes (b ∷ bs) = (b < 256) × AllBytes bs

-- Two different states never meet again over the same bytes.
crc8_from-injective :
    (bs : List ℕ) (c d : ℕ)
    → IsByte c
    → IsByte d
    → AllBytes bs
    → crc8_from c bs ≡ crc8_from d bs
    → c ≡ d
unfolding crc8_from
crc8_from-injective [] c d hc hd h e = e
crc8_from-injective (b ∷ bs) c d hc hd h e =
    let hx = xor-IsByte c b hc h.0 in
    let hy = xor-IsByte d b hd h.0 in
    let met = crc8_from-injective bs _ _ (rounds _ hx).1 (rounds _ hy).1 h.1 e in
    xor_injective b c d h.0 hc hd
      (xor_comm b c h.0 hc ∙ rounds_injective _ _ hx hy met ∙ sym (xor_comm b d h.0 hd))

crc8_from-single :
    (pre post : List ℕ) (a b c : ℕ)
    → IsByte c
    → a < 256
    → b < 256
    → AllBytes pre
    → AllBytes post
    → crc8_from c (pre ++ a ∷ post) ≡ crc8_from c (pre ++ b ∷ post)
    → a ≡ b
unfolding crc8_from
crc8_from-single [] post a b c hc ha hb hpre hpost e =
    let hx = xor-IsByte c a hc ha in
    let hy = xor-IsByte c b hc hb in
    xor_injective c a b hc ha hb (
      rounds_injective _ _ hx hy
        (crc8_from-injective post _ _ (rounds _ hx).1 (rounds _ hy).1 hpost e))
crc8_from-single (p ∷ pre) post a b c hc ha hb hpre hpost e =
    crc8_from-single pre post a b _ (rounds _ (xor-IsByte c p hc hpre.0)).1 ha hb hpre.1 hpost e

-- Changing exactly one byte of a payload, at any position, always changes its checksum.
pub crc8-single :
    (pre post : List ℕ) (a b : ℕ)
    → a < 256
    → b < 256
    → AllBytes pre
    → AllBytes post
    → a ≢ b
    → crc8 (pre ++ a ∷ post) ≢ crc8 (pre ++ b ∷ post)
unfolding crc8
crc8-single pre post a b ha hb hpre hpost ne e =
    ne (crc8_from-single pre post a b 0 (omega arith) ha hb hpre hpost e)

-- The two copies of the bit loop do the same to every byte.
step_table : true_under 256 (λ x. crc8_step_bits 8 x == crc8_bits 8 x) ≡ true
unfolding true_under crc8_step_bits crc8_bits
step_table = refl

copies : (x : ℕ) → IsByte x → crc8_step_bits 8 x ≡ crc8_bits 8 x
copies x h =
    (==_iff _ _).0 (true_under-at 256 (λ x. crc8_step_bits 8 x == crc8_bits 8 x) x step_table h)

crc8_from-append : (c : ℕ) (xs ys : List ℕ) → crc8_from c (xs ++ ys) ≡ crc8_from (crc8_from c xs) ys
unfolding crc8_from
crc8_from-append c [] ys = refl
crc8_from-append c (x ∷ xs) ys = crc8_from-append (crc8_bits 8 (bit_xor c x)) xs ys

crc8_from-IsByte : (xs : List ℕ) (c : ℕ) → IsByte c → AllBytes xs → IsByte (crc8_from c xs)
unfolding crc8_from
crc8_from-IsByte [] c hc h = hc
crc8_from-IsByte (x ∷ xs) c hc h = crc8_from-IsByte xs _ (rounds _ (xor-IsByte c x hc h.0)).1 h.1

crc8_steps-crc8_from :
    (ys : List ℕ) (c : ℕ) → IsByte c → AllBytes ys → crc8_steps c ys ≡ crc8_from c ys
unfolding crc8_from crc8_steps crc8_step
crc8_steps-crc8_from [] c hc h = refl
crc8_steps-crc8_from (y ∷ ys) c hc h =
    let hx = xor-IsByte c y hc h.0 in
    ap (λ d. crc8_steps d ys) (copies (bit_xor c y) hx)
    ∙ crc8_steps-crc8_from ys (crc8_bits 8 (bit_xor c y)) (rounds _ hx).1 h.1

-- The checksum that is run on byte by byte agrees with the one taken over a whole payload of bytes:
-- a summary that goes on from the checksum of its first part carries the same value as one taken at
-- once, although the two have separate bit loops.
pub crc8_steps-crc8 :
    (xs ys : List ℕ) → AllBytes xs → AllBytes ys → crc8_steps (crc8 xs) ys ≡ crc8 (xs ++ ys)
unfolding crc8
crc8_steps-crc8 xs ys hx hy =
    crc8_steps-crc8_from ys (crc8_from 0 xs) (crc8_from-IsByte xs 0 (omega arith) hx) hy
    ∙ sym (crc8_from-append 0 xs ys)
