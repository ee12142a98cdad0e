-- ===== src/Device/RegisterMap/Registers.antt =====
-- What is read from the register map is what was written last.
use embed_bench.Prelude.{
  ℕ, zero, suc, ◌<◌, ◌≡◌, refl, ap, ◌∙◌, true, List, [], ◌∷◌, ◌==◌, if◌then◌else◌, length, get_or,
  set, take, drop, length-set, arith,
}
use embed_bench.Device.Port.{Transfer}
use embed_bench.Device.RegisterMap.{RegisterMap, register_count, i2c_write, i2c_read}

abbrev pub repeated_start : Transfer
repeated_start = record { stop = true; continued = true }

-- A pointer write, and a read of one byte under a repeated start.
abbrev pub fetch : ℕ → RegisterMap → List ℕ
fetch reg c = (i2c_read 1 repeated_start (i2c_write (reg ∷ []) c).1).0

fetch_lem :
    (reg : ℕ) (c : RegisterMap) → reg < register_count → fetch reg c ≡ take 1 (drop reg c.regs)
unfolding i2c_write i2c_read
fetch_lem reg c h = ground (arith, h)

take-drop_one : (xs : List ℕ) (i : ℕ) → i < length xs → take 1 (drop i xs) ≡ get_or xs i 0 ∷ []
take-drop_one [] i h = absurd (omega (arith, h))
take-drop_one (x ∷ xs) zero h = refl
take-drop_one (x ∷ xs) (suc i) h = take-drop_one xs i (omega (arith, h))

get_or-set :
    (xs : List ℕ) (i j v : ℕ)
    → i < length xs
    → get_or (set xs i v) j 0 ≡ (if j == i then v else get_or xs j 0)
get_or-set [] i j v h = absurd (omega (arith, h))
get_or-set (x ∷ xs) zero zero v h = refl
get_or-set (x ∷ xs) zero (suc j) v h = ground arith
get_or-set (x ∷ xs) (suc i) zero v h = ground arith
get_or-set (x ∷ xs) (suc i) (suc j) v h = ground (arith, get_or-set xs i j v (omega (arith, h)))

write_lem :
    (reg value : ℕ) (c : RegisterMap)
    → reg < register_count
    → (i2c_write (reg ∷ value ∷ []) c).1 ≡ record c { regs = set c.regs reg value; pointer = reg }
unfolding i2c_write
write_lem reg value c h = ground (arith, h)

-- After a write to one of the four registers, a read of any register under a repeated start brings the
-- value written if it is that register, and what the register had before if it is another.
pub fetch-i2c_write :
    (reg other value : ℕ) (c : RegisterMap)
    → length c.regs ≡ register_count
    → reg < register_count
    → other < register_count
    → fetch other (i2c_write (reg ∷ value ∷ []) c).1
      ≡ (if other == reg then value else get_or c.regs other 0) ∷ []
fetch-i2c_write reg other value c l h k =
    ap (fetch other) (write_lem reg value c h)
    ∙ fetch_lem other _ k
    ∙ take-drop_one (set c.regs reg value) other (omega (arith, length-set c.regs reg value, l, k))
    ∙ ap (λ v. v ∷ []) (get_or-set c.regs reg other value (omega (arith, l, h)))
