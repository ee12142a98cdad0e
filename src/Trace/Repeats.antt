-- ===== src/Trace/Repeats.antt =====
-- Sums of the repeat counts over the slots that a fold takes together.
use Prim.Native.Nat.add
use native.Mathlib.Numerals.{add-one}
use embed_bench.Prelude.{
  ℕ, zero, suc, ◌+◌, ◌-◌, ◌*◌, ◌%◌, ◌≤◌, ◌<◌, ◌≡◌, refl, List, [], ◌∷◌, ◌++◌, arith, length, get_or,
  take, drop, sum_of, sum_of-append, length-append, length-take, length-drop, ap,
}
use embed_bench.Trace.Buffer.{Event, blank, word32}
use embed_bench.Trace.Cycle.{Keys, Cycle, removed}
use embed_bench.Trace.Fold.{total_repeats, fold_heads, splice}
use embed_bench.Trace.Shape.{shape_heads}

-- How many events a buffer stands for.
abbrev pub total : List Event → ℕ
total = sum_of (λ e. e.repeats)

module _ (buf : List Event) where
  -- The repeats of the `n` slots from `i` on.
  abbrev span : ℕ → ℕ → ℕ
  span zero i = 0
  span (suc n) i = (get_or buf i blank).repeats + span n (i + 1)

  span-add : (a b i j : ℕ) → j ≡ i + a → span (a + b) i ≡ span a i + span b j
  span-add zero b i j e = let e' : j ≡ i = omega arith in rw (e', add.zero b) (omega arith)
  span-add (suc a) b i j e = rw (add.suc a b) (omega (arith, span-add a b (i + 1) j (omega arith)))

  module _ (width : ℕ) where
    abbrev totals : ℕ → ℕ → ℕ → ℕ
    totals copies zero i = 0
    totals copies (suc n) i = total_repeats buf width copies i + totals copies n (i + 1)

    totals-suc :
        (copies n i j : ℕ)
        → j ≡ i + width
        → totals (suc copies) n i % word32 ≡ (span n i + totals copies n j) % word32
    unfolding total_repeats
    totals-suc copies zero i j e = refl
    totals-suc copies (suc n) i j e =
        rw (← e) (omega (arith, totals-suc copies n (i + 1) (j + 1) (omega arith)))

    totals_zero : (n i : ℕ) → totals 0 n i ≡ 0
    unfolding total_repeats
    totals_zero zero i = refl
    totals_zero (suc n) i = omega (arith, totals_zero n (i + 1))

    -- The totals of the first copy's slots are the repeats of all slots of the cycle.
    totals-span : (copies i : ℕ) → totals copies width i % word32 ≡ span (width * copies) i % word32
    totals-span zero i = let e : width * 0 ≡ 0 = omega arith in rw (totals_zero width i, e) refl
    totals-span (suc copies) i = rw (mul_suc' copies) (
        omega (
          arith,
          totals-suc copies width i (i + width) refl,
          totals-span copies (i + width),
          span-add width (width * copies) i (i + width) refl,
        ))
      where
        mul_suc' : (c : ℕ) → width * suc c ≡ width + width * c
        mul_suc' c = omega arith

    total-fold_heads :
        (c : Cycle) (n i : ℕ) → c.width ≡ width → total (fold_heads buf c n i) ≡ totals c.copies n i
    unfolding fold_heads
    total-fold_heads c zero i e = refl
    total-fold_heads c (suc n) i e = rw e (omega (arith, total-fold_heads c n (i + 1) e))

    total-shape_heads :
        (shapes : Keys) (c : Cycle) (n i : ℕ)
        → c.width ≡ width
        → total (shape_heads buf shapes c n i) ≡ totals c.copies n i
    unfolding shape_heads
    total-shape_heads shapes c zero i e = refl
    total-shape_heads shapes c (suc n) i e =
        rw e (omega (arith, total-shape_heads shapes c n (i + 1) e))

length-fold_heads : (buf : List Event) (c : Cycle) (n i : ℕ) → length (fold_heads buf c n i) ≡ n
unfolding fold_heads
length-fold_heads buf c zero i = refl
length-fold_heads buf c (suc n) i = ap suc (length-fold_heads buf c n (i + 1))

length-shape_heads :
    (buf : List Event) (shapes : Keys) (c : Cycle) (n i : ℕ)
    → length (shape_heads buf shapes c n i) ≡ n
unfolding shape_heads
length-shape_heads buf shapes c zero i = refl
length-shape_heads buf shapes c (suc n) i = ap suc (length-shape_heads buf shapes c n (i + 1))

span-cons : (e : Event) (buf : List Event) (n i : ℕ) → span (e ∷ buf) n (suc i) ≡ span buf n i
span-cons e buf zero i = refl
span-cons e buf (suc n) i =
    rw (add-one i, add-one (suc i))
      (ap (λ k. (get_or buf i blank).repeats + k) (span-cons e buf n (suc i)))

total-span :
    (buf : List Event) (m : ℕ) → m ≤ length buf → span buf m 0 + total (drop m buf) ≡ total buf
total-span buf zero h = omega arith
total-span [] (suc m) h = absurd (omega arith)
total-span (e ∷ buf) (suc m) h =
    rw (add.zero 1) (omega (arith, span-cons e buf m 0, total-span buf m (omega arith)))

-- A buffer is what stands before a cycle, the cycle, and what stands after it.
total-split :
    (buf : List Event) (start m : ℕ)
    → start + m ≤ length buf
    → total (take start buf) + span buf m start + total (drop (start + m) buf) ≡ total buf
total-split buf zero m h = rw (add.zero m) (omega (arith, total-span buf m (omega arith)))
total-split [] (suc start) m h = absurd (omega arith)
total-split (e ∷ buf) (suc start) m h =
    rw (add.suc start m)
      (omega (arith, span-cons e buf m start, total-split buf start m (omega arith)))

-- A cycle that lies in the buffer, with at least one copy.
pub record IsWithin (c : Cycle) (n : ℕ) : Type 0 where
  pub inside : c.start + c.width * c.copies ≤ n
  pub copied : 2 ≤ c.copies
  pub wide : 1 ≤ c.width

-- Folding keeps what the buffer stands for, modulo the 32 bits of a repeat count.
splice-total :
    (buf : List Event) (c : Cycle) (heads : List Event)
    → IsWithin c (length buf)
    → total heads % word32 ≡ totals buf c.width c.copies c.width c.start % word32
    → total (splice buf c heads) % word32 ≡ total buf % word32
splice-total buf c heads v h = omega (
  arith,
  sum_of-append (λ (e : Event). e.repeats) (take c.start buf)
      (heads ++ drop (c.start + c.width * c.copies) buf),
  sum_of-append (λ (e : Event). e.repeats) heads (drop (c.start + c.width * c.copies) buf),
  totals-span buf c.width c.copies c.start,
  total-split buf c.start (c.width * c.copies) v.inside,
)

pub total-fold :
    (buf : List Event) (c : Cycle)
    → IsWithin c (length buf)
    → total (splice buf c (fold_heads buf c c.width c.start)) % word32 ≡ total buf % word32
total-fold buf c v =
    splice-total buf c _ v
      (ap (λ k. k % word32) (total-fold_heads buf c.width c c.width c.start refl))

pub total-shape_fold :
    (buf : List Event) (shapes : Keys) (c : Cycle)
    → IsWithin c (length buf)
    → total (splice buf c (shape_heads buf shapes c c.width c.start)) % word32 ≡ total buf % word32
total-shape_fold buf shapes c v =
    splice-total buf c _ v
      (ap (λ k. k % word32) (total-shape_heads buf c.width shapes c c.width c.start refl))

removed-add : (w k : ℕ) → 1 ≤ k → w * (k - 1) + w ≡ w * k
removed-add w zero h = absurd (omega arith)
removed-add w (suc k) h = let e : suc k - 1 ≡ k = omega arith in rw e (omega arith)

splice-length :
    (buf : List Event) (c : Cycle) (heads : List Event)
    → IsWithin c (length buf)
    → length heads ≡ c.width
    → length (splice buf c heads) + removed c ≡ length buf
splice-length buf c heads v h = omega (
  arith,
  length-append (take c.start buf) (heads ++ drop (c.start + c.width * c.copies) buf),
  length-append heads (drop (c.start + c.width * c.copies) buf),
  length-take c.start buf,
  length-drop (c.start + c.width * c.copies) buf,
  removed-add c.width c.copies (omega arith),
  v.inside,
)

pub length-fold :
    (buf : List Event) (c : Cycle)
    → IsWithin c (length buf)
    → length (splice buf c (fold_heads buf c c.width c.start)) + removed c ≡ length buf
length-fold buf c v = splice-length buf c _ v (length-fold_heads buf c c.width c.start)

pub length-shape_fold :
    (buf : List Event) (shapes : Keys) (c : Cycle)
    → IsWithin c (length buf)
    → length (splice buf c (shape_heads buf shapes c c.width c.start)) + removed c ≡ length buf
length-shape_fold buf shapes c v =
    splice-length buf c _ v (length-shape_heads buf shapes c c.width c.start)

pub removed-pos : (c : Cycle) {n : ℕ} → IsWithin c n → 0 < removed c
removed-pos c v = go c.width c.copies v.wide v.copied
  where
    go : (w k : ℕ) → 1 ≤ w → 2 ≤ k → 0 < w * (k - 1)
    go w k h g = grind arith
