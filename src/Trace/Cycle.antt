-- ===== src/Trace/Cycle.antt =====
-- The search for a repeating cycle that `foldCycle` and `foldShapeCycle` share: both compare keys,
-- the one the texts and the other their shapes.
use embed_bench.Prelude.{
  ℕ, zero, suc, ◌+◌, ◌-◌, ◌*◌, Bool, true, ◌&&◌, List, [], ltb, if◌then◌else◌, length, get_or,
  str_eq,
}

abbrev pub Keys : Type 0
Keys = List (List ℕ)

-- The comparison loop: `width` keys from `a` on against those from `b` on.
unfoldable pub same : Keys → ℕ → ℕ → ℕ → Bool
same ks a b zero = true
same ks a b (suc width) = str_eq (get_or ks a []) (get_or ks b []) && same ks (a + 1) (b + 1) width

-- The `for (;;)` loop that counts the copies of a block. The number of keys is fuel enough.
unfoldable pub more_copies : ℕ → Keys → ℕ → ℕ → ℕ → ℕ
more_copies zero ks start width copies = copies
more_copies (suc fuel) ks start width copies =
    let next = start + width * copies in
    let rest = more_copies fuel ks start width (copies + 1) in
    if ltb (length ks) (next + width)
    then copies
    else if same ks start next width
    then rest
    else copies

unfoldable pub copies_of : Keys → ℕ → ℕ → ℕ
unfolding more_copies
copies_of ks start width = more_copies (length ks) ks start width 2

-- Where a block stands, how wide it is, and how often it stands there.
pub record Cycle : Type 0 where
  pub start : ℕ
  pub width : ℕ
  pub copies : ℕ

abbrev pub removed : Cycle → ℕ
removed c = c.width * (c.copies - 1)
