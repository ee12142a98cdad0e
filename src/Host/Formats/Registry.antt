-- ===== src/Host/Formats/Registry.antt =====
-- The format registry as a finite map from names.
use embed_bench.Prelude.{
  ℕ, zero, suc, ◌+◌, ◌%◌, ◌≤◌, ◌<◌, ◌≡◌, ◌≢◌, refl, sym, ap, ◌∙◌, subst, true, false, none, some,
  ltb, str_eq, str_eq→eq, Bool-cases, List, [], ◌∷◌, arith, length, take, str_eq_refl, Option-cases,
  inl, inr,
}
use embed_bench.Label.{fit}
use embed_bench.Host.State.{FormatSlot}
use embed_bench.Host.Formats.{
  Registration, find_format, take_format, register, known, added, conflict,
}

take_whole : (n : ℕ) (xs : List ℕ) → length xs ≤ n → take n xs ≡ xs
take_whole zero [] h = refl
take_whole zero (x ∷ xs) h = absurd (omega arith)
take_whole (suc n) [] h = refl
take_whole (suc n) (x ∷ xs) h = ap (λ ys. x ∷ ys) (take_whole n xs (omega arith))

abbrev named : List ℕ → ℕ → FormatSlot
named name schema = record { used = true; name = name; schema = schema }

find_format-take_format :
    (fs : List FormatSlot) (name : List ℕ) (schema i k : ℕ) (fs' : List FormatSlot)
    → take_format fs (named name schema) i ≡ some (k, fs')
    → find_format fs name i ≡ none
    → find_format fs' name i ≡ some (k, named name schema)
unfolding find_format take_format
find_format-take_format [] name schema i k fs' e free = cc
find_format-take_format (f ∷ fs) name schema i k fs' e free =
    elim (Option-cases (take_format fs (named name schema) (i + 1))) [
      | inl n ↦ ground (arith, e, n, free, str_eq_refl name)
      | inr ((j, rest), n) ↦
          let behind : find_format fs name (i + 1) ≡ none = ground (arith, free) in
          ground (
            arith,
            e,
            n,
            free,
            str_eq_refl name,
            find_format-take_format fs name schema (i + 1) j rest n behind,
          )
    ]

-- A format that was found stays where it is when another name takes a slot.
find_format-kept :
    (fs : List FormatSlot) (name : List ℕ) (new f : FormatSlot) (i j k : ℕ) (fs' : List FormatSlot)
    → take_format fs new i ≡ some (j, fs')
    → find_format fs name i ≡ some (k, f)
    → str_eq new.name name ≡ false
    → find_format fs' name i ≡ some (k, f)
unfolding find_format take_format
find_format-kept [] name new f i j k fs' e there other = cc
find_format-kept (g ∷ gs) name new f i j k fs' e there other =
    elim (Option-cases (take_format gs new (i + 1))) [
      | inl n ↦ ground (arith, e, n, there, other)
      | inr ((m, rest), n) ↦
          let kept = find_format-kept gs name new f (i + 1) m k rest n in
          ground (arith, e, n, there, other, kept)
    ]

-- The registry after one registration more, and after many.
abbrev pub registered : Registration → List FormatSlot → List FormatSlot
registered (added id fs') fs = fs'
registered _ fs = fs

abbrev pub register_all : List (List ℕ × ℕ) → List FormatSlot → List FormatSlot
register_all [] fs = fs
register_all ((name, schema) ∷ rest) fs =
    register_all rest (registered (register fs name schema) fs)

-- The name stands in the registry in slot `k`, for the schema.
Stands : List ℕ → (schema k : ℕ) → List FormatSlot → Type 0
Stands name schema k fs =
    (f : FormatSlot) × (find_format fs name 0 ≡ some (k, f)) × (f.schema ≡ schema)

registered-Stands :
    (fs : List FormatSlot) (name other : List ℕ) (schema k s : ℕ)
    → Stands name schema k fs
    → Stands name schema k (registered (register fs other s) fs)
unfolding register fit Stands
registered-Stands fs name other schema k s (f, there, same) =
    elim (Option-cases (find_format fs other 0)) [
      | inr ((i, g), n) ↦ (f, ground (arith, n, there), same)
      | inl n ↦ elim (Option-cases (take_format fs (named (fit 20 other) s) 0)) [
        | inl m ↦ (f, ground (arith, n, m, there), same)
        | inr ((i, rest), m) ↦ elim (Bool-cases (str_eq (fit 20 other) name)) [
          | inl b ↦ elim (Bool-cases (ltb 19 (length other))) [
            | inl long ↦ (f, ground (arith, n, m, there, long), same)
            | inr short ↦
                let whole : fit 20 other ≡ other = take_whole 19 other (ground (arith, short)) in
                let called : other ≡ name = sym whole ∙ str_eq→eq (fit 20 other) name b in
                let found = ap (λ x. find_format fs x 0) called ∙ there in
                absurd (ground (arith, n, found))
          ]
          | inr b ↦
              let kept = find_format-kept fs name (named (fit 20 other) s) f 0 i k rest m there b in
              (f, ground (arith, n, m, there, kept), same)
        ]
      ]
    ]

register_all-Stands :
    (later : List (List ℕ × ℕ)) (fs : List FormatSlot) (name : List ℕ) (schema k : ℕ)
    → Stands name schema k fs
    → Stands name schema k (register_all later fs)
register_all-Stands [] fs name schema k h = h
register_all-Stands ((other, s) ∷ later) fs name schema k h =
    register_all-Stands later _ name schema k (registered-Stands fs name other schema k s h)

added-Stands :
    (fs : List FormatSlot) (name : List ℕ) (schema id : ℕ) (fs' : List FormatSlot)
    → register fs name schema ≡ added id fs'
    → (k : ℕ) × (id ≡ (k + 1) % 65536)
      × (0 < length name)
      × (length name ≤ 19)
      × Stands name schema k fs'
unfolding register fit Stands
added-Stands fs name schema id fs' e = elim (Option-cases (find_format fs name 0)) [
  | inr ((i, f), n) ↦ absurd (ground (arith, e, n))
  | inl n ↦ elim (Option-cases (take_format fs (named (fit 20 name) schema) 0)) [
    | inl m ↦ absurd (ground (arith, e, n, m))
    | inr ((i, rest), m) ↦
        let short : length name ≤ 19 = ground (arith, e, n, m) in
        let some_name : 0 < length name = ground (arith, e, n, m) in
        let whole : fit 20 name ≡ name = take_whole 19 name short in
        let held : take_format fs (named name schema) 0 ≡ some (i, rest) =
          subst (λ x. take_format fs (named x schema) 0 ≡ some (i, rest)) whole m in
        let there = find_format-take_format fs name schema 0 i rest held n in
        (
          i,
          ground (arith, e, n, m),
          some_name,
          short,
          (named name schema, ground (arith, e, n, m, there), refl),
        )
  ]
]

-- A registration that adds a format keeps its whole name from then on: after any further registrations,
-- whatever they are and whether they are refused or not, the same name and schema get the same number, and
-- the name under any other schema is refused as a conflict.
pub register_again :
    (fs : List FormatSlot) (name : List ℕ) (schema id : ℕ) (fs' : List FormatSlot)
    (later : List (List ℕ × ℕ))
    → register fs name schema ≡ added id fs'
    → (register (register_all later fs') name schema ≡ known id)
      × ((other : ℕ) → other ≢ schema → register (register_all later fs') name other ≡ conflict)
unfolding register Stands
register_again fs name schema id fs' later e =
    let (k, number, filled, short, stands) = added-Stands fs name schema id fs' e in
    let (f, there, same) = register_all-Stands later fs' name schema k stands in
    (
      ground (arith, number, filled, short, there, same),
      λ other ne. ground (arith, filled, short, there, same, ne),
    )
