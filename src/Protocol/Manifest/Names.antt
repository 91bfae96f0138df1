-- ===== src/Protocol/Manifest/Names.antt =====
-- The names of assets that validate_manifest of selfhost_models/execution_protocol.py accepts.
use selfhost_models.Prelude.{
  ℕ, String, Bool, true, false, ◌&&◌, ◌||◌, Option, none, some, List, [], ◌∷◌, arith, ◌≡◌, refl,
  length, ltb, eqb, ◌≤◌, if◌then◌else◌, Bool-cases, inl, inr,
}
use selfhost_models.Sql.{exists}
use selfhost_models.Sql.Laws.{All}
use selfhost_models.Action.{ok}
use selfhost_models.Action.Laws.{Result-cases}
use selfhost_models.Schema.Text.{codes}
use selfhost_models.Protocol.Manifest.{
  Entry, Manifest, split, is_dots, bad_name, bad_entry, check_entries, validate_manifest,
}

-- The part "..", which leads to the parent directory.
abbrev pub is_parent : List ℕ → Bool
is_parent (c ∷ d ∷ []) = eqb c b'.' && eqb d b'.'
is_parent _ = false

-- The parts "" and ".", which stay.
abbrev pub is_same : List ℕ → Bool
is_same [] = true
is_same (c ∷ []) = eqb c b'.'
is_same _ = false

-- Where a path leads from a directory, the directory as its names, the last one first: "" and "."
-- stay, ".." goes up, and none is a way out of the root.
pub walk : List (List ℕ) → List (List ℕ) → Option (List (List ℕ))
walk at [] = some at
walk at (p ∷ ps) =
    if is_parent p
    then elim at [ [] ↦ none | q ∷ qs ↦ walk qs ps ]
    else if is_same p
    then walk at ps
    else walk (p ∷ at) ps

-- the parts put on a directory, one after the other
pub onto : List (List ℕ) → List (List ℕ) → List (List ℕ)
onto at [] = at
onto at (p ∷ ps) = onto (p ∷ at) ps

plain-part : (p : List ℕ) → is_dots p ≡ false → (is_parent p ≡ false) × (is_same p ≡ false)
plain-part [] h = absurd (ground arith)
plain-part (c ∷ []) h = (refl, h)
plain-part (c ∷ d ∷ []) h = (h, refl)
plain-part (c ∷ d ∷ e ∷ cs) h = (refl, refl)

walk-onto : (at ps : List (List ℕ)) → exists is_dots ps ≡ false → walk at ps ≡ some (onto at ps)
unfolding walk onto exists
walk-onto at [] h = refl
walk-onto at (p ∷ ps) h = elim (Bool-cases (is_dots p)) [
  | inl k ↦ absurd (ground arith)
  | inr k ↦ let (a, b) = plain-part p k in rw (a, b) (walk-onto (p ∷ at) ps (ground arith))
]

-- A name leads down from the directory that the assets are in, one part after the other.
abbrev pub IsInside : Entry → Type 0
IsInside e = walk [] (split (codes e.name)) ≡ some (onto [] (split (codes e.name)))

last_of_four : (a b c d : Bool) → (a || (b || (c || d))) ≡ false → d ≡ false
last_of_four a b c d h = ground arith

inside : (e : Entry) → bad_name (codes e.name) ≡ false → IsInside e
unfolding bad_name
inside e h = walk-onto [] (split (codes e.name)) (search last_of_four)

check_entries-All : (es : Manifest) → check_entries es ≡ ok tt → All IsInside es
unfolding check_entries
check_entries-All [] h = tt
check_entries-All (e ∷ es) h = elim (Bool-cases (bad_name (codes e.name))) [
  | inl k ↦ absurd (ground (arith, k))
  | inr k ↦ elim (Bool-cases (bad_entry e)) [
    | inl l ↦ absurd (ground (arith, k, l))
    | inr l ↦ (inside e k, check_entries-All es (rw (k, l) at h))
  ]
]

-- A manifest that validate_manifest accepts has at most 10000 entries, each of whose names leads
-- down from the asset's directory, part by part and never out of it.
pub validate_manifest-IsInside :
    (digest : Manifest → String) (size : Manifest → ℕ) (m : Manifest) (ref : String)
    → validate_manifest digest size m ≡ ok ref
    → (length m ≤ 10000) × (size m ≤ 2097152) × All IsInside m
unfolding validate_manifest
validate_manifest-IsInside digest size m ref h =
    elim (Bool-cases (eqb (length m) 0 || ltb 10000 (length m))) [
      | inl e ↦ absurd (ground (arith, e))
      | inr e ↦ elim (Result-cases (check_entries m)) [
        | inl (x, k) ↦ absurd (ground (arith, rw (e, k) at h))
        | inr (u, k) ↦ elim (Bool-cases (ltb 2097152 (size m))) [
          | inl l ↦ absurd (ground (arith, rw (e, k, l) at h))
          | inr l ↦ (ground (arith, e), ground (arith, l), check_entries-All m k)
        ]
      ]
    ]
