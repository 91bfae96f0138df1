-- ===== src/Protocol/Manifest.antt =====
-- validate_manifest of selfhost_models/execution_protocol.py. The types of a manifest's document
-- are the model's types.
pub mod Names
use selfhost_models.Prelude.{
  ℕ, String, Bool, true, false, ◌&&◌, ◌||◌, not, List, [], ◌∷◌, length, leb, ltb, eqb,
  if◌then◌else◌,
}
use Prim.Native.String.{◌++◌}
use selfhost_models.Sql.{exists}
use selfhost_models.Action.{Result, ok, err, value_error}
use selfhost_models.Schema.Text.{codes, all_in, hex}

pub record Entry : Type 0 where
  pub name : String
  pub size : ℕ
  pub sha256 : String

abbrev pub Manifest : Type 0
Manifest = List Entry

-- the first part of a split text, made longer
abbrev pub grow : ℕ → List (List ℕ) → List (List ℕ)
grow c [] = (c ∷ []) ∷ []
grow c (p ∷ ps) = (c ∷ p) ∷ ps

-- text.split("/"), on code points
unfoldable pub split : List ℕ → List (List ℕ)
split [] = [] ∷ []
split (c ∷ cs) = let ps = split cs in if eqb c b'/' then [] ∷ ps else grow c ps

-- p in ("", ".", "..")
abbrev pub is_dots : List ℕ → Bool
is_dots [] = true
is_dots (c ∷ []) = eqb c b'.'
is_dots (c ∷ d ∷ []) = eqb c b'.' && eqb d b'.'
is_dots _ = false

abbrev starts_slash : List ℕ → Bool
starts_slash [] = false
starts_slash (c ∷ cs) = eqb c b'/'

abbrev has_char : ℕ → List ℕ → Bool
has_char c cs = exists (λ d. eqb d c) cs

unfoldable pub bad_name : List ℕ → Bool
bad_name cs =
    starts_slash cs || (has_char b'\\' cs || (has_char b':' cs || exists is_dots (split cs)))

unfoldable pub bad_entry : Entry → Bool
bad_entry e = let cs = codes e.sha256 in not (eqb (length cs) 64) || not (all_in hex cs)

-- the loop over manifest.items(): what it raises, if anything
unfoldable pub check_entries : Manifest → Result Unit
check_entries [] = ok tt
check_entries (e ∷ es) =
    let rest = check_entries es in
    if bad_name (codes e.name)
    then err (value_error "invalid asset name")
    else if bad_entry e
    then err (value_error "invalid asset entry")
    else rest

-- The digest and the length of the manifest's canonical text are given.
unfoldable pub validate_manifest : (Manifest → String) → (Manifest → ℕ) → Manifest → Result String
validate_manifest digest size m =
    if eqb (length m) 0 || ltb 10000 (length m)
    then err (value_error "invalid manifest")
    else checked (check_entries m)
  where
    checked : Result Unit → Result String
    checked (err e) = err e
    checked (ok u) =
        if ltb 2097152 (size m)
        then err (value_error "manifest too large")
        else ok ("asset_" ++ digest m)
