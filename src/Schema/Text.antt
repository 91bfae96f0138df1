-- ===== src/Schema/Text.antt =====
-- The regular expressions of the schemas: a class of characters, and how many of them.
use Prim.Native.Char.{code}
use selfhost_models.Prelude.{
  ℕ, String, Bool, true, false, ◌&&◌, ◌||◌, List, [], ◌∷◌, leb, eqb, length, Option, none, some,
  if◌then◌else◌,
}

-- The code points of a text.
abbrev pub codes : String → List ℕ
codes String.[] = []
codes (String.◌∷◌ c s) = code c ∷ codes s

abbrev pub all_in : (ℕ → Bool) → List ℕ → Bool
all_in p [] = true
all_in p (c ∷ cs) = p c && all_in p cs

abbrev between : ℕ → ℕ → ℕ → Bool
between lo hi c = leb lo c && leb c hi

-- [0-9a-f]
abbrev pub hex : ℕ → Bool
hex c = between b'0' b'9' c || between b'a' b'f' c

-- [A-Za-z0-9]
abbrev pub alnum : ℕ → Bool
alnum c = between b'0' b'9' c || (between b'A' b'Z' c || between b'a' b'z' c)

-- [A-Za-z0-9_-]
abbrev pub identity_char : ℕ → Bool
identity_char c = alnum c || (eqb c b'_' || eqb c b'-')

-- [A-Za-z0-9_.-]
abbrev pub window_char : ℕ → Bool
window_char c = identity_char c || eqb c b'.'

-- [A-Za-z0-9_.:-]
abbrev pub key_char : ℕ → Bool
key_char c = window_char c || eqb c b':'

-- re.fullmatch(r"[...]{lo,hi}", text)
unfoldable pub full_match : (ℕ → Bool) → ℕ → ℕ → String → Bool
full_match p lo hi text =
    let cs = codes text in all_in p cs && (leb lo (length cs) && leb (length cs) hi)

-- the rest of a text behind a prefix
abbrev pub strip : List ℕ → List ℕ → Option (List ℕ)
strip [] cs = some cs
strip (p ∷ ps) [] = none
strip (p ∷ ps) (c ∷ cs) = if eqb p c then strip ps cs else none

-- re.fullmatch(r"prefix[0-9a-f]{n}", text)
unfoldable pub hex_ref : String → ℕ → String → Bool
hex_ref prefix n text = elim (strip (codes prefix) (codes text)) [
  | none ↦ false
  | some cs ↦ all_in hex cs && eqb (length cs) n
]
