-- ===== src/Prelude/Tests.antt =====
-- Boolean tests on numbers and on nullable columns, and the conditional.
use Prim.Native.Nat.{ℕ, compare, Ordering}
use Prim.Native.String.{String}
use mathlib.Core.Path.{◌≡◌, refl}
use mathlib.Core.Logic.{◌↔◌, ◌⊎◌, inl, inr}
use mathlib.Core.Bool.{Bool, true, false}
use mathlib.Core.Option.{Option, none, some}
use native.Mathlib.Omega.{arith}
use text.Mathlib.Text.{◌==◌}

abbrev pub ltb : ℕ → ℕ → Bool
ltb a b = elim (compare a b) [ Ordering.lt ↦ true | _ ↦ false ]

abbrev pub leb : ℕ → ℕ → Bool
leb a b = elim (compare a b) [ Ordering.gt ↦ false | _ ↦ true ]

-- `==` is the equality of texts.
abbrev pub eqb : ℕ → ℕ → Bool
eqb a b = elim (compare a b) [ Ordering.eq ↦ true | _ ↦ false ]

infix 1 if◌then◌else◌
abbrev pub if◌then◌else◌ {ℓ} : {A : Type ℓ} → Bool → A → A → A
if true then x else y = x
if false then x else y = y

pub eqb_iff : (a b : ℕ) → (eqb a b ≡ true) ↔ (a ≡ b)
eqb_iff a b = ground arith

-- SQL's `column = ?` on a nullable column: NULL equals nothing.
abbrev pub is : Option String → String → Bool
is none b = false
is (some a) b = a == b

abbrev pub is_some {ℓ} : {A : Type ℓ} → Option A → Bool
is_some none = false
is_some (some a) = true

-- SQL's COALESCE and Python's `x or y` on a nullable value
abbrev pub coalesce {ℓ} : {A : Type ℓ} → Option A → Option A → Option A
coalesce none b = b
coalesce (some a) b = some a

pub Bool-cases : (b : Bool) → (b ≡ true) ⊎ (b ≡ false)
Bool-cases true = inl refl
Bool-cases false = inr refl

pub Option-cases {ℓ} : {A : Type ℓ} (o : Option A) → (o ≡ none) ⊎ ((a : A) × (o ≡ some a))
Option-cases none = inl refl
Option-cases (some a) = inr (a, refl)

-- Python's `a == b` on values that may be None
abbrev pub same : Option String → Option String → Bool
same none none = true
same (some a) (some b) = a == b
same _ _ = false

-- Python's truth of a text that may be None
abbrev pub truthy : Option String → Bool
truthy none = false
truthy (some a) = if a == "" then false else true

-- Python's `a or b` on texts that may be None
abbrev pub or_else : Option String → Option String → Option String
or_else a b = if truthy a then a else b

pub leb-ltb : (a b : ℕ) → leb a b ≡ false → ltb b a ≡ true
leb-ltb a b h = ground arith
