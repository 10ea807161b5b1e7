-- ===== src/Common/Options.antt =====
-- Python's `None` tests and `x or y` on options, and what the program asks of texts.
use Prim.Native.String.{String}
use mathlib.Core.Path.{◌≡◌, refl, sym}
use mathlib.Core.Logic.{◌⊎◌, inl, inr}
use mathlib.Core.Bool.{Bool, true, false, not}
use mathlib.Core.Option.{Option, none, some}
use text.Mathlib.Text.{◌==◌ as str_eq}
use text.Mathlib.TextEquality.{eq_iff}
use native.Mathlib.Omega.{arith}
use daily_firehose.Common.Tests.{if◌then◌else◌, Bool-cases}

abbrev pub is_some {ℓ} : {A : Type ℓ} → Option A → Bool
is_some none = false
is_some (some x) = true

abbrev pub is_none {ℓ} : {A : Type ℓ} → Option A → Bool
is_none none = true
is_none (some x) = false

pub Option-cases {ℓ} : {A : Type ℓ} (o : Option A) → (o ≡ none) ⊎ ((a : A) × (o ≡ some a))
Option-cases none = inl refl
Option-cases (some a) = inr (a, refl)

-- `bool(text)`
abbrev pub truthy : String → Bool
truthy s = not (str_eq s "")

-- `a or b` on texts
abbrev pub or_else : String → String → String
or_else a b = if truthy a then a else b

pub other_text : (a b : String) → str_eq a b ≡ false → str_eq b a ≡ false
other_text a b h = elim (Bool-cases (str_eq b a)) [
  | inl q ↦ ground (arith, h, (eq_iff a b).1 (sym ((eq_iff b a).0 q)))
  | inr q ↦ q
]
