-- ===== src/Base/Texts.antt =====
-- Tests on whole texts.
use Prim.Native.String.{String}
use mathlib.Core.Bool.{Bool, true}
use mathlib.Core.Path.{◌≡◌, refl, sym, ◌∙◌}
use mathlib.Core.Logic.{inl, inr}
use text.Mathlib.Text.{◌==◌}
use text.Mathlib.TextEquality.{eq_iff}
use alpagym.Base.Tests.{Bool-cases}

abbrev pub same_text : String → String → Bool
same_text a b = a == b

-- Python's `not s` on a str.
abbrev pub is_empty_text : String → Bool
is_empty_text s = same_text s ""

pub same_text_comm : (a b : String) → same_text a b ≡ same_text b a
same_text_comm a b = elim (Bool-cases (same_text a b)) [
  | inl t ↦ let e = (eq_iff a b).0 t in rw e refl
  | inr f ↦ elim (Bool-cases (same_text b a)) [
    | inl t ↦ let e = (eq_iff b a).0 t in rw e refl
    | inr g ↦ f ∙ sym g
  ]
]

pub same_text_refl : (a : String) → same_text a a ≡ true
same_text_refl a = (eq_iff a a).1 refl
