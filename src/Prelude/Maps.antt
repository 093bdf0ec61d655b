-- ===== src/Prelude/Maps.antt =====
-- Go maps with string keys, as association lists.
use mathlib.Core.Path.{◌≡◌, refl}
use mathlib.Core.List.{List, [], ◌∷◌}
use mathlib.Core.Option.{Option, none, some}
use native.Mathlib.Omega.{arith}
use wallet_scan.Prelude.Tests.{◌==◌, if◌then◌else◌}
use wallet_scan.Prelude.Texts.{Text, text_eq, text_beq_iff}

abbrev pub Map {ℓ} : Type ℓ → Type ℓ
Map V = List (Text × V)

module _ {ℓ} {V : Type ℓ} where
  unfoldable pub lookup : Text → Map V → Option V
  lookup k [] = none
  lookup k ((j, v) ∷ m) = if j == k then some v else lookup k m

  unfoldable pub insert : Text → V → Map V → Map V
  insert name new [] = (name, new) ∷ []
  insert name new ((other, old) ∷ rest) =
      let changed = insert name new rest in
      if other == name then (name, new) ∷ rest else (other, old) ∷ changed

  -- An insertion changes the value of its own key only.
  pub lookup-insert :
      (name asked : Text) (new : V) (entries : Map V)
      → lookup asked (insert name new entries)
        ≡ (if name == asked then some new else lookup asked entries)
  unfolding lookup insert
  lookup-insert name asked new [] = refl
  lookup-insert name asked new ((other, old) ∷ rest) = ground (
    arith,
    text_beq_iff name asked,
    text_beq_iff other name,
    text_beq_iff other asked,
    lookup-insert name asked new rest,
  )
