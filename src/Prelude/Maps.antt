-- ===== src/Prelude/Maps.antt =====
-- JavaScript's `Map` and `Record` over text keys, by what `get` returns. A loop that deletes the
-- entries failing a test is `retain`.
use Prim.Native.String.{String}
use mathlib.Core.Bool.{Bool}
use mathlib.Core.Option.{Option, none, some}
use text.Mathlib.Text.{◌==◌}
use stellar_urithi_bidz.Prelude.Tests.{if◌then◌else◌}

abbrev pub StrMap {ℓ} : Type ℓ → Type ℓ
StrMap V = String → Option V

module _ {ℓ} {V : Type ℓ} where
  abbrev pub empty : StrMap V
  empty key = none

  abbrev pub insert : String → V → StrMap V → StrMap V
  insert key v m j = if key == j then some v else m j

  abbrev pub delete : String → StrMap V → StrMap V
  delete key m j = if key == j then none else m j

  abbrev pub retain : (V → Bool) → StrMap V → StrMap V
  retain keep m j = elim (m j) [ none ↦ none | some v ↦ if keep v then some v else none ]

  abbrev pub has : String → StrMap V → Bool
  has key m = elim (m key) [ none ↦ Bool.false | some v ↦ Bool.true ]
