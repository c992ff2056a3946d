-- ===== src/Base/Sorting.antt =====
-- Go's `sort.Strings` and `sort.SliceStable`, as insertion sorts: what a stable sort returns is fixed
-- by the order, whatever the algorithm.
pub mod Laws
use Prim.Native.String.{String, compare}
use Prim.Native.Nat.{Ordering}
use zerobased.Base.Equality.{if◌then◌else◌}
use mathlib.Core.Bool.{Bool, true, false}
use mathlib.Core.List.{List, [], ◌∷◌}

module _ {ℓ} {A : Type ℓ} (less : A → A → Bool) where
  -- Before the first element that is not less than this one.
  unfoldable pub insert_sorted : A → List A → List A
  insert_sorted a [] = a ∷ []
  insert_sorted a (b ∷ bs) = if less b a then b ∷ insert_sorted a bs else a ∷ b ∷ bs

  unfoldable pub sort_stable : List A → List A
  unfolding insert_sorted
  sort_stable [] = []
  sort_stable (a ∷ rest) = insert_sorted a (sort_stable rest)

-- Go's `<` on strings.
abbrev pub string_less : String → String → Bool
string_less s t = elim (compare s t) [ Ordering.lt ↦ true | _ ↦ false ]

unfoldable pub sort_strings : List String → List String
unfolding sort_stable
sort_strings = sort_stable string_less
