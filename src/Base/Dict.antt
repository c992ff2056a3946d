-- ===== src/Base/Dict.antt =====
-- Go's `map[string]V` as an association list with one entry for a key. Where the program ranges
-- over a map, the model ranges over the entries in the order of the list, which stands for any order.
use mathlib.Core.List
use zerobased.Base.Equality.{if◌then◌else◌, ◌==◌, string_eq}
use Prim.Native.String.{String}
use mathlib.Core.Path.{◌≡◌, refl}
use mathlib.Core.Option.{Option, none, some}
use mathlib.Core.List.{List, [], ◌∷◌}
use native.Mathlib.Omega.{arith}

abbrev pub Dict {ℓ} : Type ℓ → Type ℓ
Dict V = List (String × V)

module _ {ℓ} {V : Type ℓ} where
  unfoldable pub keys : Dict V → List String
  keys = List.map (λ (k, _). k)

  -- `m[k]`, with `ok`
  unfoldable pub lookup : String → Dict V → Option V
  lookup k [] = none
  lookup k ((j, v) ∷ d) = if j == k then some v else lookup k d

  -- `m[k] = v`
  unfoldable pub insert : String → V → Dict V → Dict V
  insert k v [] = (k, v) ∷ []
  insert k v ((j, w) ∷ d) = if j == k then (k, v) ∷ d else (j, w) ∷ insert k v d

  -- `delete(m, k)`
  unfoldable pub erase : String → Dict V → Dict V
  erase k [] = []
  erase k ((j, w) ∷ d) = let rest = erase k d in if j == k then rest else (j, w) ∷ rest

  pub lookup-insert :
      (j k : String) (v : V) (d : Dict V)
      → lookup j (insert k v d) ≡ (if k == j then some v else lookup j d)
  unfolding insert lookup
  lookup-insert j k v [] = refl
  lookup-insert j k v (_ ∷ d) = ground (arith, lookup-insert j k v d)

  pub lookup-erase :
      (j k : String) (d : Dict V) → lookup j (erase k d) ≡ (if k == j then none else lookup j d)
  unfolding erase lookup
  lookup-erase j k [] = ground arith
  lookup-erase j k (_ ∷ d) = ground (arith, lookup-erase j k d)

  pub lookup-empty : (k : String) → lookup k [] ≡ none
  unfolding lookup
  lookup-empty k = refl

  pub insert-insert : (k : String) (v w : V) (d : Dict V) → insert k v (insert k w d) ≡ insert k v d
  unfolding insert
  insert-insert k v w [] = ground arith
  insert-insert k v w (_ ∷ d) = ground (arith, insert-insert k v w d)

  pub erase-insert : (k : String) (v : V) (d : Dict V) → erase k (insert k v d) ≡ erase k d
  unfolding insert erase
  erase-insert k v [] = ground arith
  erase-insert k v (_ ∷ d) = ground (arith, erase-insert k v d)

  pub erase-free : (k : String) (d : Dict V) → lookup k d ≡ none → erase k d ≡ d
  unfolding lookup erase
  erase-free k [] free = refl
  erase-free k (_ ∷ d) free = ground (arith, erase-free k d)

  -- Each key has one entry, as in a Go map.
  abbrev pub NodupKeys : Dict V → Type ℓ
  NodupKeys [] = Unit
  NodupKeys ((k, _) ∷ d) = (lookup k d ≡ none) × NodupKeys d

  pub insert-NodupKeys : (k : String) (v : V) (d : Dict V) → NodupKeys d → NodupKeys (insert k v d)
  unfolding insert
  insert-NodupKeys k v [] _ = (lookup-empty k, tt)
  insert-NodupKeys k v ((j, _) ∷ d) (fresh, u) =
      ground (arith, insert-NodupKeys k v d u, lookup-insert j k v d)

  pub erase-NodupKeys : (k : String) (d : Dict V) → NodupKeys d → NodupKeys (erase k d)
  unfolding erase
  erase-NodupKeys k [] _ = tt
  erase-NodupKeys k ((j, _) ∷ d) (fresh, u) =
      ground (arith, erase-NodupKeys k d u, lookup-erase j k d)

  module _ {κ} (P : String → V → Type κ) where
    -- What holds of every entry.
    abbrev pub Entries : Dict V → Type κ
    Entries [] = Unit
    Entries ((k, v) ∷ d) = P k v × Entries d

    pub insert-Entries :
        (k : String) (v : V) (d : Dict V) → P k v → Entries d → Entries (insert k v d)
    unfolding insert
    insert-Entries k v [] p _ = (p, tt)
    insert-Entries k v ((j, w) ∷ d) p (q, h) = ground (arith, insert-Entries k v d p h)

    pub erase-Entries : (k : String) (d : Dict V) → Entries d → Entries (erase k d)
    unfolding erase
    erase-Entries k [] _ = tt
    erase-Entries k ((j, w) ∷ d) (q, h) = ground (arith, erase-Entries k d h)

    pub lookup-Entries : (k : String) (v : V) (d : Dict V) → Entries d → lookup k d ≡ some v → P k v
    unfolding lookup
    lookup-Entries k v [] _ e = cc
    lookup-Entries k v ((j, w) ∷ d) (q, h) e = ground (arith, lookup-Entries k v d h)

pub ruleset dict_laws = (lookup-insert, lookup-erase, lookup-empty)
