-- ===== src/Base/Sorting/Laws.antt =====
-- A stable sort rearranges, and leaves no element behind a lesser one.
use mathlib.Core.List.{Perm}
use mathlib.Core.List.Perm
use zerobased.Base.Equality.{Bool-cases}
use zerobased.Base.Lists.{All}
use zerobased.Base.Sorting.{insert_sorted, sort_stable}
use mathlib.Core.Path.{◌≡◌}
use mathlib.Core.Logic.{inl, inr}
use mathlib.Core.Bool.{Bool, true, false}
use mathlib.Core.List.{List, [], ◌∷◌}
use native.Mathlib.Omega.{arith}

module _ {ℓ} {A : Type ℓ} (less : A → A → Bool) where
  insert_sorted-perm : (a : A) (bs : List A) → Perm (insert_sorted less a bs) (a ∷ bs)
  unfolding insert_sorted
  insert_sorted-perm a [] = Perm.refl (a ∷ [])
  insert_sorted-perm a (b ∷ bs) = elim (Bool-cases (less b a)) [
    | inl e ↦ rw e (Perm.trans (Perm.cons b (insert_sorted-perm a bs)) (Perm.swap a b bs))
    | inr e ↦ rw e (Perm.refl (a ∷ b ∷ bs))
  ]

  pub sort_stable-perm : (xs : List A) → Perm (sort_stable less xs) xs
  unfolding sort_stable
  sort_stable-perm [] = Perm.nil
  sort_stable-perm (a ∷ rest) =
      Perm.trans (insert_sorted-perm a (sort_stable less rest))
        (Perm.cons a (sort_stable-perm rest))

  -- No element is less than one that stands before it.
  abbrev pub IsSorted : List A → Type 0
  IsSorted [] = Unit
  IsSorted (a ∷ rest) = All (λ b. less b a ≡ false) rest × IsSorted rest

  module _ (asymmetric : (a b : A) → less a b ≡ true → less b a ≡ false)
      (negatively : (a b c : A) → less a b ≡ false → less b c ≡ false → less a c ≡ false) where
    All-insert_sorted :
        (a x : A) (bs : List A)
        → less x a ≡ false
        → All (λ b. less b a ≡ false) bs
        → All (λ b. less b a ≡ false) (insert_sorted less x bs)
    unfolding insert_sorted
    All-insert_sorted a x [] h k = (h, tt)
    All-insert_sorted a x (b ∷ bs) h k = ground (arith, All-insert_sorted a x bs h k.1)

    below :
        (a b : A) (bs : List A)
        → less b a ≡ false
        → All (λ c. less c b ≡ false) bs
        → All (λ c. less c a ≡ false) bs
    below a b [] h k = tt
    below a b (c ∷ bs) h k = (negatively c b a k.0 h, below a b bs h k.1)

    insert_sorted-IsSorted :
        (a : A) (bs : List A) → IsSorted bs → IsSorted (insert_sorted less a bs)
    unfolding insert_sorted
    insert_sorted-IsSorted a [] s = (tt, tt)
    insert_sorted-IsSorted a (b ∷ bs) s = elim (Bool-cases (less b a)) [
      | inl e ↦
          rw e (All-insert_sorted b a bs (asymmetric b a e) s.0, insert_sorted-IsSorted a bs s.1)
      | inr e ↦ rw e ((e, below a b bs e s.0), s)
    ]

    pub sort_stable-IsSorted : (xs : List A) → IsSorted (sort_stable less xs)
    unfolding sort_stable
    sort_stable-IsSorted [] = tt
    sort_stable-IsSorted (a ∷ rest) =
        insert_sorted-IsSorted a (sort_stable less rest) (sort_stable-IsSorted rest)
