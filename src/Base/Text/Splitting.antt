-- ===== src/Base/Text/Splitting.antt =====
-- Go's `strings.Split` takes apart what `strings.Join` has put together.
use Prim.Native.Char.{Char, code}
use Prim.Native.String.{String, [], ◌∷◌, ◌++◌}
use mathlib.Core.Path.{◌≡◌, refl, ap, ◌∙◌}
use mathlib.Core.Bool.{Bool, true, false, not, ◌&&◌}
use mathlib.Core.List.{List}
use native.Mathlib.Omega.{arith}
use text.Mathlib.TextLemmas.{nil-append, cons-append}
use zerobased.Base.Equality.{◌==◌, nat_eq}
use zerobased.Base.Lists.{All}
use zerobased.Base.Text.{join, split}

-- No character of the text is the separator.
abbrev pub lacks : Char → String → Bool
lacks ch [] = true
lacks ch (c ∷ s) = not (code c == code ch) && lacks ch s

pub split-lacks : (ch : Char) (s : String) → lacks ch s ≡ true → split s ch ≡ List.◌∷◌ s List.[]
unfolding split
split-lacks ch [] h = refl
split-lacks ch (c ∷ s) h = ground (arith, split-lacks ch s)

same_code : (ch : Char) → (code ch == code ch) ≡ true
same_code ch = ground arith

pub split-cons : (ch : Char) (s : String) → split (ch ∷ s) ch ≡ List.◌∷◌ "" (split s ch)
unfolding split
split-cons ch s = rw (same_code ch) refl

-- Another character goes to the first part.
split_other :
    (ch c : Char) (p s : String) (parts : List String)
    → (code c == code ch) ≡ false
    → split s ch ≡ List.◌∷◌ p parts
    → split (c ∷ s) ch ≡ List.◌∷◌ (c ∷ p) parts
unfolding split
split_other ch c p s parts other e = rw (other, e) refl

pub split-append :
    (ch : Char) (p s : String)
    → lacks ch p ≡ true
    → split (p ++ (ch ∷ s)) ch ≡ List.◌∷◌ p (split s ch)
split-append ch [] s h = ap (λ (x : String). split x ch) (nil-append (ch ∷ s)) ∙ split-cons ch s
split-append ch (c ∷ p) s h =
    ap (λ (x : String). split x ch) (cons-append c p (ch ∷ s))
    ∙ split_other ch c p (p ++ (ch ∷ s)) (split s ch) (ground arith)
        (split-append ch p s (ground arith))

pub split-join :
    (ch : Char) (p : String) (ps : List String)
    → All (λ q. lacks ch q ≡ true) (List.◌∷◌ p ps)
    → split (join (List.◌∷◌ p ps) (ch ∷ [])) ch ≡ List.◌∷◌ p ps
unfolding join
split-join ch p List.[] (h, _) = split-lacks ch p h
split-join ch p (List.◌∷◌ q ps) (h, rest) =
    ap (λ (x : String). split (p ++ x) ch)
      (cons-append ch [] (join (List.◌∷◌ q ps) (ch ∷ []))
        ∙ ap (λ (x : String). ch ∷ x) (nil-append (join (List.◌∷◌ q ps) (ch ∷ []))))
    ∙ split-append ch p (join (List.◌∷◌ q ps) (ch ∷ [])) h
    ∙ ap (λ (x : List String). List.◌∷◌ p x) (split-join ch q ps rest)
