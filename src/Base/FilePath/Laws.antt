-- ===== src/Base/FilePath/Laws.antt =====
-- Absolute paths by their elements, and their directories.
use Prim.Native.String.{String, ◌++◌ as ◌<>◌}
use mathlib.Core.Path.{◌≡◌, refl, sym, ap, ◌∙◌}
use mathlib.Core.Bool.{true, false}
use mathlib.Core.List.{List, [], ◌∷◌, ◌++◌, reverse, reverse_aux}
use mathlib.Core.Logic.{◌≢◌}
use native.Mathlib.Omega.{arith}
use text.Mathlib.TextLemmas.{nil-append, cons-append}
use zerobased.Base.Equality.{◌==◌, string_eq, nat_eq}
use zerobased.Base.Lists.{All}
use zerobased.Base.Text.{join, split, has_prefix}
use zerobased.Base.Text.Splitting.{lacks, split-lacks, split-cons, split-append, split-join}
use zerobased.Base.FilePath.{slash, resolve, clean, before_last, dir}

-- An element of a clean absolute path.
abbrev pub IsElement : String → Type 0
IsElement p =
    (lacks slash p ≡ true) × ((p == "") ≡ false) × ((p == ".") ≡ false) × ((p == "..") ≡ false)

abbrev pub absolute : List String → String
absolute ps = "/" <> join ps "/"

-- Each element with a slash behind it.
slashed : List String → String
slashed [] = ""
slashed (p ∷ ps) = p <> ("/" <> slashed ps)

slash_cons : (s : String) → "/" <> s ≡ String.◌∷◌ slash s
slash_cons s = cons-append slash "" s ∙ ap (λ (x : String). String.◌∷◌ slash x) (nil-append s)

slashed_root : (ps : List String) → slashed ("" ∷ ps) ≡ "/" <> slashed ps
unfolding slashed
slashed_root ps = nil-append ("/" <> slashed ps)

before_last-slashed : (ps : List String) (q : String) → before_last (ps ++ q ∷ []) ≡ slashed ps
unfolding slashed
before_last-slashed [] q = refl
before_last-slashed (p ∷ []) q = refl
before_last-slashed (p ∷ p' ∷ ps) q =
    ap (λ (x : String). p <> ("/" <> x)) (before_last-slashed (p' ∷ ps) q)

split_rooted : (s : String) → split ("/" <> s) slash ≡ "" ∷ split s slash
split_rooted s = ap (λ (x : String). split x slash) (slash_cons s) ∙ split-cons slash s

split-slash :
    (p s : String) → lacks slash p ≡ true → split (p <> ("/" <> s)) slash ≡ p ∷ split s slash
split-slash p s h =
    ap (λ (x : String). split (p <> x) slash) (slash_cons s) ∙ split-append slash p s h

split-slashed : (ps : List String) → All IsElement ps → split (slashed ps) slash ≡ ps ++ "" ∷ []
unfolding slashed
split-slashed [] h = split-lacks slash "" refl
split-slashed (p ∷ ps) ((lack, _, _, _), rest) =
    split-slash p (slashed ps) lack ∙ ap (λ (x : List String). p ∷ x) (split-slashed ps rest)

resolve_end : (kept : List String) → resolve true kept ("" ∷ []) ≡ reverse kept
unfolding resolve string_eq
resolve_end kept = refl

resolve_start : (parts : List String) → resolve true [] ("" ∷ parts) ≡ resolve true [] parts
unfolding resolve string_eq
resolve_start parts = refl

rooted : (s : String) → has_prefix ("/" <> s) "/" ≡ true
unfolding has_prefix nat_eq
rooted s = ap (λ (x : String). has_prefix x "/") (slash_cons s) ∙ refl

resolve-elements :
    (kept ps : List String)
    → All IsElement ps
    → resolve true kept (ps ++ "" ∷ []) ≡ reverse_aux kept ps
unfolding resolve
resolve-elements kept [] h = resolve_end kept
resolve-elements kept (p ∷ ps) ((_, filled, dot, up), rest) =
    rw (filled, dot, up, resolve) (resolve-elements (p ∷ kept) ps rest)

clean_rooted :
    (text : String)
    → has_prefix text "/" ≡ true
    → clean text ≡ absolute (resolve true [] (split text slash))
unfolding clean
clean_rooted text h = ground arith

clean-slashed : (ps : List String) → All IsElement ps → clean ("/" <> slashed ps) ≡ absolute ps
clean-slashed ps h =
    let text = "/" <> slashed ps in
    let parts : split text slash ≡ "" ∷ (ps ++ "" ∷ []) =
      split_rooted (slashed ps) ∙ ap (λ (x : List String). "" ∷ x) (split-slashed ps h) in
    let kept : resolve true [] (split text slash) ≡ ps =
      ap (λ (x : List String). resolve true [] x) parts
      ∙ resolve_start (ps ++ "" ∷ [])
      ∙ resolve-elements [] ps h in
    clean_rooted text (rooted (slashed ps)) ∙ ap (λ (x : List String). absolute x) kept

All-lacks : (ps : List String) → All IsElement ps → All (λ p. lacks slash p ≡ true) ps
All-lacks [] h = tt
All-lacks (p ∷ ps) ((lack, _, _, _), h) = (lack, All-lacks ps h)

split-absolute :
    (p : String) (ps : List String)
    → All IsElement (p ∷ ps)
    → split (absolute (p ∷ ps)) slash ≡ "" ∷ p ∷ ps
split-absolute p ps h =
    split_rooted (join (p ∷ ps) "/")
    ∙ ap (λ (x : List String). "" ∷ x) (split-join slash p ps (All-lacks (p ∷ ps) h))

split_snoc :
    (ps : List String) (p : String)
    → All IsElement (ps ++ p ∷ [])
    → split (absolute (ps ++ p ∷ [])) slash ≡ "" ∷ (ps ++ p ∷ [])
split_snoc [] p h = split-absolute p [] h
split_snoc (q ∷ ps) p h = split-absolute q (ps ++ p ∷ []) h

pub All-front : (ps : List String) (p : String) → All IsElement (ps ++ p ∷ []) → All IsElement ps
All-front [] p h = tt
All-front (q ∷ ps) p (e, h) = (e, All-front ps p h)

-- The directory of an absolute path is the path of the elements before the last; the root is its own.
pub dir-absolute :
    (ps : List String) (p : String)
    → All IsElement (ps ++ p ∷ [])
    → dir (absolute (ps ++ p ∷ [])) ≡ absolute ps
unfolding dir
dir-absolute ps p h =
    ap (λ (x : List String). clean (before_last x)) (split_snoc ps p h)
    ∙ ap clean (before_last-slashed ("" ∷ ps) p ∙ slashed_root ps)
    ∙ clean-slashed ps (All-front ps p h)

pub dir_root : dir (absolute []) ≡ absolute []
unfolding dir string_eq nat_eq join
dir_root = refl

longer : (ps : List String) (p : String) → ps ≢ ps ++ p ∷ []
longer [] p e = ground arith
longer (q ∷ ps) p e = longer ps p (ground arith)

differ : (s t : String) → s ≢ t → (s == t) ≡ false
differ s t apart = ground arith

split_root : split (absolute []) slash ≡ "" ∷ "" ∷ []
unfolding split join nat_eq
split_root = refl

-- The path of fewer elements is another.
pub absolute_other :
    (ps : List String) (p : String)
    → All IsElement (ps ++ p ∷ [])
    → (absolute ps == absolute (ps ++ p ∷ [])) ≡ false
absolute_other [] p ((lack, filled, dot, up), h) = differ (absolute []) (absolute (p ∷ [])) λ same.
    let parts : "" ∷ "" ∷ [] ≡ "" ∷ p ∷ [] =
      sym split_root
      ∙ ap (λ (x : String). split x slash) same
      ∙ split-absolute p [] ((lack, filled, dot, up), h) in
    ground arith
absolute_other (q ∷ ps) p h = differ (absolute (q ∷ ps)) (absolute (q ∷ (ps ++ p ∷ []))) λ same.
    let parts : "" ∷ q ∷ ps ≡ "" ∷ q ∷ (ps ++ p ∷ []) =
      sym (split-absolute q ps (All-front (q ∷ ps) p h))
      ∙ ap (λ (x : String). split x slash) same
      ∙ split-absolute q (ps ++ p ∷ []) h in
    longer ps p (ground arith)
