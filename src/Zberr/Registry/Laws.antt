-- ===== src/Zberr/Registry/Laws.antt =====
-- What the check of the declarations guarantees of the table that passes it.
use zerobased.Base.{
  String, ◌≡◌, refl, ◌≢◌, ◌⊎◌, inl, inr, Bool, true, List, [], ◌∷◌, none, some, arith, string_eq,
  Bool-cases, Option-cases, All,
}
use zerobased.Base.Dict
use zerobased.Base.Dict.{Dict}
use zerobased.Base.Text.{Unicode}
use zerobased.Zberr.Layer.{Layer}
use zerobased.Zberr.Code
use zerobased.Zberr.Code.{Code}
use zerobased.Zberr.Errors.{nil}
use zerobased.Zberr.Registry.{
  Declaration, kind_error, kind_status, err_decl, find, declaration_key, Checked, remember,
  check_declarations, has_critical, missing_critical, missing_error, validate_table,
  validate_declarations,
}

abbrev pub IsKind : String → Type 0
IsKind k = (k ≡ kind_error) ⊎ (k ≡ kind_status)

abbrev key_of : Declaration → String
key_of d = declaration_key d.layer d.code

-- No key is in the map, none comes twice, and each kind is one of the two.
abbrev Fresh : Dict Declaration → List Declaration → Type 0
Fresh seen [] = Unit
Fresh seen (d ∷ ds) =
    (Dict.lookup (key_of d) seen ≡ none) × IsKind d.kind × Fresh (Dict.insert (key_of d) d seen) ds

module _ ⦃t : Unicode⦄ where
  check-Fresh :
      (ds : List Declaration) (c : Checked) → (check_declarations ds c).0 ≡ nil → Fresh c.seen ds
  unfolding check_declarations
  check-Fresh [] c h = tt
  check-Fresh (d ∷ ds) c h = elim (Option-cases (Dict.lookup (key_of d) c.seen)) [
    | inl e ↦ (e, ground arith, check-Fresh ds (remember d c) (ground arith))
    | inr (p, e) ↦ cc
  ]

-- A key that the map has belongs to no declaration of a fresh list.
find_of_seen :
    (l : Layer) (code : Code) (seen : Dict Declaration) (ds : List Declaration)
    → Dict.lookup (declaration_key l code) seen ≢ none
    → Fresh seen ds
    → find l code ds ≡ none
unfolding find
find_of_seen l code seen [] h f = refl
find_of_seen l code seen (d ∷ ds) h f = ground (
  arith,
  find_of_seen l code (Dict.insert (key_of d) d seen) ds,
  Dict.lookup-insert (declaration_key l code) (key_of d) d seen,
)

-- In a fresh list no declaration's key is in the map.
Fresh-unseen :
    (seen : Dict Declaration) (ds : List Declaration)
    → Fresh seen ds
    → All (λ d. Dict.lookup (key_of d) seen ≡ none) ds
Fresh-unseen seen [] f = tt
Fresh-unseen seen (d ∷ ds) f =
    (f.0, shrink ds (Fresh-unseen (Dict.insert (key_of d) d seen) ds f.2))
  where
    shrink :
        (es : List Declaration)
        → All (λ e. Dict.lookup (key_of e) (Dict.insert (key_of d) d seen) ≡ none) es
        → All (λ e. Dict.lookup (key_of e) seen ≡ none) es
    shrink [] a = tt
    shrink (e ∷ es) a =
        (ground (arith, Dict.lookup-insert (key_of e) (key_of d) d seen, a.0), shrink es a.1)

-- Each declaration is the one that the lookup finds under its layer and code.
Fresh-find :
    (seen : Dict Declaration) (ds : List Declaration)
    → Fresh seen ds
    → All (λ d. find d.layer d.code ds ≡ some d) ds
unfolding find
Fresh-find seen [] f = tt
Fresh-find seen (d ∷ ds) f = (
  ground arith,
  behind ds (Fresh-find (Dict.insert (key_of d) d seen) ds f.2)
      (Fresh-unseen (Dict.insert (key_of d) d seen) ds f.2),
)
  where
    behind :
        (es : List Declaration)
        → All (λ e. find e.layer e.code ds ≡ some e) es
        → All (λ e. Dict.lookup (key_of e) (Dict.insert (key_of d) d seen) ≡ none) es
        → All (λ e. find e.layer e.code (d ∷ ds) ≡ some e) es
    behind [] a b = tt
    behind (e ∷ es) a b = (
      ground (arith, Dict.lookup-insert (key_of e) (key_of d) d seen, a.0, b.0),
      behind es a.1 b.1,
    )

Fresh-kinds :
    (seen : Dict Declaration) (ds : List Declaration) → Fresh seen ds → All (λ d. IsKind d.kind) ds
Fresh-kinds seen [] f = tt
Fresh-kinds seen (d ∷ ds) f = (f.1, Fresh-kinds (Dict.insert (key_of d) d seen) ds f.2)

module _ ⦃t : Unicode⦄ where
  -- A declaration that passes its tests hands on to the rest of the loop.
  check-cons :
      (d : Declaration) (ds : List Declaration) (c : Checked)
      → Dict.lookup (key_of d) c.seen ≡ none
      → IsKind d.kind
      → check_declarations (d ∷ ds) c ≡ check_declarations ds (remember d c)
  unfolding check_declarations
  check-cons d ds c e k = rw (e, check_declarations) (ground arith)

has_critical-remember :
    (l : Layer) (d : Declaration) (c : Checked)
    → has_critical l (remember d c).critical_by_layer ≡ true
    → (has_critical l c.critical_by_layer ≡ true) ⊎ (d ≡ err_decl l Code.critical)
unfolding has_critical
has_critical-remember l d c h =
    ground (arith, Dict.lookup-insert l d.layer true c.critical_by_layer)

module _ ⦃t : Unicode⦄ where
  -- A layer that is marked at the end was marked before, or has its Critical error in the list.
  critical_found :
      (l : Layer) (ds : List Declaration) (c : Checked)
      → Fresh c.seen ds
      → (check_declarations ds c).0 ≡ nil
      → has_critical l (check_declarations ds c).1.critical_by_layer ≡ true
      → (has_critical l c.critical_by_layer ≡ true)
        ⊎ (find l Code.critical ds ≡ some (err_decl l Code.critical))
  unfolding find
  critical_found l [] c f h m = inl (unfold check_declarations in m)
  critical_found l (d ∷ ds) c f h m =
      let e = check-cons d ds c f.0 f.1 in
      elim (critical_found l ds (remember d c) f.2 (rw e at h) (rw e at m)) [
        | inl marked ↦ elim (has_critical-remember l d c marked) [
          | inl before ↦ inl before
          | inr same ↦ inr (ground arith)
        ]
        | inr later ↦ inr (
            ground (
              arith,
              find_of_seen l Code.critical (Dict.insert (key_of d) d c.seen) ds,
              Dict.lookup-insert (declaration_key l Code.critical) (key_of d) d c.seen,
            ))
      ]

none_missing :
    (ls : List Layer) (m : Dict Bool)
    → missing_error (missing_critical ls m) ≡ nil
    → All (λ l. has_critical l m ≡ true) ls
unfolding missing_critical
none_missing [] m h = tt
none_missing (l ∷ ls) m h = elim (Bool-cases (has_critical l m)) [
  | inl e ↦ (e, none_missing ls m (ground arith))
  | inr e ↦ ground arith
]

abbrev start : Checked
start = record { seen = []; critical_by_layer = [] }

-- What a table that passes the check gives.
pub record IsSound (ds : List Declaration) (ls : List Layer) : Type 0 where
  pub kinds : All (λ d. IsKind d.kind) ds
  pub found : All (λ d. find d.layer d.code ds ≡ some d) ds
  pub criticals : All (λ l. find l Code.critical ds ≡ some (err_decl l Code.critical)) ls

module _ ⦃t : Unicode⦄ where
  criticals_of :
      (ds : List Declaration) (ls : List Layer)
      → Fresh [] ds
      → (check_declarations ds start).0 ≡ nil
      → All (λ l. has_critical l (check_declarations ds start).1.critical_by_layer ≡ true) ls
      → All (λ l. find l Code.critical ds ≡ some (err_decl l Code.critical)) ls
  unfolding has_critical Dict.lookup
  criticals_of ds [] f h a = tt
  criticals_of ds (l ∷ ls) f h a = (at_layer, criticals_of ds ls f h a.1)
    where
      unmarked : has_critical l [] ≢ true
      unmarked e = cc

      at_layer : find l Code.critical ds ≡ some (err_decl l Code.critical)
      at_layer = elim (critical_found l ds start f h a.0) [
        | inl e ↦ absurd (unmarked e)
        | inr e ↦ e
      ]

  validate_table_parts :
      (ds : List Declaration) (ls : List Layer)
      → validate_table ds ls ≡ nil
      → ((check_declarations ds start).0 ≡ nil)
        × (missing_error (missing_critical ls (check_declarations ds start).1.critical_by_layer)
            ≡ nil)
  unfolding validate_table
  validate_table_parts ds ls h = ground arith

  -- A table that `ValidateDeclarations` accepts has only the two kinds, its lookup finds every
  -- declaration of the table under its own layer and code, and finds a Critical error for every layer.
  pub validate_table-IsSound :
      (ds : List Declaration) (ls : List Layer) → validate_table ds ls ≡ nil → IsSound ds ls
  validate_table-IsSound ds ls h =
      let (checked, complete) = validate_table_parts ds ls h in
      let fresh = check-Fresh ds start checked in
      record {
        kinds = Fresh-kinds [] ds fresh;
        found = Fresh-find [] ds fresh;
        criticals = criticals_of ds ls fresh checked (none_missing ls _ complete);
      }

  pub validate_declarations_nil : validate_declarations ≡ nil
  unfolding validate_declarations string_eq Dict.lookup Dict.insert
  validate_declarations_nil = refl
