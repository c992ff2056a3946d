-- ===== src/Zberr/Errors/Laws.antt =====
-- What the search of an error's chain finds.
use zerobased.Base.{
  String, ◌≡◌, refl, ◌↔◌, inl, inr, true, false, List, [], ◌∷◌, arith, ◌==◌, string_eq, or-cases,
}
use zerobased.Zberr.Layer.{Layer}
use zerobased.Zberr.Code
use zerobased.Zberr.Code.{Code}
use zerobased.Zberr.Errors.{
  Error, nil, canceled, deadline_exceeded, plain, wrap, zb, as_error, matches, is, is_nil, caused,
  critical, new, validate,
}

-- An error that the program makes is not nil.
pub is_nil-caused : (l : Layer) (c : Code) (cause : Error) → is_nil (caused l c cause) ≡ false
unfolding new
is_nil-caused l c cause = refl

pub is_nil-critical :
    (l : Layer) (cause : Error) (origin : List Layer) → is_nil (critical l cause origin) ≡ false
unfolding critical new
is_nil-critical l cause [] = refl
is_nil-critical l cause (_ ∷ _) = refl

-- `f` is reached from an error by going down its causes and wrapped errors.
pub data InChain (f : Error) : Error → Type 0 where
  here : InChain f f
  under_wrap : {s : String} {e : Error} → InChain f e → InChain f (wrap s e)
  under_cause :
      {l : Layer} {c : Code} {p o : String} {k : Error} {g : List Layer}
      → InChain f k
      → InChain f (zb l c p o k g)

-- Some `*Error` of this layer and code is in the chain.
abbrev pub Carries : Layer → Code → Error → Type 0
Carries l c e =
    (p : String) × (o : String) × (k : Error) × (g : List Layer) × InChain (zb l c p o k g) e

module _ (l : Layer) (c : Code) where
  Carries-wrap : (s : String) (e : Error) → Carries l c e → Carries l c (wrap s e)
  Carries-wrap s e (p, o, k, g, h) = (p, o, k, g, under_wrap h)

  Carries-cause :
      (m : Layer) (d : Code) (p o : String) (k : Error) (g : List Layer)
      → Carries l c k
      → Carries l c (zb m d p o k g)
  Carries-cause m d p o k g (p', o', k', g', h) = (p', o', k', g', under_cause h)

  matches-Carries : (e : Error) → matches l c (as_error e) ≡ true → Carries l c e
  unfolding matches as_error
  matches-Carries nil h = cc
  matches-Carries canceled h = cc
  matches-Carries deadline_exceeded h = cc
  matches-Carries (plain s) h = cc
  matches-Carries (wrap s e) h = Carries-wrap s e (matches-Carries e h)
  matches-Carries (zb m d p o k g) h =
      let same_layer : m ≡ l = ground arith in
      let same_code : d ≡ c = ground arith in (p, o, k, g, rw (same_layer, same_code) here)

  is-Carries : (e : Error) → is e l c ≡ true → Carries l c e
  unfolding is
  is-Carries nil h = cc
  is-Carries canceled h = cc
  is-Carries deadline_exceeded h = cc
  is-Carries (plain s) h = cc
  is-Carries (wrap s e) h = elim (or-cases _ _ h) [
    | inl hit ↦ matches-Carries (wrap s e) hit
    | inr deeper ↦ Carries-wrap s e (is-Carries e deeper)
  ]
  is-Carries (zb m d p o k g) h = elim (or-cases _ _ h) [
    | inl hit ↦ matches-Carries (zb m d p o k g) hit
    | inr deeper ↦ Carries-cause m d p o k g (is-Carries k deeper)
  ]

  is_of_matches : (e : Error) → matches l c e ≡ true → is e l c ≡ true
  unfolding matches is
  is_of_matches nil h = cc
  is_of_matches (zb m d p o k g) h = ground arith
  is_of_matches _ h = cc

  is_of_InChain : (f e : Error) → InChain f e → matches l c f ≡ true → is e l c ≡ true
  unfolding is
  is_of_InChain f e here h = is_of_matches f h
  is_of_InChain f e (under_wrap {e = e'} d) h = ground (arith, is_of_InChain f e' d h)
  is_of_InChain f e (under_cause {k = k} d) h = ground (arith, is_of_InChain f k d h)

  matches_self : (p o : String) (k : Error) (g : List Layer) → matches l c (zb l c p o k g) ≡ true
  unfolding matches
  matches_self p o k g = ground arith

  -- `Is` answers true exactly when the chain of the error holds a `*Error` of that layer and code.
  pub is_iff : (e : Error) → (is e l c ≡ true) ↔ Carries l c e
  is_iff e = (is-Carries e, λ (p, o, k, g, h). is_of_InChain _ e h (matches_self p o k g))

critical_is_no_start : (Code.critical == Code.start_failed) ≡ false
unfolding string_eq
critical_is_no_start = refl

critical_is_no_up : (Code.critical == Code.up_failed) ≡ false
unfolding string_eq
critical_is_no_up = refl

-- A critical error keeps its cause in the chain, carries a chain of origins that is not empty, and
-- so passes the validation of critical errors.
pub critical_lem :
    (l : Layer) (cause : Error) (origin : List Layer)
    → (is (critical l cause origin) l Code.critical ≡ true)
      × InChain cause (critical l cause origin)
      × (validate (critical l cause origin) ≡ nil)
unfolding critical is validate new
critical_lem l cause [] =
    (ground arith, under_cause here, ground (arith, critical_is_no_start, critical_is_no_up))
critical_lem l cause (g ∷ gs) =
    (ground arith, under_cause here, ground (arith, critical_is_no_start, critical_is_no_up))

-- An error is found under its own layer and code.
pub is-caused : (l : Layer) (c : Code) (cause : Error) → is (caused l c cause) l c ≡ true
unfolding new
is-caused l c cause = (is_iff l c (caused l c cause)).1 ("", "", cause, [], here)

pub is-critical : (l : Layer) (cause : Error) → is (critical l cause []) l Code.critical ≡ true
unfolding critical new
is-critical l cause = (is_iff l Code.critical (critical l cause [])).1 (_, _, _, _, here)

pub is_nil-eq : (e : Error) → is_nil e ≡ true → e ≡ nil
is_nil-eq Error.nil h = refl
is_nil-eq Error.canceled h = cc
is_nil-eq Error.deadline_exceeded h = cc
is_nil-eq (Error.plain _) h = cc
is_nil-eq (Error.wrap _ _) h = cc
is_nil-eq (Error.zb _ _ _ _ _ _) h = cc
