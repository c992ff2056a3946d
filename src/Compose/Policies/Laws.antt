-- ===== src/Compose/Policies/Laws.antt =====
-- internal/composebackend/backend.go: what the policies keep of every compose file.
use zerobased.Base.{
  String, ◌<>◌, ◌≡◌, refl, sym, subst, true, false, List, [], ◌∷◌, All, inl, inr, arith, Bool-cases,
  ◌==◌, string_eq,
}
use zerobased.Base.Dict
use zerobased.Base.Dict.{Dict}
use zerobased.Zberr.Errors.{Error, is_nil, new, text}
use zerobased.Compose.Policies.{
  RawResource, RawComposeFile, model_invalid, Policy, RawComposePolicies, custom_name, is_external,
  add_resource, add_resources, add_file, load_files,
}

-- What is said of a resource is kept.
abbrev pub Grows : Policy → Policy → Type 0
Grows p q =
    (name : String)
    → ((custom_name name p == "") ≡ false → (custom_name name q == "") ≡ false)
      × (is_external name p ≡ true → is_external name q ≡ true)

abbrev pub Says : Policy → String → RawResource → Type 0
Says p name r =
    ((r.name == "") ≡ false → (custom_name name p == "") ≡ false)
    × (r.external.active ≡ true → is_external name p ≡ true)

add_resource-Grows :
    (name : String) (r : RawResource) (p : Policy) → Grows p (add_resource name r p)
unfolding add_resource
add_resource-Grows name r p other = ground (
  arith,
  Dict.lookup-insert other name r.name p.names,
  Dict.lookup-insert other name true p.external,
)

add_resource-Says :
    (name : String) (r : RawResource) (p : Policy) → Says (add_resource name r p) name r
unfolding add_resource
add_resource-Says name r p = ground (
  arith,
  Dict.lookup-insert name name r.name p.names,
  Dict.lookup-insert name name true p.external,
)

add_resources-Grows : (rs : Dict RawResource) (p : Policy) → Grows p (add_resources rs p)
unfolding add_resources
add_resources-Grows [] p other = (λ h. h, λ h. h)
add_resources-Grows ((name, r) ∷ rs) p other =
    ground (
      arith,
      add_resource-Grows name r p other,
      add_resources-Grows rs (add_resource name r p) other,
    )

abbrev pub SaysAll : Policy → Dict RawResource → Type 0
SaysAll p rs = All (λ (entry : String × RawResource). Says p (entry.0) (entry.1)) rs

Says-Grows :
    (p q : Policy) (name : String) (r : RawResource) → Grows p q → Says p name r → Says q name r
Says-Grows p q name r grows (custom, shared) =
    (λ h. (grows name).0 (custom h), λ h. (grows name).1 (shared h))

SaysAll-Grows : (p q : Policy) (rs : Dict RawResource) → Grows p q → SaysAll p rs → SaysAll q rs
SaysAll-Grows p q [] grows h = tt
SaysAll-Grows p q ((name, r) ∷ rs) grows (says, h) =
    (Says-Grows p q name r grows says, SaysAll-Grows p q rs grows h)

add_resources-SaysAll : (rs : Dict RawResource) (p : Policy) → SaysAll (add_resources rs p) rs
unfolding add_resources
add_resources-SaysAll [] p = tt
add_resources-SaysAll ((name, r) ∷ rs) p =
    let p₁ = add_resource name r p in
    (
      Says-Grows p₁ (add_resources rs p₁) name r (add_resources-Grows rs p₁)
          (add_resource-Says name r p),
      add_resources-SaysAll rs p₁,
    )

abbrev AllGrow : RawComposePolicies → RawComposePolicies → Type 0
AllGrow p q =
    Grows p.networks q.networks
    × Grows p.volumes q.volumes
    × Grows p.secrets q.secrets
    × Grows p.configs q.configs

-- The policies hold what the file says.
abbrev pub Covers : RawComposePolicies → RawComposeFile → Type 0
Covers p raw =
    SaysAll p.networks raw.networks
    × SaysAll p.volumes raw.volumes
    × SaysAll p.secrets raw.secrets
    × SaysAll p.configs raw.configs

add_file-AllGrow : (raw : RawComposeFile) (p : RawComposePolicies) → AllGrow p (add_file raw p)
unfolding add_file
add_file-AllGrow raw p = (
  add_resources-Grows raw.networks p.networks,
  add_resources-Grows raw.volumes p.volumes,
  add_resources-Grows raw.secrets p.secrets,
  add_resources-Grows raw.configs p.configs,
)

add_file-Covers : (raw : RawComposeFile) (p : RawComposePolicies) → Covers (add_file raw p) raw
unfolding add_file
add_file-Covers raw p = (
  add_resources-SaysAll raw.networks p.networks,
  add_resources-SaysAll raw.volumes p.volumes,
  add_resources-SaysAll raw.secrets p.secrets,
  add_resources-SaysAll raw.configs p.configs,
)

Covers-AllGrow :
    (p q : RawComposePolicies) (raw : RawComposeFile) → AllGrow p q → Covers p raw → Covers q raw
Covers-AllGrow p q raw (n, v, s, c) (n', v', s', c') = (
  SaysAll-Grows p.networks q.networks raw.networks n n',
  SaysAll-Grows p.volumes q.volumes raw.volumes v v',
  SaysAll-Grows p.secrets q.secrets raw.secrets s s',
  SaysAll-Grows p.configs q.configs raw.configs c c',
)

Grows-trans : (p q r : Policy) → Grows p q → Grows q r → Grows p r
Grows-trans p q r f g name = (λ h. (g name).0 ((f name).0 h), λ h. (g name).1 ((f name).1 h))

AllGrow-refl : (p : RawComposePolicies) → AllGrow p p
AllGrow-refl p = (
  λ name. (λ h. h, λ h. h),
  λ name. (λ h. h, λ h. h),
  λ name. (λ h. h, λ h. h),
  λ name. (λ h. h, λ h. h),
)

AllGrow-trans : (p q r : RawComposePolicies) → AllGrow p q → AllGrow q r → AllGrow p r
AllGrow-trans p q r (n, v, s, c) (n', v', s', c') = (
  Grows-trans p.networks q.networks r.networks n n',
  Grows-trans p.volumes q.volumes r.volumes v v',
  Grows-trans p.secrets q.secrets r.secrets s s',
  Grows-trans p.configs q.configs r.configs c c',
)

pub is_nil-model_invalid : (message : String) → is_nil (model_invalid message) ≡ false
unfolding new
is_nil-model_invalid message = refl

module _ (read_file : String → Error × String) (unmarshal : String → Error × RawComposeFile) where
  -- What the decoder makes of a file.
  abbrev pub raw_file : String → RawComposeFile
  raw_file file = (unmarshal ((read_file file).1)).1

  load_files-AllGrow :
      (files : List String) (p : RawComposePolicies)
      → AllGrow p ((load_files read_file unmarshal files p).1)
  unfolding load_files
  load_files-AllGrow [] p = AllGrow-refl p
  load_files-AllGrow (file ∷ files) p =
      let (unread, content) = read_file file in
      let (bad, raw) = unmarshal content in
      let q = add_file raw p in
      elim (Bool-cases (is_nil unread)) [
        | inr e ↦ rw (e) (AllGrow-refl p)
        | inl read ↦ elim (Bool-cases (is_nil bad)) [
          | inr e ↦ rw (read, e) (AllGrow-refl p)
          | inl decoded ↦
              rw (read, decoded)
                (AllGrow-trans p q ((load_files read_file unmarshal files q).1)
                  (add_file-AllGrow raw p) (load_files-AllGrow files q))
        ]
      ]

  pub load_files-Covers :
      (files : List String) (p : RawComposePolicies)
      → is_nil ((load_files read_file unmarshal files p).0) ≡ true
      → All (λ file. Covers ((load_files read_file unmarshal files p).1) (raw_file file)) files
  unfolding load_files
  load_files-Covers [] p h = tt
  load_files-Covers (file ∷ files) p h =
      let (unread, content) = read_file file in
      let (bad, raw) = unmarshal content in
      let q = add_file raw p in
      elim (Bool-cases (is_nil unread)) [
        | inr e ↦ absurd (
            ground (
              arith,
              is_nil-model_invalid ("read compose file " <> (file <> (": " <> text unread))),
            ))
        | inl read ↦ elim (Bool-cases (is_nil bad)) [
          | inr e ↦ absurd (
              ground (
                arith,
                is_nil-model_invalid ("parse compose file " <> (file <> (": " <> text bad))),
              ))
          | inl decoded ↦
              let rest = load_files read_file unmarshal files q in
              let same : load_files read_file unmarshal (file ∷ files) p ≡ rest =
                rw (read, decoded) refl in
              subst
                (λ (x : Error × RawComposePolicies).
                  All (λ f. Covers (x.1) (raw_file f)) (file ∷ files))
                (sym same)
                (
                  Covers-AllGrow q (rest.1) raw (load_files-AllGrow files q)
                      (add_file-Covers raw p),
                  load_files-Covers files q (ground arith),
                )
        ]
      ]
