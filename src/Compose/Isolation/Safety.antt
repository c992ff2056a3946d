-- ===== src/Compose/Isolation/Safety.antt =====
-- internal/composebackend/backend.go: what an owned project that passes the check is free of.
use zerobased.Base.{
  String, ◌<>◌, ◌≡◌, refl, true, false, List, [], ◌∷◌, All, inl, inr, arith, Bool-cases, ◌==◌,
  string_eq,
}
use zerobased.Base.Sorting.{sort_strings}
use zerobased.Zberr.Errors.{Error, is_nil, new, text}
use zerobased.Compose.Policies.{
  RawResource, RawComposeFile, Policy, custom_name, is_external, load_raw_policies, no_policies,
}
use zerobased.Compose.Policies.Laws.{
  Covers, SaysAll, raw_file, load_files-Covers, is_nil-model_invalid,
}
use zerobased.Compose.Isolation.{
  ComposeGo, ownership_owned, isolation_rejected, check_resources, check_service, check_services,
  validate_isolation,
}
use zerobased.Base.Dict.{Dict}

is_nil-isolation_rejected : (message : String) → is_nil (isolation_rejected message) ≡ false
unfolding new
is_nil-isolation_rejected message = refl

abbrev IsUnclaimed : Policy → String → Type 0
IsUnclaimed p name = ((custom_name name p == "") ≡ true) × (is_external name p ≡ false)

check_resources-IsUnclaimed :
    (kind : String) (p : Policy) (names : List String)
    → is_nil (check_resources kind p names) ≡ true
    → All (IsUnclaimed p) names
unfolding check_resources
check_resources-IsUnclaimed kind p [] h = tt
check_resources-IsUnclaimed kind p (name ∷ names) h = elim (Bool-cases (custom_name name p == "")) [
  | inr custom ↦ absurd (
      ground (
        arith,
        is_nil-isolation_rejected
            (kind <> (" " <> (name <> (" uses custom name " <> custom_name name p)))),
      ))
  | inl plain ↦ elim (Bool-cases (is_external name p)) [
    | inl shared ↦
        absurd
          (ground (arith, is_nil-isolation_rejected (kind <> (" " <> (name <> " is external")))))
    | inr own ↦ ((plain, own), check_resources-IsUnclaimed kind p names (ground arith))
  ]
]

module _ (G : ComposeGo) where
  -- A service without a name, ports, namespaces or a provider of the host.
  abbrev pub IsContained : G.Service → Type 0
  IsContained s =
      ((G.container_name s == "") ≡ true)
      × (G.has_ports s ≡ false)
      × ((G.network_mode s == "host") ≡ false)
      × ((G.net s == "host") ≡ false)
      × ((G.pid s == "host") ≡ false)
      × ((G.ipc s == "host") ≡ false)
      × ((G.cgroup s == "host") ≡ false)
      × (G.has_provider s ≡ false)

  check_service-IsContained :
      (name : String) (s : G.Service) → is_nil (check_service G name s) ≡ true → IsContained s
  unfolding check_service
  check_service-IsContained name s h = ground (
    arith,
    is_nil-isolation_rejected ("service " <> (name <> " uses container_name")),
    is_nil-isolation_rejected ("service " <> (name <> " publishes host ports")),
    is_nil-isolation_rejected ("service " <> (name <> " uses host networking")),
    is_nil-isolation_rejected ("service " <> (name <> " uses host namespace sharing")),
    is_nil-isolation_rejected ("service " <> (name <> " uses provider-managed service")),
  )

  check_services-IsContained :
      (project : G.Project) (names : List String)
      → is_nil (check_services G project names) ≡ true
      → All (λ name. IsContained ((G.get_service name project).1)) names
  unfolding check_services
  check_services-IsContained project [] h = tt
  check_services-IsContained project (name ∷ names) h = (
    check_service-IsContained name ((G.get_service name project).1)
        (ground (arith, is_nil-model_invalid (text ((G.get_service name project).0)))),
    check_services-IsContained project names
        (ground (arith, is_nil-model_invalid (text ((G.get_service name project).0)))),
  )

-- Nothing that is said of the name gives it a name of its own or makes it external.
abbrev pub IsPlain : String → String × RawResource → Type 0
IsPlain name (n, r) = n ≡ name → ((r.name == "") ≡ true) × (r.external.active ≡ false)

SaysAll-IsPlain :
    (p : Policy) (name : String) (rs : Dict RawResource)
    → IsUnclaimed p name
    → SaysAll p rs
    → All (IsPlain name) rs
SaysAll-IsPlain p name [] free h = tt
SaysAll-IsPlain p name ((n, r) ∷ rs) free (says, h) =
    (λ same. ground arith, SaysAll-IsPlain p name rs free h)

module _ (read_file : String → Error × String) (unmarshal : String → Error × RawComposeFile) where
  abbrev FilesPlain : (RawComposeFile → Dict RawResource) → List String → String → Type 0
  FilesPlain kind files name =
      All (λ file. All (IsPlain name) (kind (raw_file read_file unmarshal file))) files

  files_plain :
      (kind : RawComposeFile → Dict RawResource) (p : Policy) (name : String) (files : List String)
      → IsUnclaimed p name
      → All (λ file. SaysAll p (kind (raw_file read_file unmarshal file))) files
      → FilesPlain kind files name
  files_plain kind p name [] free h = tt
  files_plain kind p name (file ∷ files) free (says, h) = (
    SaysAll-IsPlain p name (kind (raw_file read_file unmarshal file)) free says,
    files_plain kind p name files free h,
  )

  resources_plain :
      (kind : RawComposeFile → Dict RawResource) (p : Policy) (names files : List String)
      → All (IsUnclaimed p) names
      → All (λ file. SaysAll p (kind (raw_file read_file unmarshal file))) files
      → All (FilesPlain kind files) names
  resources_plain kind p [] files free h = tt
  resources_plain kind p (name ∷ names) files (first, free) h =
      (files_plain kind p name files first h, resources_plain kind p names files free h)

  part :
      (P Q : RawComposeFile → Type 0) (files : List String)
      → ((raw : RawComposeFile) → P raw → Q raw)
      → All (λ file. P (raw_file read_file unmarshal file)) files
      → All (λ file. Q (raw_file read_file unmarshal file)) files
  part P Q [] f h = tt
  part P Q (file ∷ files) f (p, h) = (f (raw_file read_file unmarshal file) p, part P Q files f h)

  -- Each service is without a container name, host ports, host namespaces and a provider, and no compose
  -- file gives a network, volume, secret or config of the project a name of its own or calls it external.
  abbrev pub IsIsolated : (G : ComposeGo) → List String → G.Project → Type 0
  IsIsolated G files project =
      All (λ name. IsContained G ((G.get_service name project).1))
        (sort_strings (G.service_names project))
      × All (FilesPlain (λ raw. raw.networks) files) (G.networks project)
      × All (FilesPlain (λ raw. raw.volumes) files) (G.volumes project)
      × All (FilesPlain (λ raw. raw.secrets) files) (G.secrets project)
      × All (FilesPlain (λ raw. raw.configs) files) (G.configs project)

  -- Of an owned project whose compose files were read without an error and which passes the check, each
  -- service is without a container name, host ports, host namespaces and a provider, and no compose file
  -- gives a network, volume, secret or config of the project a name of its own or calls it external.
  pub isolation_lem :
      (G : ComposeGo) (files : List String) (project : G.Project)
      → is_nil ((load_raw_policies read_file unmarshal files).0) ≡ true
      → is_nil (
          validate_isolation G project
            ((load_raw_policies read_file unmarshal files).1)
            ownership_owned)
        ≡ true
      → IsIsolated G files project
  unfolding validate_isolation load_raw_policies string_eq
  isolation_lem G files project read valid =
      let p = (load_raw_policies read_file unmarshal files).1 in
      let covers = load_files-Covers read_file unmarshal files no_policies read in
      let owned : (ownership_owned == ownership_owned) ≡ true = refl in
      (
        check_services-IsContained G project (sort_strings (G.service_names project))
            (ground arith),
        resources_plain (λ raw. raw.networks) p.networks (G.networks project) files
            (check_resources-IsUnclaimed "network" p.networks (G.networks project) (ground arith))
            (part (Covers p) (λ raw. SaysAll p.networks raw.networks) files (λ raw c. c.0) covers),
        resources_plain (λ raw. raw.volumes) p.volumes (G.volumes project) files
            (check_resources-IsUnclaimed "volume" p.volumes (G.volumes project) (ground arith))
            (part (Covers p) (λ raw. SaysAll p.volumes raw.volumes) files (λ raw c. c.1) covers),
        resources_plain (λ raw. raw.secrets) p.secrets (G.secrets project) files
            (check_resources-IsUnclaimed "secret" p.secrets (G.secrets project) (ground arith))
            (part (Covers p) (λ raw. SaysAll p.secrets raw.secrets) files (λ raw c. c.2) covers),
        resources_plain (λ raw. raw.configs) p.configs (G.configs project) files
            (check_resources-IsUnclaimed "config" p.configs (G.configs project) (ground arith))
            (part (Covers p) (λ raw. SaysAll p.configs raw.configs) files (λ raw c. c.3) covers),
      )
