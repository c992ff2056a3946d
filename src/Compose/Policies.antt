-- ===== src/Compose/Policies.antt =====
-- internal/composebackend/backend.go: what the compose files say of their networks, volumes, secrets and
-- configs, file after file. `os.ReadFile` and the YAML decoder are parameters of `load_raw_policies`.
pub mod Laws
use zerobased.Base.{
  String, ◌<>◌, Bool, true, false, not, Option, none, some, List, [], ◌∷◌, ◌==◌, string_eq,
  if◌then◌else◌,
}
use zerobased.Base.Dict
use zerobased.Base.Dict.{Dict}
use zerobased.Zberr.Layer
use zerobased.Zberr.Code
use zerobased.Zberr.Errors.{Error, nil, plain, is_nil, caused, text}

abbrev pub model_invalid : String → Error
model_invalid message = caused Layer.compose_backend Code.model_invalid (plain message)

pub record RawExternal : Type 0 where
  pub is_set : Bool
  pub active : Bool

-- A YAML node: a scalar with what its decoding as a Boolean gives, a mapping, or another node.
pub data Node : Type 0 where
  scalar : Error → Bool → Node
  mapping other : Node

unfoldable pub unmarshal_yaml : RawExternal → Node → Error × RawExternal
unmarshal_yaml e (scalar err value) =
    if not (is_nil err)
    then (err, record e { is_set = true })
    else (nil, record { is_set = true; active = value })
unmarshal_yaml e mapping = (nil, record { is_set = true; active = true })
unmarshal_yaml e other = (nil, record { is_set = true; active = false })

pub record RawResource : Type 0 where
  pub name : String
  pub external : RawExternal

pub record RawComposeFile : Type 0 where
  pub networks : Dict RawResource
  pub volumes : Dict RawResource
  pub secrets : Dict RawResource
  pub configs : Dict RawResource

-- The two maps of one kind of resource.
pub record Policy : Type 0 where
  pub names : Dict String
  pub external : Dict Bool

pub record RawComposePolicies : Type 0 where
  pub networks : Policy
  pub volumes : Policy
  pub secrets : Policy
  pub configs : Policy

-- `names[name]` and `external[name]`, the zero value for a missing key
abbrev pub custom_name : String → Policy → String
custom_name name p = elim (Dict.lookup name p.names) [ none ↦ "" | some custom ↦ custom ]

abbrev pub is_external : String → Policy → Bool
is_external name p = elim (Dict.lookup name p.external) [ none ↦ false | some b ↦ b ]

unfoldable pub add_resource : String → RawResource → Policy → Policy
add_resource name r p = record {
  names = if not (r.name == "") then Dict.insert name r.name p.names else p.names;
  external = if r.external.active then Dict.insert name true p.external else p.external;
}

unfoldable pub add_resources : Dict RawResource → Policy → Policy
add_resources [] p = p
add_resources ((name, r) ∷ rs) p = add_resources rs (add_resource name r p)

unfoldable pub add_file : RawComposeFile → RawComposePolicies → RawComposePolicies
add_file raw p = record {
  networks = add_resources raw.networks p.networks;
  volumes = add_resources raw.volumes p.volumes;
  secrets = add_resources raw.secrets p.secrets;
  configs = add_resources raw.configs p.configs;
}

abbrev no_policy : Policy
no_policy = record { names = []; external = [] }

abbrev pub no_policies : RawComposePolicies
no_policies = record {
  networks = no_policy;
  volumes = no_policy;
  secrets = no_policy;
  configs = no_policy;
}

module _ (read_file : String → Error × String) (unmarshal : String → Error × RawComposeFile) where
  unfoldable pub load_files : List String → RawComposePolicies → Error × RawComposePolicies
  load_files [] p = (nil, p)
  load_files (file ∷ files) p =
      let (unread, content) = read_file file in
      let (bad, raw) = unmarshal content in
      let rest = load_files files (add_file raw p) in
      if not (is_nil unread)
      then (model_invalid ("read compose file " <> (file <> (": " <> text unread))), p)
      else if not (is_nil bad)
      then (model_invalid ("parse compose file " <> (file <> (": " <> text bad))), p)
      else rest

  unfoldable pub load_raw_policies : List String → Error × RawComposePolicies
  load_raw_policies files = load_files files no_policies
