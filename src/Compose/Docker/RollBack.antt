-- ===== src/Compose/Docker/RollBack.antt =====
-- internal/composebackend: what a start leaves to Docker.
use zerobased.Base.{
  String, ◌≡◌, ◌⊎◌, inl, inr, ap, ◌∙◌, true, false, Option, none, some, List, [], ◌∷◌, ◌++◌, arith,
  Bool-cases, Option-cases, string_eq,
}
use mathlib.Core.List.{append_assoc}
use zerobased.Base.Text.{Unicode}
use zerobased.Zberr.Layer
use zerobased.Zberr.Code
use zerobased.Zberr.Errors.{Error, new, critical, is_nil, plain}
use zerobased.Zberr.Errors.Laws.{is_nil-caused}
use zerobased.Up.Environment.{Request}
use zerobased.Compose.Policies.{RawComposePolicies, load_raw_policies, model_invalid}
use zerobased.Compose.Project.{
  Tools, with_defaults, resolve_files, select, check_and_label, load, start, stop,
}
use zerobased.Compose.Names.{project_name}
use zerobased.Compose.Docker.{
  Docker, UpOptions, DownOptions, new_default_lifecycle, up, down, over_docker,
}

-- What Docker was asked.
pub data Call : Type 0 where
  ups : List String → Call
  downs : String → Call

-- A Docker that remembers what it was asked.
pub record Journal (P : Type 0) (D : Docker P) : Type 0 where
  pub calls : D.World → List Call
  pub up_adds :
      (s : D.Service) (p : P) (o : UpOptions P) (w : D.World)
      → calls ((D.service_up s p o w).1) ≡ calls w ++ ups o.create.services ∷ []
  pub down_adds :
      (s : D.Service) (name : String) (o : DownOptions P) (w : D.World)
      → calls ((D.service_down s name o w).1) ≡ calls w ++ downs name ∷ []

is_nil-model_invalid : (message : String) → is_nil (model_invalid message) ≡ false
is_nil-model_invalid message =
    is_nil-caused Layer.compose_backend Code.model_invalid (plain message)

module _ ⦃t : Unicode⦄ (T : Tools) where
  select-failed :
      (dir name : String) (q : Request) (files : List String)
      → (select T dir name q files).1 ≡ none
      → is_nil (select T dir name q files).0 ≡ false
  unfolding select new
  select-failed dir name q files h = ground arith

  check_and_label-failed :
      (dir name : String) (q : Request) (policies : RawComposePolicies) (p : T.compose.Project)
      → (check_and_label T dir name q policies p).1 ≡ none
      → is_nil (check_and_label T dir name q policies p).0 ≡ false
  unfolding check_and_label new critical
  check_and_label-failed dir name q policies p h = ground arith

  load-failed : (q : Request) → (load T q).1 ≡ none → is_nil (load T q).0 ≡ false
  unfolding load new
  load-failed q h =
      let (unresolved, dir) = T.absolute q.project_dir in
      let settings = with_defaults T dir q in
      let files = (resolve_files T dir settings.files).1 in
      let policies = (load_raw_policies T.read_file T.unmarshal files).1 in
      let name = project_name T.sha256_hex settings.stack_name settings.profile dir in
      elim (Option-cases ((select T dir name settings files).1)) [
        | inl e ↦ ground (arith, select-failed dir name settings files e)
        | inr (p, e) ↦ ground (arith, check_and_label-failed dir name settings policies p)
      ]

module _ ⦃t : Unicode⦄ (T : Tools) (D : Docker T.compose.Project) (J : Journal T.compose.Project D)
    (q : Request) (w : D.World) where
  abbrev tools : Tools
  tools = over_docker T D

  -- What a start has come to, with the calls that it has made.
  abbrev pub RolledBack : Error × Option T.compose.Project × D.World → Type 0
  RolledBack (err, running, last) =
      ((is_nil err ≡ false) × (running ≡ none) × (J.calls last ≡ J.calls w))
      ⊎ ((p : T.compose.Project) × ((load tools q).1 ≡ some p)
          × (((is_nil err ≡ true)
                × (running ≡ some p)
                × (J.calls last ≡ J.calls w ++ ups (T.compose.service_names p) ∷ []))
              ⊎ ((is_nil err ≡ false)
                  × (running ≡ none)
                  × (J.calls last
                      ≡ J.calls w ++ ups (T.compose.service_names p) ∷ downs (D.name p) ∷ []))))

  -- A start over a Docker that remembers what it was asked succeeds, and has asked it to bring up the services of
  -- the project that was loaded, which then runs; or it fails, and has asked nothing, or has asked it to bring up
  -- these services and then to take that project down.
  pub start-RolledBack : RolledBack (start tools q w)
  unfolding start new up down
  start-RolledBack =
      let (broken, service) = new_default_lifecycle T.compose D in
      elim (Option-cases ((load tools q).1)) [
        | inl none_ ↦ inl (ground (arith, load-failed tools q none_), ground arith, ground arith)
        | inr (p, e) ↦
            let (failure, w₁) = tools.up p w in
            let (rollback, w₂) = tools.down p w₁ in
            let asked : J.calls w₁ ≡ J.calls w ++ ups (T.compose.service_names p) ∷ [] =
              J.up_adds service p _ w in
            let undone : J.calls w₂
                ≡ J.calls w ++ ups (T.compose.service_names p) ∷ downs (D.name p) ∷ [] =
              J.down_adds service (D.name p) _ w₁
              ∙ ap (λ (x : List Call). x ++ downs (D.name p) ∷ []) asked
              ∙ append_assoc (J.calls w) (ups (T.compose.service_names p) ∷ [])
                  (downs (D.name p) ∷ []) in
            elim (Bool-cases (is_nil broken)) [
              | inr no_docker ↦ inl (ground arith, ground arith, ground arith)
              | inl docker ↦ elim (Bool-cases (is_nil failure)) [
                | inl up_ ↦ inr (p, e, inl (ground arith, ground arith, ground arith))
                | inr down_ ↦ inr (p, e, inr (ground arith, ground arith, ground arith))
              ]
            ]
      ]

  -- The stop of a running stack that a start over a Docker that remembers what it was asked has given, straight
  -- after the start, takes down the project that was loaded: Docker was asked to bring up its services, and then
  -- to take it down.
  pub stop-start :
      (p : T.compose.Project)
      → (start tools q w).1 ≡ some p
      → ((load tools q).1 ≡ some p)
        × (J.calls ((stop tools true p ((start tools q w).2)).1)
            ≡ J.calls w ++ ups (T.compose.service_names p) ∷ downs (D.name p) ∷ [])
  unfolding stop down
  stop-start p running =
      let (broken, service) = new_default_lifecycle T.compose D in
      let last = (start tools q w).2 in
      let asked : J.calls
            (D.service_down service (D.name p) (record { project = p; remove_orphans = true })
              last).1
          ≡ J.calls last ++ downs (D.name p) ∷ [] =
        J.down_adds service (D.name p) _ last in
      elim start-RolledBack [
        | inl (_, none_, _) ↦ absurd (ground arith)
        | inr (other, loaded, inr (_, none_, _)) ↦ absurd (ground arith)
        | inr (other, loaded, inl (_, some_, brought)) ↦
            let same : other ≡ p = ground arith in
            let up_ : J.calls last ≡ J.calls w ++ ups (T.compose.service_names p) ∷ [] =
              rw (← same) brought in
            (
              rw (← same) loaded,
              ground (
                arith,
                asked
                    ∙ ap (λ (x : List Call). x ++ downs (D.name p) ∷ []) up_
                    ∙ append_assoc (J.calls w) (ups (T.compose.service_names p) ∷ [])
                        (downs (D.name p) ∷ []),
              ),
            )
      ]
