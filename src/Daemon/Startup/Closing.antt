-- ===== src/Daemon/Startup/Closing.antt =====
-- internal/daemon/start.go: what `Close` gives back.
use zerobased.Base.{
  is_some, ◌≡◌, ◌⊎◌, inl, inr, Option-cases, Bool-cases, refl, sym, subst, true, false, arith,
  string_eq,
}
use zerobased.Daemon.Startup.{
  Host, Held, nothing_held, Session, StartResult, close_lock, close_server, close_listener,
  close_runtime, close,
}

module _ {World : Type 0} (H : Host World) where
  -- The result names all that is held.
  pub record Names (r : StartResult H) (held : Held) : Type 0 where
    pub file : held.file ≡ true → r.lock_file ≡ true
    pub lock : held.lock ≡ true → r.lock_file ≡ true
    pub runtime : held.runtime ≡ true → (is_some r.runtime ≡ true) ⊎ (held.runtime_failed ≡ true)
    pub listener : held.listener ≡ true → r.listener ≡ true
    pub server : held.server ≡ true → is_some r.server ≡ true

  pub held-close_lock :
      (s : Session H) → (close_lock H s).1.held ≡ record s.held { file = false; lock = false }
  unfolding close_lock
  held-close_lock s = ground arith

  held-close_server :
      (r : StartResult H) (s : Session H)
      → Names r s.held
      → (close_server H r s).1.held ≡ record s.held { server = false }
  unfolding close_server
  held-close_server r s n = ground (arith, n.server)

  held-close_listener :
      (r : StartResult H) (s : Session H)
      → Names r s.held
      → (close_listener H r s).1.held ≡ record s.held { listener = false }
  unfolding close_listener
  held-close_listener r s n = ground (arith, n.listener)

  -- Nothing is held, but that the runtime may have something up after an error of its own.
  pub record IsFreed (held : Held) : Type 0 where
    pub file : held.file ≡ false
    pub lock : held.lock ≡ false
    pub runtime : held.runtime ≡ true → held.runtime_failed ≡ true
    pub listener : held.listener ≡ false
    pub server : held.server ≡ false

  pub nothing_held-IsFreed : (s : Session H) → s.held ≡ nothing_held → IsFreed s.held
  nothing_held-IsFreed s e = record {
    file = ground arith;
    lock = ground arith;
    runtime = λ h. ground arith;
    listener = ground arith;
    server = ground arith;
  }

  held-close_runtime :
      (r : StartResult H) (s : Session H)
      → Names r s.held
      → let held = (close_runtime H r s).1.held in
        (held ≡ record s.held { runtime = held.runtime; runtime_failed = held.runtime_failed })
        × (held.runtime ≡ true → held.runtime_failed ≡ true)
  unfolding close_runtime
  held-close_runtime r s n = elim (Option-cases r.runtime) [
    | inl absent ↦ (ground arith, λ up. ground (arith, n.runtime))
    | inr (op, e) ↦ (ground arith, λ up. ground arith)
  ]

  -- Closing a result that names all that is held frees all, but for a runtime that has failed.
  pub close_lem :
      (r : StartResult H) (s : Session H) → Names r s.held → IsFreed (close H r s).1.held
  unfolding close
  close_lem r s n =
      let s₁ = (close_server H r s).1 in
      let s₂ = (close_listener H r s₁).1 in
      let e₁ = held-close_server r s n in
      let n₁ : Names r s₁.held = subst (Names r) (sym e₁) (record {
        file = n.file;
        lock = n.lock;
        runtime = n.runtime;
        listener = n.listener;
        server = λ h. ground arith;
      }) in
      let e₂ = held-close_listener r s₁ n₁ in
      let n₂ : Names r s₂.held = subst (Names r) (sym e₂) (record {
        file = n₁.file;
        lock = n₁.lock;
        runtime = n₁.runtime;
        listener = λ h. ground arith;
        server = n₁.server;
      }) in
      let s₃ = (close_runtime H r s₂).1 in
      let (same, failed) = held-close_runtime r s₂ n₂ in
      let freed : IsFreed (record s₃.held { file = false; lock = false }) = record {
        file = refl;
        lock = refl;
        runtime = failed;
        listener = ground arith;
        server = ground arith;
      } in
      elim (Bool-cases r.lock_file) [
        | inl locked ↦
            let last : (close H r s).1.held ≡ record s₃.held { file = false; lock = false } =
              ground (arith, held-close_lock s₃) in
            subst IsFreed (sym last) freed
        | inr unlocked ↦
            let last : (close H r s).1.held ≡ record s₃.held { file = false; lock = false } =
              ground (arith, n₂.file, n₂.lock) in
            subst IsFreed (sym last) freed
      ]
