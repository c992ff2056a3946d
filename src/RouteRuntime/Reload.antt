-- ===== src/RouteRuntime/Reload.antt =====
-- When a reload succeeds: the loop of attempts against the attempt that ends it.
use zerobased.Base.{ℕ, zero, suc, ◌<◌, ◌≡◌, ◌↔◌, true, false, arith, Bool-cases, inl, inr}
use zerobased.Zberr.Errors.{Error, nil, is_nil, new}
use zerobased.RouteRuntime.Machine.{Machine}
use zerobased.RouteRuntime.Caddy.{DockerCaddy, reload_command, reload_from, reload}

module _ (M : Machine) (c : DockerCaddy) where
  -- The attempt after `k` failed ones succeeds, and the context is not done before.
  abbrev pub SucceedsAfter : ℕ → M.World → Type 0
  SucceedsAfter zero w = is_nil (M.run (reload_command M c) w).1 ≡ true
  SucceedsAfter (suc k) w =
      let w₁ = (M.run (reload_command M c) w).2 in
      (is_nil (M.run (reload_command M c) w).1 ≡ false)
      × (is_nil (M.pause w₁).0 ≡ true)
      × SucceedsAfter k (M.pause w₁).1

  reload_from_sound :
      (n : ℕ) (last : Error) (w : M.World)
      → is_nil (reload_from M n c last w).0 ≡ true
      → (k : ℕ) × (k < n) × SucceedsAfter k w
  unfolding reload_from new
  reload_from_sound zero last w h = cc
  reload_from_sound (suc n) last w h =
      let ran = M.run (reload_command M c) w in
      elim (Bool-cases (is_nil ran.1)) [
        | inl ok ↦ (0, omega arith, ok)
        | inr failed ↦
            let (k, below, later) = reload_from_sound n ran.1 (M.pause ran.2).1 (ground arith) in
            (suc k, omega arith, (failed, ground arith, later))
      ]

  reload_from_complete :
      (n k : ℕ) (last : Error) (w : M.World)
      → k < n
      → SucceedsAfter k w
      → is_nil (reload_from M n c last w).0 ≡ true
  unfolding reload_from
  reload_from_complete zero k last w h s = elim h [ ]
  reload_from_complete (suc n) zero last w h s = ground arith
  reload_from_complete (suc n) (suc k) last w h s =
      let ran = M.run (reload_command M c) w in
      ground (arith, reload_from_complete n k ran.1 (M.pause ran.2).1)

  -- A reload succeeds exactly when one of the first ten attempts does, all before it having failed
  -- and the context not being done in any of the pauses before it.
  pub reload_iff :
      (w : M.World) → (is_nil (reload M c w).0 ≡ true) ↔ ((k : ℕ) × (k < 10) × SucceedsAfter k w)
  unfolding reload
  reload_iff w =
      (reload_from_sound 10 nil w, λ (k, below, s). reload_from_complete 10 k nil w below s)
