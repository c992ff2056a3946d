-- ===== src/RouteRuntime/Hosts.antt =====
-- The host of a route in canonical form, which the daemon and the runtime both compute.
use Prim.Native.Char.{Char, code}
use Prim.Native.String.{count, String, [], ◌∷◌, ◌++◌}
use mathlib.Core.Logic.{ite}
use text.Mathlib.TextLemmas.{
  cons≢nil, cons-append, tail-eq_of_cons-eq, head-eq_of_cons-eq, length-append,
}
use zerobased.Base.{
  ◌≡◌, ◌≢◌, refl, ap, ◌∙◌, Bool, true, false, ◌&&◌, arith, ◌==◌, nat_eq, string_eq,
}
use zerobased.Base.Text.{
  Unicode, is_space, is_alphanumeric, trim_left_space, keep_unless_blank, trim_right_space,
  trim_space, to_lower, trim_suffix,
}
use zerobased.RouteRuntime.Validation.{is_host_char, host_tail, valid_caddy_host}
use zerobased.RouteRuntime.Caddy.{runtime_host}
use zerobased.Daemon.Server.{canonical_host}

-- The runtime computes the daemon's canonical form.
pub runtime_host-eq : ⦃t : Unicode⦄ → (host : String) → runtime_host host ≡ canonical_host host
unfolding runtime_host canonical_host
runtime_host-eq host = refl

host_char_no_space : (c : Char) → is_host_char c ≡ true → is_space c ≡ false
unfolding is_host_char is_alphanumeric is_space
host_char_no_space c h = ground arith

alphanumeric-host_char : (c : Char) → is_alphanumeric c ≡ true → is_host_char c ≡ true
unfolding is_host_char
alphanumeric-host_char c h = ground arith

host_char_fixed : ⦃t : Unicode⦄ → (c : Char) → is_host_char c ≡ true → t.lower c ≡ c
unfolding is_host_char is_alphanumeric
host_char_fixed ⦃t⦄ c h = t.lower_fixes c (ground arith)

-- Every character may stand in a host.
unfoldable pub all_host_chars : String → Bool
all_host_chars [] = true
all_host_chars (c ∷ s) = is_host_char c && all_host_chars s

trim_left_space_fixed : (s : String) → all_host_chars s ≡ true → trim_left_space s ≡ s
unfolding all_host_chars trim_left_space
trim_left_space_fixed [] h = refl
trim_left_space_fixed (c ∷ s) h = ground (arith, host_char_no_space c)

keep_nonblank : (c : Char) (s : String) → is_space c ≡ false → keep_unless_blank c s ≡ c ∷ s
unfolding keep_unless_blank
keep_nonblank c [] h = rw h
keep_nonblank c (d ∷ s) h = refl

trim_right_space_fixed : (s : String) → all_host_chars s ≡ true → trim_right_space s ≡ s
unfolding all_host_chars trim_right_space
trim_right_space_fixed [] h = refl
trim_right_space_fixed (c ∷ s) h =
    rw (trim_right_space_fixed s (ground arith))
      (keep_nonblank c s (host_char_no_space c (ground arith)))

to_lower_fixed : ⦃t : Unicode⦄ → (s : String) → all_host_chars s ≡ true → to_lower s ≡ s
unfolding all_host_chars to_lower
to_lower_fixed [] h = refl
to_lower_fixed (c ∷ s) h = rw (host_char_fixed c (ground arith), to_lower_fixed s (ground arith))

-- Of such characters only a last dot goes.
canonical_host_chars :
    ⦃t : Unicode⦄ → (s : String) → all_host_chars s ≡ true → canonical_host s ≡ trim_suffix s "."
unfolding canonical_host trim_space
canonical_host_chars s h =
    rw (trim_left_space_fixed s h, trim_right_space_fixed s h, to_lower_fixed s h)

append_dot_nonempty : (s : String) → (s ++ ".") ≢ []
append_dot_nonempty [] e = cons≢nil e
append_dot_nonempty (c ∷ s) e = cons≢nil (rw cons-append at e)

-- A longer text is not the dot.
longer-ne-dot : (c : Char) (s : String) → s ≢ [] → ((c ∷ s) == ".") ≡ false
longer-ne-dot c s h = elim (string_eq.dec (c ∷ s) ".") as (λ d. ite d true false ≡ false) [
  | yes e ↦ absurd (h (tail-eq_of_cons-eq e))
  | no _ ↦ refl
]

trim_suffix_dot : (s : String) → trim_suffix (s ++ ".") "." ≡ s
unfolding trim_suffix
trim_suffix_dot [] = unfold string_eq in refl
trim_suffix_dot (c ∷ s) =
    rw (cons-append c s ".", trim_suffix, longer-ne-dot c (s ++ ".") (append_dot_nonempty s))
      (ap (◌∷◌ c) (trim_suffix_dot s))

abbrev dot : Char
dot = "."

alphanumeric-ne-dot : (c : Char) → is_alphanumeric c ≡ true → ((c ∷ []) == ".") ≡ false
unfolding is_alphanumeric
alphanumeric-ne-dot c h = elim (string_eq.dec (c ∷ []) ".") as (λ d. ite d true false ≡ false) [
  | yes e ↦ absurd (clash (ap code (head-eq_of_cons-eq e)))
  | no _ ↦ refl
]
  where
    clash : code c ≡ 46 → ⊥
    clash e = ground arith

trim_suffix_tail : (s : String) → host_tail s ≡ true → trim_suffix s "." ≡ s
unfolding trim_suffix host_tail
trim_suffix_tail [] h = cc
trim_suffix_tail (c ∷ []) h = rw (alphanumeric-ne-dot c h)
trim_suffix_tail (c ∷ (d ∷ s)) h =
    rw (longer-ne-dot c (d ∷ s) cons≢nil) (ap (◌∷◌ c) (trim_suffix_tail (d ∷ s) (ground arith)))

host_tail-all : (s : String) → host_tail s ≡ true → all_host_chars s ≡ true
unfolding host_tail all_host_chars
host_tail-all [] h = cc
host_tail-all (c ∷ []) h = ground (arith, alphanumeric-host_char c h)
host_tail-all (c ∷ (d ∷ s)) h = ground (arith, host_tail-all (d ∷ s))

valid-all : (s : String) → valid_caddy_host s ≡ true → all_host_chars s ≡ true
unfolding valid_caddy_host all_host_chars
valid-all [] h = cc
valid-all (c ∷ s) h = ground (arith, alphanumeric-host_char c, host_tail-all s)

trim_suffix_valid : (s : String) → valid_caddy_host s ≡ true → trim_suffix s "." ≡ s
unfolding valid_caddy_host trim_suffix host_tail
trim_suffix_valid [] h = cc
trim_suffix_valid (c ∷ []) h = ground arith
trim_suffix_valid (c ∷ (d ∷ s)) h =
    rw (longer-ne-dot c (d ∷ s) cons≢nil) (ap (◌∷◌ c) (trim_suffix_tail (d ∷ s) (ground arith)))

all-append_dot : (s : String) → all_host_chars s ≡ true → all_host_chars (s ++ ".") ≡ true
unfolding all_host_chars is_host_char nat_eq
all-append_dot [] h = refl
all-append_dot (c ∷ s) h = rw (cons-append c s ".") (ground (arith, all-append_dot s))

module _ ⦃t : Unicode⦄ (h : String) (valid : valid_caddy_host h ≡ true) where
  -- A host that the runtime accepts is its own canonical form.
  pub canonical_host_valid : canonical_host h ≡ h
  canonical_host_valid = canonical_host_chars h (valid-all h valid) ∙ trim_suffix_valid h valid

  -- With one dot behind it, its canonical form is the host.
  pub canonical_host_dot : canonical_host (h ++ ".") ≡ h
  canonical_host_dot =
      canonical_host_chars (h ++ ".") (all-append_dot h (valid-all h valid)) ∙ trim_suffix_dot h

  -- With two dots behind it, its canonical form still has one.
  pub canonical_host_dots : canonical_host ((h ++ ".") ++ ".") ≡ h ++ "."
  canonical_host_dots =
      canonical_host_chars ((h ++ ".") ++ ".")
        (all-append_dot (h ++ ".") (all-append_dot h (valid-all h valid)))
      ∙ trim_suffix_dot (h ++ ".")

-- A dot makes another text.
pub append_dot-ne : (s : String) → (s ++ ".") ≢ s
append_dot-ne s e = omega (arith, ap count e, length-append s ".")
