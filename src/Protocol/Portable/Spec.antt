-- ===== src/Protocol/Portable/Spec.antt =====
-- What an accepted path is: a `/`-separated list of portable names.
use pubky_swarm.Base.{
  ◌≤◌, ◌≡◌, refl, ◌≢◌, ◌↔◌, true, false, List, [], ◌∷◌, arith, length, All, all, any, ap, sym, ◌∙◌,
}
use pubky_swarm.Base.Bytes.{Bytes, bytes_eq, bytes_eq_iff, bytes_eq_refl}
use pubky_swarm.Base.Paths.{
  join, split, components, is_normal, texts, IsPlain, join-split, Component,
}
use pubky_swarm.Base.Paths.Canonical.{components-canonical, components-IsPlain}
use pubky_swarm.Base.Result.{ok}
use pubky_swarm.Protocol.Portable.{is_unportable, validate_portable_path}

-- A piece is a name, and no test refuses it.
abbrev pub IsPortableName : Bytes → Type 0
IsPortableName p = IsPlain p × (is_unportable p ≡ false)

-- The pieces of a path between its slashes are at most 64 portable names.
pub record IsPortablePath (s : Bytes) : Type 0 where
  pub some_bytes : bytes_eq s [] ≡ false
  pub short : length s ≤ 4096
  pub few : length (split b'/' s) ≤ 64
  pub names : All IsPortableName (split b'/' s)

any-false : (ps : List Bytes) → any is_unportable ps ≡ false → All (λ p. is_unportable p ≡ false) ps
any-false [] h = tt
any-false (p ∷ ps) h = (ground arith, any-false ps (ground arith))

false-any : (ps : List Bytes) → All IsPortableName ps → any is_unportable ps ≡ false
false-any [] h = refl
false-any (p ∷ ps) h = ground (arith, h.0.1, false-any ps h.1)

both :
    (ps : List Bytes)
    → All IsPlain ps
    → All (λ p. is_unportable p ≡ false) ps
    → All IsPortableName ps
both [] h k = tt
both (p ∷ ps) h k = ((h.0, k.0), both ps h.1 k.1)

IsPlain-part : (ps : List Bytes) → All IsPortableName ps → All IsPlain ps
IsPlain-part [] h = tt
IsPlain-part (p ∷ ps) h = (h.0.0, IsPlain-part ps h.1)

length-texts : (cs : List Component) → length (texts cs) ≡ length cs
length-texts [] = refl
length-texts (c ∷ cs) = omega (arith, length-texts cs)

-- The tests of the code that an accepted path has passed.
record Passed (s : Bytes) : Type 0 where
  some_bytes : bytes_eq s [] ≡ false
  short : length s ≤ 4096
  few : length (components s) ≤ 64
  names : all is_normal (components s) ≡ true
  canonical : bytes_eq (join b'/' (texts (components s))) s ≡ true
  portable : any is_unportable (texts (components s)) ≡ false

passed : (s : Bytes) → validate_portable_path s ≡ ok tt → Passed s
unfolding validate_portable_path
passed s h = ground arith

ne_nil : (s : Bytes) → bytes_eq s [] ≡ false → s ≢ []
ne_nil s h e = cc ((bytes_eq_iff s []).1 e)

sound : (s : Bytes) → validate_portable_path s ≡ ok tt → IsPortablePath s
sound s h =
    let t = passed s h in
    let c =
      components-canonical s t.names (ne_nil s t.some_bytes) ((bytes_eq_iff _ s).0 t.canonical) in
    record {
      some_bytes = t.some_bytes;
      short = t.short;
      few = omega (arith, t.few, length-texts (components s), ap (length {A = Bytes}) c.0);
      names = both _ c.1 (any-false _ (rw c.0 at t.portable));
    }

length-split : (s : Bytes) → 1 ≤ length (split b'/' s)
unfolding split
length-split s = omega arith

complete : (s : Bytes) → IsPortablePath s → validate_portable_path s ≡ ok tt
unfolding validate_portable_path
complete s h =
    let c = components-IsPlain s (IsPlain-part _ h.names) in
    let n : length (components s) ≡ length (split b'/' s) =
      sym (length-texts (components s)) ∙ ap (length {A = Bytes}) c.1 in
    let j : bytes_eq (join b'/' (texts (components s))) s ≡ true =
      rw (c.1, join-split b'/' s) (bytes_eq_refl s) in
    let u : any is_unportable (texts (components s)) ≡ false = rw c.1 (false-any _ h.names) in
    ground (arith, c.0, c.2, n, j, u, h.some_bytes, h.short, h.few, length-split s)

-- A path is accepted exactly when it is at most 4096 bytes, not empty, and its pieces between
-- slashes are at most 64 portable names, none of them empty, `.` or `..`.
pub validate_portable_path_iff : (s : Bytes) → (validate_portable_path s ≡ ok tt) ↔ IsPortablePath s
validate_portable_path_iff s = (sound s, complete s)
