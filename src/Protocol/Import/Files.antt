-- ===== src/Protocol/Import/Files.antt =====
-- The observations that are derived from the path of a file.
use pubky_swarm.Base.{
  ℕ, ◌<◌, ◌≤◌, ◌≡◌, ◌↔◌, ◌⊎◌, refl, sym, Bool, true, false, inl, inr, ◌||◌, some, List, [], ◌∷◌,
  ◌==◌, arith, length, All, all, Bool-cases, Option-cases,
}
use pubky_swarm.Base.Bytes.{Bytes, is_digit, is_ascii_lowercase}
use pubky_swarm.Base.Split.{bytes_eq_nil_iff}
use pubky_swarm.Base.Result.{Result, ok, >>=-eq-ok, >>-eq-ok}
use pubky_swarm.Protocol.Crates.{Crates}
use pubky_swarm.Protocol.Error.{Error}
use pubky_swarm.Protocol.Portable.{validate_portable_path}
use pubky_swarm.Protocol.Import.{
  TorrentRef, info_authenticated, ObservationValue, file_extension, file_type, ImportObservation,
  validate_extension, validate_value, validate, new,
}
use pubky_swarm.Protocol.Import.Extension.{HasExtension, extension_of_iff}
use pubky_swarm.Protocol.Import.Sources.{
  extension_of, content_type_for_extension, derive_observations, derive_file_observations,
}

-- 1 to 32 of `a` to `z` and `0` to `9`.
abbrev pub IsExtensionByte : ℕ → Type 0
IsExtensionByte b = ((97 ≤ b) × (b ≤ 122)) ⊎ ((48 ≤ b) × (b ≤ 57))

abbrev pub IsExtension : Bytes → Type 0
IsExtension e = (0 < length e) × (length e ≤ 32) × All IsExtensionByte e

extension_byte : ℕ → Bool
extension_byte b = is_ascii_lowercase b || is_digit b

extension_byte_iff : (b : ℕ) → (extension_byte b ≡ true) ↔ IsExtensionByte b
unfolding extension_byte
extension_byte_iff b = ground arith

all-IsExtensionByte : (s : Bytes) → (all extension_byte s ≡ true) ↔ All IsExtensionByte s
all-IsExtensionByte [] = (λ h. tt, λ h. refl)
all-IsExtensionByte (b ∷ s) = (
  λ h.
      ((extension_byte_iff b).0 (ground (arith, h)), (all-IsExtensionByte s).0 (ground (arith, h))),
  λ (h, hs). ground (arith, (extension_byte_iff b).1 h, (all-IsExtensionByte s).1 hs),
)

validate_extension_iff : (e : Bytes) → (validate_extension e ≡ ok tt) ↔ IsExtension e
unfolding validate_extension extension_byte
validate_extension_iff e = (
  λ h. (
    (bytes_eq_nil_iff e).0 (ground (arith, h)),
    ground (arith, h),
    (all-IsExtensionByte e).0 (ground (arith, h)),
  ),
  λ (some_bytes, short, good).
      ground (arith, short, (bytes_eq_nil_iff e).1 some_bytes, (all-IsExtensionByte e).1 good),
)

accept_one : ImportObservation → Result Error ImportObservation
accept_one = ok

observation_is : (a b : ImportObservation) → accept_one a ≡ ok b → a ≡ b
unfolding accept_one
observation_is a b e = ground arith

accept_all : List ImportObservation → Result Error (List ImportObservation)
accept_all = ok

observations_are : (a b : List ImportObservation) → accept_all a ≡ ok b → a ≡ b
unfolding accept_all
observations_are a b e = ground arith

module _ (x : Crates) (subject : TorrentRef) (observed_at : ℕ) where
  -- The observation of a value that the info dictionary gives.
  abbrev pub authenticated : ObservationValue → ImportObservation
  authenticated value = record {
    subject = subject;
    observed_at = observed_at;
    provenance = info_authenticated;
    value = value;
  }

  new-authenticated :
      (v : ObservationValue) (o : ImportObservation)
      → new x subject observed_at info_authenticated v ≡ ok o
      → (0 < observed_at) × (authenticated v ≡ o)
  unfolding new accept_one
  new-authenticated v o e = elim (Bool-cases (observed_at == 0)) [
    | inl k ↦ cc (rw (new, k) at e)
    | inr k ↦
        let (_, same) = >>-eq-ok (validate x (authenticated v)) _ (rw (new, k) at e) in
        (ground (arith, k), observation_is (authenticated v) o same)
  ]

  authenticated-new :
      (v : ObservationValue)
      → 0 < observed_at
      → validate_value x subject info_authenticated v ≡ ok tt
      → new x subject observed_at info_authenticated v ≡ ok (authenticated v)
  unfolding new validate
  authenticated-new v h good =
      let positive : observed_at == 0 ≡ false = ground (arith, h) in
      rw (new, positive, validate, good) refl

  abbrev pub both : Bytes → List ImportObservation
  both e =
      authenticated (file_extension e)
      ∷ authenticated (file_type (content_type_for_extension e))
      ∷ []

  derive_observations-eq-ok :
      (e : Bytes) (os : List ImportObservation)
      → derive_observations x subject observed_at (some e) ≡ ok os
      → IsExtension e × (0 < observed_at) × (both e ≡ os)
  unfolding derive_observations accept_all
  derive_observations-eq-ok e os h =
      let (good, h₁) = >>-eq-ok (validate_extension e) _ h in
      let (named, e₂, h₂) =
        >>=-eq-ok (new x subject observed_at info_authenticated (file_extension e)) _ h₁ in
      let (typed, e₃, h₃) =
        >>=-eq-ok
          (new x subject observed_at info_authenticated (file_type (content_type_for_extension e)))
          _ h₂ in
      let (positive, named_is) = new-authenticated (file_extension e) named e₂ in
      let (_, typed_is) = new-authenticated (file_type (content_type_for_extension e)) typed e₃ in
      (
        (validate_extension_iff e).0 good,
        positive,
        rw (named_is, typed_is) (observations_are (named ∷ typed ∷ []) os h₃),
      )

  derive_observations-both :
      (e : Bytes)
      → IsExtension e
      → 0 < observed_at
      → derive_observations x subject observed_at (some e) ≡ ok (both e)
  unfolding derive_observations validate_value
  derive_observations-both e good h =
      let valid = (validate_extension_iff e).1 good in
      rw
        (
          derive_observations,
          valid,
          authenticated-new (file_extension e) h valid,
          authenticated-new (file_type (content_type_for_extension e)) h refl,
        )
        refl

  -- Nothing for a path without extension, and the extension and its content type for another.
  abbrev pub Derives : Bytes → List ImportObservation → Type 0
  Derives path os =
      (((e : Bytes) → HasExtension path e → ⊥) × (os ≡ []))
      ⊎ ((e : Bytes) × HasExtension path e × IsExtension e × (0 < observed_at) × (os ≡ both e))

  derived :
      (path : Bytes) (os : List ImportObservation)
      → derive_observations x subject observed_at (extension_of path) ≡ ok os
      → Derives path os
  unfolding derive_observations accept_all
  derived path os h = elim (Option-cases (extension_of path)) [
    | inl k ↦ inl (
      λ e has. cc (k, (extension_of_iff path e).1 has),
      sym (observations_are [] os (rw (derive_observations, k) at h)),
    )
    | inr (e, k) ↦
        let (good, positive, same) = derive_observations-eq-ok e os (rw k at h) in
        inr (e, (extension_of_iff path e).0 k, good, positive, sym same)
  ]

  derives :
      (path : Bytes) (os : List ImportObservation)
      → Derives path os
      → derive_observations x subject observed_at (extension_of path) ≡ ok os
  unfolding derive_observations
  derives path os (inl (lacks, none_are)) = elim (Option-cases (extension_of path)) [
    | inl k ↦ rw (derive_observations, k, none_are) refl
    | inr (e, k) ↦ absurd (lacks e ((extension_of_iff path e).0 k))
  ]
  derives path os (inr (e, has, good, positive, same)) =
      rw ((extension_of_iff path e).1 has, same) (derive_observations-both e good positive)

  -- What is derived from a path is returned exactly when the path is portable and either it has no
  -- extension and nothing is derived, or it has an extension of 1 to 32 letters and digits, the time
  -- is positive, and what is derived is that extension in lower case and its content type, both
  -- attributed to the info dictionary. The extension is what follows the last dot of the path, when
  -- it is not empty and has no slash.
  pub derive_file_observations_iff :
      (path : Bytes) (os : List ImportObservation)
      → (derive_file_observations x subject observed_at path ≡ ok os)
        ↔ ((validate_portable_path path ≡ ok tt) × Derives path os)
  unfolding derive_file_observations
  derive_file_observations_iff path os = (
    λ h.
        let (portable, rest) = >>-eq-ok (validate_portable_path path) _ h in
        (portable, derived path os rest),
    λ (portable, d). rw (derive_file_observations, portable) (derives path os d),
  )
