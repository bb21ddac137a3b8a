-- ===== src/Protocol/Manifest/Order.antt =====
-- A valid manifest lists its objects by increasing path, and `object` finds exactly the declared
-- ones.
use pubky_swarm.Base.{
  ℕ, zero, suc, ◌<◌, ◌≡◌, refl, true, false, Option, none, some, List, [], ◌∷◌, ◌++◌, arith, length,
  get_elem?, All,
}
use pubky_swarm.Base.Bytes.{Bytes, codes, bytes_lt, bytes_lt-StrictOrder, starts_with}
use pubky_swarm.Base.Sort.{sort}
use pubky_swarm.Base.Result.{ok, >>-eq-ok}
use pubky_swarm.Protocol.Portable.{validate_portable_path}
use pubky_swarm.Protocol.Ids.{PublisherId}
use pubky_swarm.Protocol.Manifest.{
  ManifestObjectV1, DatasetManifestV1, follows, objects_from, validate, path_lt, new,
}
use pubky_swarm.Protocol.Manifest.RoundTrip.{Header, validate-Header}

-- Neighbours stand in increasing order, and none is a directory of the next.
abbrev pub Ascending : List ManifestObjectV1 → Type 0
Ascending [] = Unit
Ascending (o ∷ []) = Unit
Ascending (o ∷ p ∷ os) =
    (bytes_lt o.path p.path ≡ true)
    × (starts_with (o.path ++ codes "/") p.path ≡ false)
    × Ascending (p ∷ os)

abbrev HasPortablePath : ManifestObjectV1 → Type 0
HasPortablePath o = validate_portable_path o.path ≡ ok tt

follows-eq-ok :
    (p q : Bytes)
    → follows (some p) q ≡ ok tt
    → (bytes_lt p q ≡ true) × (starts_with (p ++ codes "/") q ≡ false)
unfolding follows
follows-eq-ok p q e = ground arith

objects_from-eq-ok :
    (previous : Option Bytes) (os : List ManifestObjectV1)
    → objects_from previous os ≡ ok tt
    → All HasPortablePath os × Ascending os
unfolding objects_from
objects_from-eq-ok previous [] e = (tt, tt)
objects_from-eq-ok previous (o ∷ []) e =
    (((>>-eq-ok (validate_portable_path o.path) _ e).0, tt), tt)
objects_from-eq-ok previous (o ∷ p ∷ os) e =
    let (portable, k₁) = >>-eq-ok (validate_portable_path o.path) _ e in
    let (_, k₂) = >>-eq-ok (follows previous o.path) _ k₁ in
    let (rest_portable, rest) = objects_from-eq-ok (some o.path) (p ∷ os) k₂ in
    let (_, k₃) = >>-eq-ok (validate_portable_path p.path) _ k₂ in
    let (next, _) = >>-eq-ok (follows (some o.path) p.path) _ k₃ in
    let (lt, apart) = follows-eq-ok o.path p.path next in
    ((portable, rest_portable), (lt, apart, rest))

-- What validation promises.
pub record IsValid (m : DatasetManifestV1) : Type 0 where
  pub header : Header m
  pub portable : All (λ (o : ManifestObjectV1). validate_portable_path o.path ≡ ok tt) m.objects
  pub ascending : Ascending m.objects

validate_objects :
    (m : DatasetManifestV1) → validate m ≡ ok tt → objects_from none m.objects ≡ ok tt
unfolding validate
validate_objects m e = ground arith

pub validate-IsValid : (m : DatasetManifestV1) → validate m ≡ ok tt → IsValid m
validate-IsValid m e =
    let (portable, ascending) = objects_from-eq-ok none m.objects (validate_objects m e) in
    record { header = validate-Header m e; portable = portable; ascending = ascending }

-- A manifest that `new` returns is valid, keeps the publisher and the time it was given, and lists
-- the given objects sorted by path.
pub new-eq-ok :
    (publisher : PublisherId) (created_at : ℕ) (objects : List ManifestObjectV1)
    (m : DatasetManifestV1)
    → new publisher created_at objects ≡ ok m
    → (validate m ≡ ok tt)
      × (m.publisher ≡ publisher)
      × (m.created_at ≡ created_at)
      × (m.objects ≡ sort path_lt objects)
unfolding new
new-eq-ok publisher created_at objects m e = ground arith

-- The head of an ascending list is below all that follows.
head_lt :
    (o : ManifestObjectV1) (os : List ManifestObjectV1) (j : ℕ) (b : ManifestObjectV1)
    → Ascending (o ∷ os)
    → get_elem? os j ≡ some b
    → bytes_lt o.path b.path ≡ true
head_lt o [] j b h e = cc
head_lt o (p ∷ os) zero b h e = let same : p ≡ b = cc in rw same at h.0
head_lt o (p ∷ os) (suc j) b h e =
    bytes_lt-StrictOrder.trans o.path p.path b.path h.0 (head_lt p os j b h.2 e)

tail-Ascending :
    (o : ManifestObjectV1) (os : List ManifestObjectV1) → Ascending (o ∷ os) → Ascending os
tail-Ascending o [] h = tt
tail-Ascending o (p ∷ os) h = h.2

-- Of two objects, the one with the lower index has the lower path.
pub index_lt :
    (os : List ManifestObjectV1) (i j : ℕ) (a b : ManifestObjectV1)
    → Ascending os
    → i < j
    → get_elem? os i ≡ some a
    → get_elem? os j ≡ some b
    → bytes_lt a.path b.path ≡ true
index_lt [] i j a b h l e f = cc
index_lt (o ∷ os) i zero a b h l e f = elim l [ ]
index_lt (o ∷ os) zero (suc j) a b h l e f =
    let same : o ≡ a = cc in rw (← same) (head_lt o os j b h f)
index_lt (o ∷ os) (suc i) (suc j) a b h l e f =
    index_lt os i j a b (tail-Ascending o os h) (omega arith) e f

pub in_range :
    (os : List ManifestObjectV1) (i : ℕ)
    → i < length os
    → (a : ManifestObjectV1) × (get_elem? os i ≡ some a)
in_range [] i l = elim l [ ]
in_range (o ∷ os) zero l = (o, refl)
in_range (o ∷ os) (suc i) l = in_range os i (omega arith)

pub index_of_some :
    (os : List ManifestObjectV1) (i : ℕ) (a : ManifestObjectV1)
    → get_elem? os i ≡ some a
    → i < length os
index_of_some [] i a e = cc
index_of_some (o ∷ os) zero a e = omega arith
index_of_some (o ∷ os) (suc i) a e = omega (arith, index_of_some os i a e)
