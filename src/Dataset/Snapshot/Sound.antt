-- ===== src/Dataset/Snapshot/Sound.antt =====
-- A snapshot authenticates its contents.
use pubky_swarm.Base.{
  ℕ, zero, suc, ◌≡◌, refl, true, inl, inr, Option, none, some, List, [], ◌∷◌, arith, get_elem?,
  Bool-cases, Option-cases,
}
use pubky_swarm.Base.Bytes.{Bytes, bytes_eq, bytes_eq_iff}
use pubky_swarm.Base.Result.{ok, guard-eq-ok, >>-eq-ok}
use pubky_swarm.Protocol.Crates.{Crates}
use pubky_swarm.Protocol.Manifest.{ManifestObjectV1, DatasetManifestV1, object, validate}
use pubky_swarm.Protocol.Manifest.Lookup.{Declared, object_iff}
use pubky_swarm.Protocol.Manifest.Verify.{Matches}
use pubky_swarm.Dataset.ByteMap.{ByteMap, get, insert, get-insert}
use pubky_swarm.Dataset.Snapshot.{
  Snapshot, is_some, collect, check_object, check_objects, check_keys, new_snapshot, snapshot_get,
}

-- The map holds bytes for the object, and they match it.
abbrev Held : Crates → ByteMap → ManifestObjectV1 → Type 0
Held x map o = (bytes : Bytes) × (get o.path map ≡ some bytes) × Matches x o bytes

check_object-eq-ok :
    (x : Crates) (map : ByteMap) (o : ManifestObjectV1)
    → check_object x map o ≡ ok tt
    → Held x map o
unfolding check_object
check_object-eq-ok x map o e = elim (Option-cases (get o.path map)) [
  | inl n ↦ ground arith
  | inr (bytes, f) ↦
      let digest : bytes_eq (x.blake3 bytes) o.digest.bytes ≡ true = ground arith in
      (bytes, f, record { size_is = ground arith; digest_is = (bytes_eq_iff _ _).0 digest })
]

check_objects-eq-ok :
    (x : Crates) (map : ByteMap) (os : List ManifestObjectV1) (i : ℕ) (o : ManifestObjectV1)
    → check_objects x map os ≡ ok tt
    → get_elem? os i ≡ some o
    → Held x map o
unfolding check_objects
check_objects-eq-ok x map [] i o e f = cc
check_objects-eq-ok x map (p ∷ os) zero o e f =
    let same : p ≡ o = cc in
    rw same at (check_object-eq-ok x map p (>>-eq-ok (check_object x map p) _ e).0)
check_objects-eq-ok x map (p ∷ os) (suc i) o e f =
    check_objects-eq-ok x map os i o (>>-eq-ok (check_object x map p) _ e).1 f

-- A key that the loop has passed is the path of an object.
check_keys-eq-ok :
    (m : DatasetManifestV1) (map : ByteMap) (path bytes : Bytes)
    → check_keys m map ≡ ok tt
    → get path map ≡ some bytes
    → (o : ManifestObjectV1) × (object m path ≡ some o)
unfolding check_keys get
check_keys-eq-ok m [] path bytes e f = cc
check_keys-eq-ok m ((j, w) ∷ map) path bytes e f =
    let (here, later) = guard-eq-ok (is_some (object m j)) _ _ e in
    elim (Bool-cases (bytes_eq j path)) [
      | inl same ↦ rw ((bytes_eq_iff j path).0 same) at (found (object m j) here)
      | inr apart ↦ check_keys-eq-ok m map path bytes later (rw apart at f)
    ]
  where
    found : (r : Option ManifestObjectV1) → is_some r ≡ true → (o : ManifestObjectV1) × (r ≡ some o)
    found none h = cc
    found (some o) h = (o, refl)

-- The steps of `new`, each of which has succeeded.
pub record Checked (x : Crates) (m : DatasetManifestV1) (objects : List (Bytes × Bytes))
    (s : Snapshot) : Type 0 where
  pub manifest_is : s.manifest ≡ m
  pub collected : collect [] objects ≡ ok s.objects
  pub objects_match : check_objects x s.objects m.objects ≡ ok tt
  pub keys_declared : check_keys m s.objects ≡ ok tt

pub new_snapshot-eq-ok :
    (x : Crates) (m : DatasetManifestV1) (objects : List (Bytes × Bytes)) (s : Snapshot)
    → new_snapshot x m objects ≡ ok s
    → Checked x m objects s
unfolding new_snapshot
new_snapshot-eq-ok x m objects s e = ground arith

Matches-read :
    (x : Crates) (map : ByteMap) (o : ManifestObjectV1) (path bytes : Bytes)
    → Held x map o
    → o.path ≡ path
    → get path map ≡ some bytes
    → Matches x o bytes
Matches-read x map o path bytes (held, at, matches) level f =
    let there : get path map ≡ some held = rw (← level) at in
    let same : held ≡ bytes = cc in rw same at matches

-- Every byte string in the snapshot is that of a listed object, and every listed object is there.
pub record IsAuthentic (x : Crates) (s : Snapshot) : Type 0 where
  pub only_listed :
      (path bytes : Bytes)
      → snapshot_get s path ≡ some bytes
      → (o : ManifestObjectV1) × Declared s.manifest o × (o.path ≡ path) × Matches x o bytes
  pub all_listed :
      (o : ManifestObjectV1)
      → Declared s.manifest o
      → (bytes : Bytes) × (snapshot_get s o.path ≡ some bytes) × Matches x o bytes

IsAuthentic-parts :
    (x : Crates) (s : Snapshot)
    → validate s.manifest ≡ ok tt
    → check_objects x s.objects s.manifest.objects ≡ ok tt
    → check_keys s.manifest s.objects ≡ ok tt
    → IsAuthentic x s
unfolding snapshot_get
IsAuthentic-parts x s v match keys = record {
  only_listed = λ path bytes f.
      let (o, found) = check_keys-eq-ok s.manifest s.objects path bytes keys f in
      let ((i, at_i), level) = (object_iff s.manifest path o v).0 found in
      let held = check_objects-eq-ok x s.objects s.manifest.objects i o match at_i in
      (o, (i, at_i), level, Matches-read x s.objects o path bytes held level f);
  all_listed = λ o (i, at_i). check_objects-eq-ok x s.objects s.manifest.objects i o match at_i;
}

-- In a snapshot of a valid manifest, the bytes read at a path are those of an object that the
-- manifest lists at that path, and match its size and digest; and every listed object is there.
pub new_snapshot-IsAuthentic :
    (x : Crates) (m : DatasetManifestV1) (objects : List (Bytes × Bytes)) (s : Snapshot)
    → validate m ≡ ok tt
    → new_snapshot x m objects ≡ ok s
    → (s.manifest ≡ m) × IsAuthentic x s
new_snapshot-IsAuthentic x m objects s v e =
    let c = new_snapshot-eq-ok x m objects s e in
    let same = c.manifest_is in
    (same, IsAuthentic-parts x s (rw same v) (rw same c.objects_match) (rw same c.keys_declared))

-- What was in the map stays, for a list without repeated paths.
collect_keeps :
    (map : ByteMap) (objects : List (Bytes × Bytes)) (all_in : ByteMap) (k v : Bytes)
    → collect map objects ≡ ok all_in
    → get k map ≡ some v
    → get k all_in ≡ some v
unfolding collect
collect_keeps map [] all_in k v e f = ground arith
collect_keeps map ((p, b) ∷ objects) all_in k v e f = elim (Bool-cases (is_some (get p map))) [
  | inl old ↦ cc (rw old at e)
  | inr fresh ↦
      collect_keeps (insert p b map) objects all_in k v (rw fresh at e)
        (ground (arith, get-insert p k b map, bytes_eq_iff p k))
]

-- A list that was collected is in the map, each path with its bytes.
pub collect-get :
    (map : ByteMap) (objects : List (Bytes × Bytes)) (all_in : ByteMap) (i : ℕ) (path bytes : Bytes)
    → collect map objects ≡ ok all_in
    → get_elem? objects i ≡ some (path, bytes)
    → get path all_in ≡ some bytes
unfolding collect
collect-get map [] all_in i path bytes e f = cc
collect-get map ((p, b) ∷ objects) all_in zero path bytes e f =
    elim (Bool-cases (is_some (get p map))) [
      | inl old ↦ cc (rw old at e)
      | inr fresh ↦
          collect_keeps (insert p b map) objects all_in path bytes (rw fresh at e)
            (ground (arith, get-insert p path b map, bytes_eq_iff p path))
    ]
collect-get map ((p, b) ∷ objects) all_in (suc i) path bytes e f =
    elim (Bool-cases (is_some (get p map))) [
      | inl old ↦ cc (rw old at e)
      | inr fresh ↦ collect-get (insert p b map) objects all_in i path bytes (rw fresh at e) f
    ]
