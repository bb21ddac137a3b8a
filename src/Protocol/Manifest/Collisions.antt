-- ===== src/Protocol/Manifest/Collisions.antt =====
-- The test for a file used as a directory looks at neighbours in the order of whole paths, where
-- `-` comes before `/`: a path between the two hides the collision.
use pubky_swarm.Base.{
  ℕ, ◌<◌, ◌≡◌, refl, true, false, none, some, [], ◌∷◌, ◌++◌, arith, append_assoc, append-nil,
}
use pubky_swarm.Base.Bytes.{
  Bytes, codes, bytes_eq_refl, bytes_lt, starts_with, strip_prefix, starts_with-append,
}
use pubky_swarm.Base.Result.{ok}
use pubky_swarm.Protocol.Portable.{validate_portable_path}
use pubky_swarm.Protocol.Ids.{PublisherId}
use pubky_swarm.Protocol.Manifest.{
  ManifestObjectV1, DatasetManifestV1, manifest_schema, manifest_version, follows, objects_from,
  validate,
}

-- Below a common start, the rest decides.
bytes_lt-append : (p a b : Bytes) → bytes_lt (p ++ a) (p ++ b) ≡ bytes_lt a b
unfolding bytes_lt
bytes_lt-append [] a b = refl
bytes_lt-append (c ∷ p) a b = ground (arith, bytes_lt-append p a b)

strip_prefix-append_left : (p a b : Bytes) → strip_prefix (p ++ a) (p ++ b) ≡ strip_prefix a b
unfolding strip_prefix
strip_prefix-append_left [] a b = refl
strip_prefix-append_left (c ∷ p) a b = ground (arith, strip_prefix-append_left p a b)

starts_with-append_left : (p a b : Bytes) → starts_with (p ++ a) (p ++ b) ≡ starts_with a b
unfolding starts_with
starts_with-append_left p a b = rw (strip_prefix-append_left p a b, starts_with)

-- A file `p`, a file whose name goes on with `-`, and a file in the directory `p`.
abbrev pub dashed : Bytes → Bytes
dashed p = p ++ codes "-"

abbrev pub inside : Bytes → Bytes → Bytes
inside p q = p ++ (codes "/" ++ q)

lt_dashed : (p : Bytes) → bytes_lt p (dashed p) ≡ true
unfolding bytes_lt
lt_dashed p = rw append-nil at (bytes_lt-append p [] (codes "-"))

lt_inside : (p q : Bytes) → bytes_lt (dashed p) (inside p q) ≡ true
unfolding bytes_lt
lt_inside p q = bytes_lt-append p (codes "-") (codes "/" ++ q)

apart_dashed : (p : Bytes) → starts_with (p ++ codes "/") (dashed p) ≡ false
unfolding starts_with
apart_dashed p = starts_with-append_left p (codes "/") (codes "-")

apart_inside : (p q : Bytes) → starts_with (dashed p ++ codes "/") (inside p q) ≡ false
unfolding starts_with
apart_inside p q =
    rw append_assoc (starts_with-append_left p (codes "-" ++ codes "/") (codes "/" ++ q))

collides : (p q : Bytes) → starts_with (p ++ codes "/") (inside p q) ≡ true
collides p q = rw append_assoc at (starts_with-append (p ++ codes "/") q)

follows_intro :
    (p q : Bytes)
    → bytes_lt p q ≡ true
    → starts_with (p ++ codes "/") q ≡ false
    → follows (some p) q ≡ ok tt
unfolding follows
follows_intro p q h k = rw (h, k)

follows_dashed : (p : Bytes) → follows (some p) (dashed p) ≡ ok tt
follows_dashed p = follows_intro p (dashed p) (lt_dashed p) (apart_dashed p)

follows_inside : (p q : Bytes) → follows (some (dashed p)) (inside p q) ≡ ok tt
follows_inside p q = follows_intro (dashed p) (inside p q) (lt_inside p q) (apart_inside p q)

follows_first : (p : Bytes) → follows none p ≡ ok tt
unfolding follows
follows_first p = refl

-- The three objects, in the order of their paths.
abbrev pub three :
    PublisherId → ℕ → ManifestObjectV1 → ManifestObjectV1 → ManifestObjectV1 → DatasetManifestV1
three publisher created_at a b c = record {
  schema = manifest_schema;
  version = manifest_version;
  publisher = publisher;
  created_at = created_at;
  objects = a ∷ b ∷ c ∷ [];
}

loop_accepts :
    (a b c : ManifestObjectV1) (q : Bytes)
    → b.path ≡ dashed a.path
    → c.path ≡ inside a.path q
    → validate_portable_path a.path ≡ ok tt
    → validate_portable_path b.path ≡ ok tt
    → validate_portable_path c.path ≡ ok tt
    → objects_from none (a ∷ b ∷ c ∷ []) ≡ ok tt
unfolding objects_from
loop_accepts a b c q dash slash ha hb hc =
    let second : follows (some a.path) b.path ≡ ok tt = rw dash (follows_dashed a.path) in
    let third : follows (some b.path) c.path ≡ ok tt = rw (dash, slash) (follows_inside a.path q) in
    ground (arith, follows_first a.path, second, third)

-- When `p`, `p-` and `p/q` are portable paths and the time is positive, a manifest of files at
-- these three paths is accepted, although `p/q` lies in the directory `p`: the collision is not
-- noticed.
pub hidden_collision :
    (publisher : PublisherId) (created_at : ℕ) (a b c : ManifestObjectV1) (q : Bytes)
    → 0 < created_at
    → b.path ≡ dashed a.path
    → c.path ≡ inside a.path q
    → validate_portable_path a.path ≡ ok tt
    → validate_portable_path b.path ≡ ok tt
    → validate_portable_path c.path ≡ ok tt
    → (validate (three publisher created_at a b c) ≡ ok tt)
      × (starts_with (a.path ++ codes "/") c.path ≡ true)
unfolding validate
hidden_collision publisher created_at a b c q positive dash slash ha hb hc = (
  rw (bytes_eq_refl manifest_schema) (ground (arith, loop_accepts a b c q dash slash ha hb hc)),
  rw slash (collides a.path q),
)
