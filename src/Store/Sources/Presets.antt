-- ===== src/Store/Sources/Presets.antt =====
-- crates/swarm-store/src/sources.rs: the built-in RSS presets. Their descriptions are shown only.
use Prim.Native.String.{String}
use pubky_swarm.Base.{
  ◌+◌, ◌≡◌, refl, inl, inr, Bool, true, false, List, [], ◌∷◌, ◌++◌, if◌then◌else◌, All, Bool-cases,
}
use pubky_swarm.Base.Bytes.{Bytes, codes, bytes_eq, bytes_eq_iff, bytes_eq_refl}
use pubky_swarm.Base.Text.{Text}
use pubky_swarm.Store.{SourceRow, Store}
use pubky_swarm.Store.Table.{has}
use pubky_swarm.Store.Table.Laws.{has-append}

pub record BuiltInRssPreset : Type 0 where
  pub name : Text
  pub endpoint : Bytes
  pub enabled_by_default : Bool

preset : String → String → Bool → BuiltInRssPreset
preset name endpoint enabled = record {
  name = codes name;
  endpoint = codes endpoint;
  enabled_by_default = enabled;
}

unfoldable pub built_in_rss_presets : List BuiltInRssPreset
unfolding preset
built_in_rss_presets =
    preset "Academic Torrents — Recent" "https://academictorrents.com/rss.xml" true
    ∷ preset "Academic Torrents — Deep Learning"
        "https://academictorrents.com/collection/deep-learning.xml" false
    ∷ preset "Academic Torrents — Computer Vision"
        "https://academictorrents.com/collection/computer-vision.xml" false
    ∷ preset "Academic Torrents — Medical" "https://academictorrents.com/collection/medical.xml"
        false
    ∷ preset "Academic Torrents — Video Lectures"
        "https://academictorrents.com/collection/video-lectures.xml" false
    ∷ preset "Academic Torrents — English Wikipedia"
        "https://academictorrents.com/collection/english-wikipedia.xml" false
    ∷ []

unfoldable pub add_row : BuiltInRssPreset → Store → Store
add_row p store = record store {
  catalog_sources =
      store.catalog_sources
      ++ (record {
        source_id = store.last_source + 1;
        name = p.name;
        kind = codes "rss";
        endpoint = p.endpoint;
        enabled = p.enabled_by_default;
        built_in = true;
        requires_api_key = false;
        added_at = 1;
      })
        ∷ [];
  last_source = store.last_source + 1;
}

-- `INSERT … SELECT … WHERE NOT EXISTS`.
unfoldable pub insert_preset : BuiltInRssPreset → Store → Store
insert_preset p store =
    if has bytes_eq SourceRow.endpoint p.endpoint store.catalog_sources
    then store
    else add_row p store

-- The loop over the presets.
unfoldable pub ensure_presets : List BuiltInRssPreset → Store → Store
ensure_presets [] store = store
ensure_presets (p ∷ presets) store = ensure_presets presets (insert_preset p store)

abbrev pub Has : Store → BuiltInRssPreset → Type 0
Has s p = has bytes_eq SourceRow.endpoint p.endpoint s.catalog_sources ≡ true

add_row-Has : (p q : BuiltInRssPreset) (s : Store) → Has s q → Has (add_row p s) q
unfolding add_row
add_row-Has p q s h =
    rw (has-append bytes_eq SourceRow.endpoint bytes_eq_iff q.endpoint s.catalog_sources _, h) refl

insert_preset-Has : (p q : BuiltInRssPreset) (s : Store) → Has s q → Has (insert_preset p s) q
unfolding insert_preset
insert_preset-Has p q s h =
    elim (Bool-cases (has bytes_eq SourceRow.endpoint p.endpoint s.catalog_sources)) [
      | inl k ↦ rw (insert_preset, k) h
      | inr k ↦ rw (insert_preset, k) (add_row-Has p q s h)
    ]

insert_preset-own : (p : BuiltInRssPreset) (s : Store) → Has (insert_preset p s) p
unfolding insert_preset add_row
insert_preset-own p s =
    elim (Bool-cases (has bytes_eq SourceRow.endpoint p.endpoint s.catalog_sources)) [
      | inl k ↦ rw (insert_preset, k) k
      | inr k ↦
          rw
            (
              insert_preset,
              k,
              has-append bytes_eq SourceRow.endpoint bytes_eq_iff p.endpoint s.catalog_sources _,
              bytes_eq_refl p.endpoint,
              k,
            )
            refl
    ]

ensure_presets-Has :
    (presets : List BuiltInRssPreset) (q : BuiltInRssPreset) (s : Store)
    → Has s q
    → Has (ensure_presets presets s) q
unfolding ensure_presets
ensure_presets-Has [] q s h = h
ensure_presets-Has (p ∷ presets) q s h =
    ensure_presets-Has presets q (insert_preset p s) (insert_preset-Has p q s h)

-- Every preset is there afterwards.
pub ensure_presets-All :
    (presets : List BuiltInRssPreset) (s : Store) → All (Has (ensure_presets presets s)) presets
unfolding ensure_presets
ensure_presets-All [] s = tt
ensure_presets-All (p ∷ presets) s = (
  ensure_presets-Has presets p (insert_preset p s) (insert_preset-own p s),
  ensure_presets-All presets (insert_preset p s),
)

-- Nothing is inserted twice.
pub ensure_presets_again :
    (presets : List BuiltInRssPreset) (s : Store)
    → All (Has s) presets
    → ensure_presets presets s ≡ s
unfolding ensure_presets insert_preset
ensure_presets_again [] s h = refl
ensure_presets_again (p ∷ presets) s (h, hs) =
    rw (ensure_presets, insert_preset, h) (ensure_presets_again presets s hs)

-- The other tables stay.
abbrev pub SameCaches : Store → Store → Type 0
SameCaches s t =
    (t.followed_publishers ≡ s.followed_publishers)
    × (t.release_cache ≡ s.release_cache)
    × (t.event_cursors ≡ s.event_cursors)
    × (t.authority_sequences ≡ s.authority_sequences)

insert_preset-SameCaches : (p : BuiltInRssPreset) (s : Store) → SameCaches s (insert_preset p s)
unfolding insert_preset add_row
insert_preset-SameCaches p s =
    elim (Bool-cases (has bytes_eq SourceRow.endpoint p.endpoint s.catalog_sources)) [
      | inl k ↦ rw (insert_preset, k) (refl, refl, refl, refl)
      | inr k ↦ rw (insert_preset, k) (refl, refl, refl, refl)
    ]

pub ensure_presets-SameCaches :
    (presets : List BuiltInRssPreset) (s : Store) → SameCaches s (ensure_presets presets s)
unfolding ensure_presets
ensure_presets-SameCaches [] s = (refl, refl, refl, refl)
ensure_presets-SameCaches (p ∷ presets) s =
    let (a, b, c, d) = insert_preset-SameCaches p s in
    let (e, f, g, h) = ensure_presets-SameCaches presets (insert_preset p s) in
    (cc (a, e), cc (b, f), cc (c, g), cc (d, h))
