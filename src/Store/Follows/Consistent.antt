-- ===== src/Store/Follows/Consistent.antt =====
-- Over any sequence of operations on follows, releases and cursors the keys stay unique and every
-- cursor belongs to a followed publisher.
use pubky_swarm.Base.{ℕ, ◌≡◌, refl, Bool, true, false, Option, List, [], ◌∷◌, arith, All}
use pubky_swarm.Base.Bytes.{Bytes, bytes_eq, bytes_eq_iff}
use pubky_swarm.Base.Order.{DecidesEq}
use pubky_swarm.Base.Pairs.{AllPairs, All-imp}
use pubky_swarm.Base.Result.{Result, ok, err, guard, Ensures, Ensures->>=}
use pubky_swarm.Protocol.Crates.{Crates}
use pubky_swarm.Protocol.Ids.{PublisherId, release_id_to_hex}
use pubky_swarm.Protocol.Release.{ReleaseV1}
use pubky_swarm.Store.{
  Libraries, Follow, CachedRelease, EventCursor, Store, connection, bind, clock, check_positive,
}
use pubky_swarm.Store.Failures.{Error, sqlite, foreign_key_failed}
use pubky_swarm.Store.Table.{has, without, insert_new}
use pubky_swarm.Store.Table.Laws.{has-without, has-insert_new, eq_sym}
use pubky_swarm.Store.Table.Distinct.{
  Distinct-insert_new, Distinct-without, Distinct-upsert, All-without, All-upsert, without-All,
}
use pubky_swarm.Store.Follows.{
  publisher_text, release_key, release_key_eq, follow, unfollow, cache_release, set_cursor,
}

pub data Operation : Type 0 where
  follows : Option ℕ → PublisherId → Operation
  unfollows : PublisherId → Operation
  caches : Option ℕ → ReleaseV1 → Operation
  moves : PublisherId → ℕ → Operation

after : Store → Result Error Store → Store
after store (ok next) = next
after store (err _) = store

module _ (x : Crates) (lib : Libraries) where
  perform : Operation → Store → Result Error Store
  perform (follows now publisher) = follow x lib now publisher
  perform (unfollows publisher) = unfollow x publisher
  perform (caches now release) = cache_release x lib now release
  perform (moves publisher cursor) = set_cursor x lib publisher cursor

  -- An operation that fails leaves the store as it was.
  unfoldable pub run : List Operation → Store → Store
  unfolding perform after
  run [] store = store
  run (operation ∷ operations) store = run operations (after store (perform operation store))

guard-true : (t : Bool) (e : Error) → guard t e ≡ ok tt → t ≡ true
guard-true true e h = refl
guard-true false e h = cc

release_key_eq_iff : DecidesEq release_key_eq
unfolding release_key_eq
release_key_eq_iff a b = ground (arith, bytes_eq_iff a.0 b.0, bytes_eq_iff a.1 b.1)

abbrev IsFollowed : List Follow → EventCursor → Type 0
IsFollowed followed c = has bytes_eq Follow.publisher c.publisher followed ≡ true

pub record IsConsistent (s : Store) : Type 0 where
  -- Each publisher is followed once, has one cursor at most, and each release is cached once.
  pub follows_distinct :
      AllPairs (λ (a b : Follow). bytes_eq a.publisher b.publisher ≡ false) s.followed_publishers
  pub cursors_distinct :
      AllPairs (λ (a b : EventCursor). bytes_eq a.publisher b.publisher ≡ false) s.event_cursors
  pub releases_distinct :
      AllPairs
        (λ (a b : CachedRelease). release_key_eq (release_key a) (release_key b) ≡ false)
        s.release_cache
  pub cursors_followed :
      All
        (λ (c : EventCursor).
          has bytes_eq Follow.publisher c.publisher s.followed_publishers ≡ true)
        s.event_cursors

-- The follows, the cursors and the releases that an operation leaves.
IsFollowed-insert_new :
    (row : Follow) (followed : List Follow) (c : EventCursor)
    → IsFollowed followed c
    → IsFollowed (insert_new bytes_eq Follow.publisher row followed) c
IsFollowed-insert_new row followed c h =
    rw (has-insert_new bytes_eq Follow.publisher bytes_eq_iff c.publisher followed row, h) refl

unfollowed_others :
    (k : Bytes) (followed : List Follow) (cursors : List EventCursor)
    → All (IsFollowed followed) cursors
    → All (λ (c : EventCursor). bytes_eq c.publisher k ≡ false) cursors
    → All (IsFollowed (without bytes_eq Follow.publisher k followed)) cursors
unfollowed_others k followed [] h g = tt
unfollowed_others k followed (c ∷ cursors) (h, hs) (g, gs) = (
  rw
      (
        has-without bytes_eq Follow.publisher bytes_eq_iff k c.publisher followed,
        eq_sym bytes_eq Follow.publisher bytes_eq_iff c.publisher k g,
      )
      h,
  unfollowed_others k followed cursors hs gs,
)

module _ (x : Crates) (lib : Libraries) where
  follow-IsConsistent :
      (now : Option ℕ) (p : PublisherId) (s : Store)
      → IsConsistent s
      → Ensures IsConsistent (follow x lib now p s)
  unfolding follow
  follow-IsConsistent now p s h = Ensures->>= IsConsistent (connection s) _ (λ _ _.
      Ensures->>= IsConsistent (clock lib now) _ (λ added_at _.
        Ensures->>= IsConsistent (check_positive added_at) _ (λ _ _.
          let row : Follow = record { publisher = publisher_text x p; added_at = added_at } in
          record {
            follows_distinct =
                Distinct-insert_new bytes_eq Follow.publisher bytes_eq_iff row s.followed_publishers
                  h.follows_distinct;
            cursors_distinct = h.cursors_distinct;
            releases_distinct = h.releases_distinct;
            cursors_followed =
                All-imp _ _ (IsFollowed-insert_new row s.followed_publishers) s.event_cursors
                  h.cursors_followed;
          })))

  unfollow-IsConsistent :
      (p : PublisherId) (s : Store) → IsConsistent s → Ensures IsConsistent (unfollow x p s)
  unfolding unfollow
  unfollow-IsConsistent p s h = Ensures->>= IsConsistent (connection s) _ (λ _ _.
      let k = publisher_text x p in
      let left = without bytes_eq EventCursor.publisher k s.event_cursors in
      let distinct =
        Distinct-without bytes_eq EventCursor.publisher bytes_eq_iff k s.event_cursors
          h.cursors_distinct in
      record {
        follows_distinct =
            Distinct-without bytes_eq Follow.publisher bytes_eq_iff k s.followed_publishers
              h.follows_distinct;
        cursors_distinct =
            Distinct-without bytes_eq EventCursor.publisher bytes_eq_iff k left distinct;
        releases_distinct = h.releases_distinct;
        cursors_followed = All-without bytes_eq EventCursor.publisher bytes_eq_iff _ k left (
            unfollowed_others k s.followed_publishers left
              (All-without bytes_eq EventCursor.publisher bytes_eq_iff _ k s.event_cursors
                h.cursors_followed)
              (without-All bytes_eq EventCursor.publisher bytes_eq_iff k s.event_cursors));
      })

  cache_release-IsConsistent :
      (now : Option ℕ) (r : ReleaseV1) (s : Store)
      → IsConsistent s
      → Ensures IsConsistent (cache_release x lib now r s)
  unfolding cache_release
  cache_release-IsConsistent now r s h = Ensures->>= IsConsistent (connection s) _ (λ _ _.
      Ensures->>= IsConsistent (bind lib r.created_at) _ (λ created_at _.
        Ensures->>= IsConsistent (clock lib now) _ (λ validated_at _.
          Ensures->>= IsConsistent (check_positive created_at) _ (λ _ _.
            Ensures->>= IsConsistent (check_positive validated_at) _ (λ _ _. record {
              follows_distinct = h.follows_distinct;
              cursors_distinct = h.cursors_distinct;
              releases_distinct =
                  Distinct-upsert release_key_eq release_key release_key_eq_iff
                    (record {
                      publisher = publisher_text x r.publisher;
                      release_id = release_id_to_hex x r.id;
                      created_at = created_at;
                      release_json = lib.release_json r;
                      validated_at = validated_at;
                    })
                    s.release_cache h.releases_distinct;
              cursors_followed = h.cursors_followed;
            })))))

  set_cursor-IsConsistent :
      (p : PublisherId) (cursor : ℕ) (s : Store)
      → IsConsistent s
      → Ensures IsConsistent (set_cursor x lib p cursor s)
  unfolding set_cursor
  set_cursor-IsConsistent p cursor s h = Ensures->>= IsConsistent (connection s) _ (λ _ _.
      Ensures->>= IsConsistent (bind lib cursor) _ (λ bound _.
        Ensures->>= IsConsistent
          (guard (has bytes_eq Follow.publisher (publisher_text x p) s.followed_publishers)
            (sqlite foreign_key_failed))
          _
          (λ _ passed.
            let row : EventCursor = record { publisher = publisher_text x p; cursor = bound } in
            record {
              follows_distinct = h.follows_distinct;
              cursors_distinct =
                  Distinct-upsert bytes_eq EventCursor.publisher bytes_eq_iff row s.event_cursors
                    h.cursors_distinct;
              releases_distinct = h.releases_distinct;
              cursors_followed =
                  All-upsert bytes_eq EventCursor.publisher bytes_eq_iff _ row s.event_cursors
                    (guard-true _ _ passed) h.cursors_followed;
            })))

  after-IsConsistent :
      (s : Store) (r : Result Error Store)
      → IsConsistent s
      → Ensures IsConsistent r
      → IsConsistent (after s r)
  unfolding after
  after-IsConsistent s (ok next) h e = e
  after-IsConsistent s (err problem) h e = h

  -- However many follows, unfollows, cached releases and cursor moves are performed on a
  -- consistent store, whether they succeed or fail, it stays consistent: no publisher is followed
  -- twice, no release is cached twice, and every cursor is the only one of a publisher that is
  -- still followed.
  pub run-IsConsistent :
      (operations : List Operation) (s : Store)
      → IsConsistent s
      → IsConsistent (run x lib operations s)
  unfolding run perform
  run-IsConsistent [] s h = h
  run-IsConsistent (follows now p ∷ rest) s h =
      run-IsConsistent rest _ (after-IsConsistent s _ h (follow-IsConsistent now p s h))
  run-IsConsistent (unfollows p ∷ rest) s h =
      run-IsConsistent rest _ (after-IsConsistent s _ h (unfollow-IsConsistent p s h))
  run-IsConsistent (caches now r ∷ rest) s h =
      run-IsConsistent rest _ (after-IsConsistent s _ h (cache_release-IsConsistent now r s h))
  run-IsConsistent (moves p cursor ∷ rest) s h =
      run-IsConsistent rest _ (after-IsConsistent s _ h (set_cursor-IsConsistent p cursor s h))
