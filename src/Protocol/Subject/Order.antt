-- ===== src/Protocol/Subject/Order.antt =====
-- The derived order of subjects is a strict total order.
use pubky_swarm.Base.{◌≡◌}
use pubky_swarm.Base.Bytes.{bytes_lt, bytes_lt-StrictOrder}
use pubky_swarm.Base.Order.{StrictOrder, lex-StrictOrder}
use pubky_swarm.Protocol.Import.{TorrentRef, btih, btmh, verified_hybrid}
use pubky_swarm.Protocol.Subject.{SubjectRef, torrent, uri, torrent_key, subject_key, subject_lt}

torrent_key-injective : (a b : TorrentRef) → torrent_key a ≡ torrent_key b → a ≡ b
unfolding torrent_key
torrent_key-injective (btih h) (btih k) e = cc
torrent_key-injective (btmh h) (btmh k) e = cc
torrent_key-injective (verified_hybrid h l) (verified_hybrid k m) e = cc
torrent_key-injective (btih h) (btmh k) e = cc
torrent_key-injective (btih h) (verified_hybrid k m) e = cc
torrent_key-injective (btmh h) (btih k) e = cc
torrent_key-injective (btmh h) (verified_hybrid k m) e = cc
torrent_key-injective (verified_hybrid h l) (btih k) e = cc
torrent_key-injective (verified_hybrid h l) (btmh k) e = cc

subject_key-injective : (a b : SubjectRef) → subject_key a ≡ subject_key b → a ≡ b
unfolding subject_key
subject_key-injective (torrent r) (torrent s) e = cc (torrent_key-injective r s cc)
subject_key-injective (uri u) (uri v) e = cc
subject_key-injective (torrent r) (uri v) e = cc
subject_key-injective (uri u) (torrent s) e = cc

pub subject_lt-StrictOrder : StrictOrder subject_lt
unfolding subject_lt
subject_lt-StrictOrder =
    let keys = lex-StrictOrder bytes_lt bytes_lt-StrictOrder in
    record {
      irrefl = λ a. keys.irrefl (subject_key a);
      trans = λ a b c. keys.trans (subject_key a) (subject_key b) (subject_key c);
      total = λ a b h k. subject_key-injective a b (keys.total (subject_key a) (subject_key b) h k);
    }

pub subject_set : IsSet SubjectRef
subject_set = hlevel
