-- ===== src/Store/Settings/Saved.antt =====
-- Saved settings are read back.
use pubky_swarm.Base.{ℕ, ◌≡◌, refl, false, Option, none, some, arith}
use pubky_swarm.Base.Result.{ok, Ensures, Ensures->>=, Ensures-eq-ok}
use pubky_swarm.Store.{Store, connection}
use pubky_swarm.Store.Settings.{
  ClientSettings, validate, normalized, read_u32, read_u16, settings_of_row, client_settings,
  check_between, dir_length, set_client_settings,
}

-- Within its constraint a number is read as it was written.
read_u32-between : (v : Option ℕ) → check_between 1 1_000_000 v ≡ ok tt → read_u32 v ≡ v
unfolding read_u32 check_between
read_u32-between none h = refl
read_u32-between (some v) h = ground arith

read_u16-between : (v : Option ℕ) → check_between 1 65_535 v ≡ ok tt → read_u16 v ≡ v
unfolding read_u16 check_between
read_u16-between none h = refl
read_u16-between (some v) h = ground arith

not_poisoned : (s : Store) (u : Unit {0}) → connection s ≡ ok u → s.poisoned ≡ false
unfolding connection
not_poisoned s u e = ground arith

abbrev Saved : ClientSettings → Store → Type 0
Saved c next =
    (next.poisoned ≡ false)
    × (settings_of_row next.client_settings ≡ normalized c)
    × (validate (normalized c) ≡ ok tt)

set_client_settings-Saved :
    (c : ClientSettings) (s : Store) → Ensures (Saved c) (set_client_settings c s)
unfolding set_client_settings settings_of_row
set_client_settings-Saved c s =
    let n = normalized c in
    Ensures->>= (Saved c) (validate n) _ (λ _ valid.
      Ensures->>= (Saved c) (connection s) _ (λ u unlocked.
        Ensures->>= (Saved c) (check_between 1 4096 (dir_length n.download_dir)) _ (λ _ _.
          Ensures->>= (Saved c) (check_between 1 1_000_000 n.download_limit_kbps) _ (λ _ down.
            Ensures->>= (Saved c) (check_between 1 1_000_000 n.upload_limit_kbps) _ (λ _ up.
              Ensures->>= (Saved c) (check_between 1 65_535 n.listen_port) _ (λ _ port. (
                not_poisoned s u unlocked,
                rw
                    (
                      read_u32-between n.download_limit_kbps down,
                      read_u32-between n.upload_limit_kbps up,
                      read_u16-between n.listen_port port,
                    )
                    refl,
                valid,
              )))))))

-- Settings that are saved are read back as they were, trimmed and with limits of 0 taken for none,
-- and these pass the validation of settings.
pub client_settings-set_client_settings :
    (c : ClientSettings) (s next : Store)
    → set_client_settings c s ≡ ok next
    → (client_settings next ≡ ok (normalized c)) × (validate (normalized c) ≡ ok tt)
unfolding client_settings connection
client_settings-set_client_settings c s next e =
    let (unlocked, read, valid) =
      Ensures-eq-ok (Saved c) (set_client_settings c s) next (set_client_settings-Saved c s) e in
    (rw (unlocked, read) refl, valid)
