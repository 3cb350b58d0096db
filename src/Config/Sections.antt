-- ===== src/Config/Sections.antt =====
-- The WebDAV and backup sections of a configuration that is saved and loaded again.
use osante_ai_proxy.Base.{
  Bool, true, false, Option, none, some, List, [], Text, text, same, same_iff, has_prefix, is_empty,
  ◌≡◌, refl, sym, ◌∙◌, ap, is_some, if◌then◌else◌,
}
use osante_ai_proxy.Config.Types.{Config, WebDavConfig, BackupConfig, S3BackupConfig}
use osante_ai_proxy.Config.Codec.{Codec}
use osante_ai_proxy.Config.Store.{Store, Faults, get_config, set_all}
use osante_ai_proxy.Config.Save.{
  app_settings, web_dav_settings, local_settings, s3_settings, backup_settings, all_settings,
  format_bool,
}
use osante_ai_proxy.Config.Load.{load_web_dav, load_s3, load_backup}
use osante_ai_proxy.Config.Written.{written, given, last_settings}
use osante_ai_proxy.Config.Reads.{saved, read_web_dav, read_backup}

same_flag : (b : Bool) → same (format_bool b) (text "true") ≡ b
unfolding format_bool same text
same_flag true = refl
same_flag false = refl

-- A WebDAV section that is stored, or absent from the database too.
abbrev pub IsStoredWebDav : Text → Option WebDavConfig → Type 0
IsStoredWebDav stored_url none = is_empty stored_url ≡ true
IsStoredWebDav stored_url (some w) = is_empty w.url ≡ false

-- A backup section with the part of its provider and no other, or absent from the database too.
abbrev pub IsStoredBackup : Text → Option BackupConfig → Type 0
IsStoredBackup stored_provider none = is_empty stored_provider ≡ true
IsStoredBackup stored_provider (some b) =
    (is_empty b.provider ≡ false)
    × (is_some b.local_dir ≡ same b.provider (text "local"))
    × (is_some b.s3 ≡ same b.provider (text "s3"))

-- A section of a store `st`, from what each of its keys reads: the value written for a section `o`, or
-- the one before, `old`.
module _ (codec : Codec) (faults : Faults) (st : Store) (old : Text → Text) where
  abbrev Reads : List (Text × Text) → Text → Type 0
  Reads sets k = get_config faults k st ≡ given (old k) (written k sets)

  web_dav_from :
      (o : Option WebDavConfig)
      → Reads (web_dav_settings o) (text "webdav_url")
      → Reads (web_dav_settings o) (text "webdav_username")
      → Reads (web_dav_settings o) (text "webdav_password")
      → Reads (web_dav_settings o) (text "webdav_configPath")
      → Reads (web_dav_settings o) (text "webdav_statsPath")
      → IsStoredWebDav (old (text "webdav_url")) o
      → load_web_dav codec faults st ≡ o
  unfolding text written same web_dav_settings load_web_dav
  web_dav_from none u n p c t h = rw (load_web_dav, u, h) refl
  web_dav_from (some w) u n p c t h =
      (λ i.
        if is_empty (u i)
        then none
        else some (record {
          url = u i;
          username = n i;
          password = p i;
          config_path = c i;
          stats_path = t i;
        }))
      ∙ rw h refl

module _ (codec : Codec) (faults : Faults) (reads : (k : Text) → faults.get_fails k ≡ false)
    (c : Config) (s : Store) (ok : (set_all faults (all_settings codec c) s).0 ≡ true) where
  abbrev after : Store
  after = saved codec faults reads c s ok

  pub web_dav_back :
      IsStoredWebDav (get_config faults (text "webdav_url") s) c.web_dav
      → load_web_dav codec faults after ≡ c.web_dav
  unfolding text has_prefix written app_settings same
  web_dav_back h =
      web_dav_from codec faults after (λ k. get_config faults k s) c.web_dav
        (read_web_dav codec faults reads c s ok (text "webdav_url") refl refl refl refl refl)
        (read_web_dav codec faults reads c s ok (text "webdav_username") refl refl refl refl refl)
        (read_web_dav codec faults reads c s ok (text "webdav_password") refl refl refl refl refl)
        (read_web_dav codec faults reads c s ok (text "webdav_configPath") refl refl refl refl refl)
        (read_web_dav codec faults reads c s ok (text "webdav_statsPath") refl refl refl refl refl)
        h

  -- A key that only the backup section writes.
  abbrev IsBackupKey : Text → Type 0
  IsBackupKey k =
      (has_prefix k (text "webdav_") ≡ false)
      × (has_prefix k (text "update_") ≡ false)
      × (has_prefix k (text "terminal_") ≡ false)
      × (written k (last_settings codec c) ≡ none)
      × (written k (app_settings codec c) ≡ none)

  abbrev ReadsBackup : Option BackupConfig → Type 0
  ReadsBackup o =
      (k : Text)
      → IsBackupKey k
      → get_config faults k after ≡ given (get_config faults k s) (written k (backup_settings o))

  s3_from :
      (p : Text) (x : S3BackupConfig)
      → ReadsBackup (some (record { provider = p; local_dir = none; s3 = some x }))
      → load_s3 codec faults after ≡ x
  unfolding text has_prefix written app_settings same backup_settings local_settings s3_settings
      load_s3
  s3_from p x r = λ i. record {
    endpoint = r (text "backup_s3_endpoint") (refl, refl, refl, refl, refl) i;
    region = r (text "backup_s3_region") (refl, refl, refl, refl, refl) i;
    bucket = r (text "backup_s3_bucket") (refl, refl, refl, refl, refl) i;
    prefix = r (text "backup_s3_prefix") (refl, refl, refl, refl, refl) i;
    access_key = r (text "backup_s3_accessKey") (refl, refl, refl, refl, refl) i;
    secret_key = r (text "backup_s3_secretKey") (refl, refl, refl, refl, refl) i;
    session_token = r (text "backup_s3_sessionToken") (refl, refl, refl, refl, refl) i;
    use_ssl =
        (ap (λ v. same v (text "true")) (r (text "backup_s3_useSSL") (refl, refl, refl, refl, refl))
            ∙ same_flag x.use_ssl)
          i;
    force_path_style =
        (ap (λ v. same v (text "true"))
              (r (text "backup_s3_forcePathStyle") (refl, refl, refl, refl, refl))
            ∙ same_flag x.force_path_style)
          i;
  }

  not_both : (p : Text) → same p (text "local") ≡ true → same p (text "s3") ≡ true → ⊥
  unfolding same text
  not_both p l x = absurd (
      cc (
        ap (λ r. same r (text "s3"))
          (sym ((same_iff p (text "local")).0 l) ∙ (same_iff p (text "s3")).0 x)))

  parts_from :
      (p : Text) (d : Option Text) (x : Option S3BackupConfig)
      → ReadsBackup (some (record { provider = p; local_dir = d; s3 = x }))
      → IsStoredBackup [] (some (record { provider = p; local_dir = d; s3 = x }))
      → load_backup codec faults after ≡ some (record { provider = p; local_dir = d; s3 = x })
  unfolding text has_prefix written app_settings same backup_settings local_settings s3_settings
      load_backup
  parts_from p none none r h =
      let provider = r (text "backup_provider") (refl, refl, refl, refl, refl) in
      rw (load_backup, provider, h.0, sym h.1, sym h.2) refl
  parts_from p (some d) none r h =
      let provider = r (text "backup_provider") (refl, refl, refl, refl, refl) in
      let dir = r (text "backup_local_dir") (refl, refl, refl, refl, refl) in
      rw (load_backup, provider, h.0, sym h.1, sym h.2, dir) refl
  parts_from p none (some x) r h =
      let provider = r (text "backup_provider") (refl, refl, refl, refl, refl) in
      rw (load_backup, provider, h.0, sym h.1, sym h.2)
        (ap (λ y. some (record { provider = p; local_dir = none; s3 = some y })) (s3_from p x r))
  parts_from p (some d) (some x) r h = absurd (not_both p (sym h.1) (sym h.2))

  backup_from :
      (o : Option BackupConfig)
      → ReadsBackup o
      → IsStoredBackup (get_config faults (text "backup_provider") s) o
      → load_backup codec faults after ≡ o
  unfolding text has_prefix written app_settings same backup_settings local_settings s3_settings
      load_backup
  backup_from none r h =
      let provider = r (text "backup_provider") (refl, refl, refl, refl, refl) in
      rw (load_backup, provider, h) refl
  backup_from (some b) r h = parts_from b.provider b.local_dir b.s3 r h

  pub backup_back :
      IsStoredBackup (get_config faults (text "backup_provider") s) c.backup
      → load_backup codec faults after ≡ c.backup
  backup_back h =
      backup_from c.backup (λ k w. read_backup codec faults reads c s ok k w.0 w.1 w.2 w.3 w.4) h
