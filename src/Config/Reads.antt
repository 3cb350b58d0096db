-- ===== src/Config/Reads.antt =====
-- What each key reads after SaveToStorage has written a configuration.
use osante_ai_proxy.Base.{
  true, false, Option, none, some, Text, text, has_prefix, ◌≡◌, refl, ◌∙◌, ap,
}
use osante_ai_proxy.Config.Types.{Config}
use osante_ai_proxy.Config.Codec.{Codec}
use osante_ai_proxy.Config.Store.{Store, Faults, get_config, set_all}
use osante_ai_proxy.Config.Save.{
  app_settings, web_dav_settings, backup_settings, update_settings, terminal_settings, all_settings,
}
use osante_ai_proxy.Config.Written.{
  written, later, given, get-set_all, written_all, last_settings, written_elsewhere, web_dav_prefix,
  backup_prefix, update_prefix, terminal_prefix,
}

later-none : (o : Option Text) → later o none ≡ o
later-none none = refl
later-none (some v) = refl

-- Reading a key after the writes of a configuration, when no call fails.
module _ (codec : Codec) (faults : Faults) (reads : (k : Text) → faults.get_fails k ≡ false)
    (c : Config) (s : Store) (ok : (set_all faults (all_settings codec c) s).0 ≡ true) where
  abbrev pub saved : Store
  saved = (set_all faults (all_settings codec c) s).1

  read_key :
      (k : Text) (o : Option Text)
      → written k (all_settings codec c) ≡ o
      → get_config faults k saved ≡ given (get_config faults k s) o
  read_key k o e =
      get-set_all faults k (all_settings codec c) s (reads k) ok
      ∙ ap (given (get_config faults k s)) e

  abbrev pub Elsewhere : Text → Text → Type 0
  Elsewhere k p = has_prefix k p ≡ false

  -- A key of no section that may be absent.
  pub read_plain :
      (k v : Text)
      → Elsewhere k (text "webdav_")
      → Elsewhere k (text "backup_")
      → Elsewhere k (text "update_")
      → Elsewhere k (text "terminal_")
      → later (written k (last_settings codec c)) (written k (app_settings codec c)) ≡ some v
      → get_config faults k saved ≡ v
  read_plain k v w b u t e = read_key k (some v) (
      written_all codec k c
      ∙ simp
          (
            written_elsewhere (text "webdav_") k (web_dav_settings c.web_dav)
                (web_dav_prefix c.web_dav) w,
            written_elsewhere (text "backup_") k (backup_settings c.backup) (backup_prefix c.backup)
                b,
            written_elsewhere (text "update_") k (update_settings codec c.update)
                (update_prefix codec c.update) u,
            written_elsewhere (text "terminal_") k (terminal_settings codec c.terminal)
                (terminal_prefix codec c.terminal) t,
            later-none,
          )
          e)

  pub read_web_dav :
      (k : Text)
      → Elsewhere k (text "backup_")
      → Elsewhere k (text "update_")
      → Elsewhere k (text "terminal_")
      → written k (last_settings codec c) ≡ none
      → written k (app_settings codec c) ≡ none
      → get_config faults k saved
        ≡ given (get_config faults k s) (written k (web_dav_settings c.web_dav))
  read_web_dav k b u t l a = read_key k (written k (web_dav_settings c.web_dav)) (
      written_all codec k c
      ∙ simp
          (
            written_elsewhere (text "backup_") k (backup_settings c.backup) (backup_prefix c.backup)
                b,
            written_elsewhere (text "update_") k (update_settings codec c.update)
                (update_prefix codec c.update) u,
            written_elsewhere (text "terminal_") k (terminal_settings codec c.terminal)
                (terminal_prefix codec c.terminal) t,
            l,
            a,
            later-none,
          )
          refl)

  pub read_backup :
      (k : Text)
      → Elsewhere k (text "webdav_")
      → Elsewhere k (text "update_")
      → Elsewhere k (text "terminal_")
      → written k (last_settings codec c) ≡ none
      → written k (app_settings codec c) ≡ none
      → get_config faults k saved
        ≡ given (get_config faults k s) (written k (backup_settings c.backup))
  read_backup k w u t l a = read_key k (written k (backup_settings c.backup)) (
      written_all codec k c
      ∙ simp
          (
            written_elsewhere (text "webdav_") k (web_dav_settings c.web_dav)
                (web_dav_prefix c.web_dav) w,
            written_elsewhere (text "update_") k (update_settings codec c.update)
                (update_prefix codec c.update) u,
            written_elsewhere (text "terminal_") k (terminal_settings codec c.terminal)
                (terminal_prefix codec c.terminal) t,
            l,
            a,
            later-none,
          )
          refl)

  pub read_update :
      (k : Text)
      → Elsewhere k (text "webdav_")
      → Elsewhere k (text "backup_")
      → Elsewhere k (text "terminal_")
      → written k (last_settings codec c) ≡ none
      → written k (app_settings codec c) ≡ none
      → get_config faults k saved
        ≡ given (get_config faults k s) (written k (update_settings codec c.update))
  read_update k w b t l a = read_key k (written k (update_settings codec c.update)) (
      written_all codec k c
      ∙ simp
          (
            written_elsewhere (text "webdav_") k (web_dav_settings c.web_dav)
                (web_dav_prefix c.web_dav) w,
            written_elsewhere (text "backup_") k (backup_settings c.backup) (backup_prefix c.backup)
                b,
            written_elsewhere (text "terminal_") k (terminal_settings codec c.terminal)
                (terminal_prefix codec c.terminal) t,
            l,
            a,
            later-none,
          )
          refl)

  pub read_terminal :
      (k : Text)
      → Elsewhere k (text "webdav_")
      → Elsewhere k (text "backup_")
      → Elsewhere k (text "update_")
      → written k (last_settings codec c) ≡ none
      → written k (app_settings codec c) ≡ none
      → get_config faults k saved
        ≡ given (get_config faults k s) (written k (terminal_settings codec c.terminal))
  read_terminal k w b u l a = read_key k (written k (terminal_settings codec c.terminal)) (
      written_all codec k c
      ∙ simp
          (
            written_elsewhere (text "webdav_") k (web_dav_settings c.web_dav)
                (web_dav_prefix c.web_dav) w,
            written_elsewhere (text "backup_") k (backup_settings c.backup) (backup_prefix c.backup)
                b,
            written_elsewhere (text "update_") k (update_settings codec c.update)
                (update_prefix codec c.update) u,
            l,
            a,
            later-none,
          )
          refl)
