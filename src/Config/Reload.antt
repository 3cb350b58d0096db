-- ===== src/Config/Reload.antt =====
-- A configuration that is saved and loaded again.
use osante_ai_proxy.Base.{
  Bool, true, false, Option, none, some, List, [], Text, text, same, has_prefix, is_empty, ◌≡◌,
  refl, sym, ◌∙◌, ap, subst, Option-cases, inl, inr, if◌then◌else◌,
}
use osante_ai_proxy.Proxy.Endpoint.{Endpoint}
use osante_ai_proxy.Config.Types.{
  ℤ, pos, is_zero, Config, UpdateConfig, TerminalConfig, default_port,
}
use osante_ai_proxy.Config.Codec.{is_int, Codec, IsCodec}
use osante_ai_proxy.Config.Store.{Store, Faults, get_config, set_all}
use osante_ai_proxy.Config.Save.{
  app_settings, update_settings, terminal_settings, all_settings, format_bool, url_of,
}
use osante_ai_proxy.Config.Load.{
  text_or, flag_or, nonzero_or, number_or, dirs_or, load_update, load_terminal, load_url,
  load_settings,
}
use osante_ai_proxy.Config.Written.{written, given, last_settings}
use osante_ai_proxy.Config.Reads.{saved, read_plain, read_update, read_terminal}
use osante_ai_proxy.Config.Sections.{IsStoredWebDav, IsStoredBackup, web_dav_back, backup_back}

flag_back : (b d : Bool) → flag_or (format_bool b) d ≡ b
unfolding flag_or format_bool is_empty same text
flag_back true d = refl
flag_back false d = refl

text_back : (t d : Text) → is_empty t ≡ false → text_or t d ≡ t
unfolding text_or
text_back t d h = rw h refl

nonzero_back : (n d : ℤ) → is_zero n ≡ false → nonzero_or n d ≡ n
unfolding nonzero_or
nonzero_back n d h = rw h refl

module _ (codec : Codec) (law : IsCodec codec) where
  number_back : (n d : ℤ) → is_int n ≡ true → number_or codec (codec.itoa n) d ≡ n
  unfolding number_or
  number_back n d int = rw (law.numbers_nonempty n, law.reads_numbers n int) refl

  dirs_back :
      (dirs d : List Text)
      → codec.are_utf8 dirs ≡ true
      → dirs_or codec (codec.marshal_dirs dirs) d ≡ dirs
  unfolding dirs_or
  dirs_back dirs d utf8 = rw (law.dirs_nonempty dirs, law.reads_dirs dirs utf8) refl

-- A URL that is nil or not empty.
abbrev pub IsUrl : Option Text → Type 0
IsUrl none = Unit
IsUrl (some url) = is_empty url ≡ false

-- There are settings of updates, whose interval is a number of Go.
abbrev pub HasUpdate : Option UpdateConfig → Type 0
HasUpdate none = ⊥
HasUpdate (some u) = is_int u.check_interval ≡ true

-- A terminal is selected, and the paths of the projects are valid UTF-8.
abbrev pub HasTerminal : Codec → Option TerminalConfig → Type 0
HasTerminal codec none = ⊥
HasTerminal codec (some t) =
    (is_empty t.selected_terminal ≡ false) × (codec.are_utf8 t.project_dirs ≡ true)

-- A configuration as LoadFromStorage gives it: what has a default is set, and the numbers are Go's.
pub record IsSettled (codec : Codec) (stored_url stored_provider : Text) (c : Config) : Type 0 where
  pub port_set : is_zero c.port ≡ false
  pub ttl_set : is_zero c.models_cache_ttl ≡ false
  pub width_set : is_zero c.window_width ≡ false
  pub height_set : is_zero c.window_height ≡ false
  pub language_set : is_empty c.language ≡ false
  pub theme_set : is_empty c.theme ≡ false
  pub light_set : is_empty c.auto_light_theme ≡ false
  pub dark_set : is_empty c.auto_dark_theme ≡ false
  pub behavior_set : is_empty c.close_window_behavior ≡ false
  pub notification_set : is_empty c.claude_notification_type ≡ false
  pub web_dav_stored : IsStoredWebDav stored_url c.web_dav
  pub backup_stored : IsStoredBackup stored_provider c.backup
  pub update_set : HasUpdate c.update
  pub port_int : is_int c.port ≡ true
  pub level_int : is_int c.log_level ≡ true
  pub width_int : is_int c.window_width ≡ true
  pub height_int : is_int c.window_height ≡ true
  pub ttl_int : is_int c.models_cache_ttl ≡ true
  pub terminal_set : HasTerminal codec c.terminal
  pub proxy_set : IsUrl c.proxy_url
  pub codex_proxy_set : IsUrl c.codex_proxy_url

-- A loaded URL.
url_back : (o : Option Text) → IsUrl o → (if is_empty (url_of o) then none else some (url_of o)) ≡ o
unfolding url_of is_empty
url_back none h = refl
url_back (some url) h = rw h refl

module _ (codec : Codec) (law : IsCodec codec) (faults : Faults)
    (reads : (k : Text) → faults.get_fails k ≡ false) (c : Config) (s : Store)
    (ok : (set_all faults (all_settings codec c) s).0 ≡ true) where
  abbrev after : Store
  after = saved codec faults reads c s ok

  IsUpdateKey : Text → Type 0
  IsUpdateKey k =
      (has_prefix k (text "webdav_") ≡ false)
      × (has_prefix k (text "backup_") ≡ false)
      × (has_prefix k (text "terminal_") ≡ false)
      × (written k (last_settings codec c) ≡ none)
      × (written k (app_settings codec c) ≡ none)

  update_from :
      (u : UpdateConfig)
      → HasUpdate (some u)
      → ((k : Text)
          → IsUpdateKey k
          → get_config faults k after
            ≡ given (get_config faults k s) (written k (update_settings codec (some u))))
      → load_update codec faults after ≡ u
  unfolding text has_prefix written app_settings same update_settings load_update IsUpdateKey
  update_from u h r = λ i. record {
    auto_check =
        (ap (λ v. flag_or v true) (r (text "update_autoCheck") (refl, refl, refl, refl, refl))
            ∙ flag_back u.auto_check true)
          i;
    check_interval =
        (ap (λ v. number_or codec v (pos 24))
              (r (text "update_checkInterval") (refl, refl, refl, refl, refl))
            ∙ number_back codec law u.check_interval (pos 24) h)
          i;
    last_check_time = r (text "update_lastCheckTime") (refl, refl, refl, refl, refl) i;
    skipped_version = r (text "update_skippedVersion") (refl, refl, refl, refl, refl) i;
  }

  update_back : HasUpdate c.update → some (load_update codec faults after) ≡ c.update
  unfolding IsUpdateKey
  update_back h = elim (Option-cases c.update) [
    | inl e ↦ absurd (subst HasUpdate e h)
    | inr (u, e) ↦
        ap some (
          update_from u (subst HasUpdate e h) (λ k w.
            read_update codec faults reads c s ok k w.0 w.1 w.2 w.3 w.4
            ∙ ap (λ o. given (get_config faults k s) (written k (update_settings codec o))) e))
        ∙ sym e
  ]

  IsTerminalKey : Text → Type 0
  IsTerminalKey k =
      (has_prefix k (text "webdav_") ≡ false)
      × (has_prefix k (text "backup_") ≡ false)
      × (has_prefix k (text "update_") ≡ false)
      × (written k (last_settings codec c) ≡ none)
      × (written k (app_settings codec c) ≡ none)

  terminal_from :
      (t : TerminalConfig)
      → HasTerminal codec (some t)
      → ((k : Text)
          → IsTerminalKey k
          → get_config faults k after
            ≡ given (get_config faults k s) (written k (terminal_settings codec (some t))))
      → load_terminal codec faults after ≡ t
  unfolding text has_prefix written app_settings same terminal_settings load_terminal IsTerminalKey
  terminal_from t h r = λ i. record {
    selected_terminal =
        (ap (λ v. text_or v (text "cmd"))
              (r (text "terminal_selected") (refl, refl, refl, refl, refl))
            ∙ text_back t.selected_terminal (text "cmd") h.0)
          i;
    project_dirs =
        (ap (λ v. dirs_or codec v [])
              (r (text "terminal_projectDirs") (refl, refl, refl, refl, refl))
            ∙ dirs_back codec law t.project_dirs [] h.1)
          i;
    claude_command = r (text "terminal_claudeCommand") (refl, refl, refl, refl, refl) i;
  }

  terminal_back :
      HasTerminal codec c.terminal → some (load_terminal codec faults after) ≡ c.terminal
  unfolding IsTerminalKey
  terminal_back h = elim (Option-cases c.terminal) [
    | inl e ↦ absurd (subst (HasTerminal codec) e h)
    | inr (t, e) ↦
        ap some (
          terminal_from t (subst (HasTerminal codec) e h) (λ k w.
            read_terminal codec faults reads c s ok k w.0 w.1 w.2 w.3 w.4
            ∙ ap (λ o. given (get_config faults k s) (written k (terminal_settings codec o))) e))
        ∙ sym e
  ]

  number_set :
      (n d : ℤ)
      → is_zero n ≡ false
      → is_int n ≡ true
      → nonzero_or (number_or codec (codec.itoa n) d) d ≡ n
  number_set n d h int =
      ap (λ m. nonzero_or m d) (number_back codec law n d int) ∙ nonzero_back n d h

  -- Everything but the endpoints comes back, except that a lock on the port is not stored.
  pub load_settings-saved :
      (eps : List Endpoint)
      → IsSettled codec
          (get_config faults (text "webdav_url") s)
          (get_config faults (text "backup_provider") s)
          c
      → load_settings codec faults eps after ≡ record c { port_locked = false; endpoints = eps }
  unfolding text has_prefix written app_settings same load_settings load_url
  load_settings-saved eps h = λ i. record {
    port =
        (ap (λ v. nonzero_or (number_or codec v (default_port)) (default_port))
              (read_plain codec faults reads c s ok (text "port") (codec.itoa c.port) refl refl refl
                refl refl)
            ∙ number_set c.port (default_port) h.port_set h.port_int)
          i;
    port_locked = false;
    endpoints = eps;
    log_level =
        (ap (λ v. number_or codec v (pos 1))
              (read_plain codec faults reads c s ok (text "logLevel") (codec.itoa c.log_level) refl
                refl refl refl refl)
            ∙ number_back codec law c.log_level (pos 1) h.level_int)
          i;
    language =
        (ap (λ v. text_or v (text "en"))
              (read_plain codec faults reads c s ok (text "language") (c.language) refl refl refl
                refl refl)
            ∙ text_back c.language (text "en") h.language_set)
          i;
    theme =
        (ap (λ v. text_or v (text "light"))
              (read_plain codec faults reads c s ok (text "theme") (c.theme) refl refl refl refl
                refl)
            ∙ text_back c.theme (text "light") h.theme_set)
          i;
    theme_auto =
        (ap (λ v. flag_or v false)
              (read_plain codec faults reads c s ok (text "themeAuto") (format_bool c.theme_auto)
                refl refl refl refl refl)
            ∙ flag_back c.theme_auto false)
          i;
    auto_light_theme =
        (ap (λ v. text_or v (text "light"))
              (read_plain codec faults reads c s ok (text "autoLightTheme") (c.auto_light_theme)
                refl refl refl refl refl)
            ∙ text_back c.auto_light_theme (text "light") h.light_set)
          i;
    auto_dark_theme =
        (ap (λ v. text_or v (text "dark"))
              (read_plain codec faults reads c s ok (text "autoDarkTheme") (c.auto_dark_theme) refl
                refl refl refl refl)
            ∙ text_back c.auto_dark_theme (text "dark") h.dark_set)
          i;
    window_width =
        (ap (λ v. nonzero_or (number_or codec v (pos 1024)) (pos 1024))
              (read_plain codec faults reads c s ok (text "windowWidth") (codec.itoa c.window_width)
                refl refl refl refl refl)
            ∙ number_set c.window_width (pos 1024) h.width_set h.width_int)
          i;
    window_height =
        (ap (λ v. nonzero_or (number_or codec v (pos 768)) (pos 768))
              (read_plain codec faults reads c s ok (text "windowHeight")
                (codec.itoa c.window_height) refl refl refl refl refl)
            ∙ number_set c.window_height (pos 768) h.height_set h.height_int)
          i;
    close_window_behavior =
        (ap (λ v. text_or v (text "ask"))
              (read_plain codec faults reads c s ok (text "closeWindowBehavior")
                (c.close_window_behavior) refl refl refl refl refl)
            ∙ text_back c.close_window_behavior (text "ask") h.behavior_set)
          i;
    claude_notification_enabled =
        (ap (λ v. flag_or v false)
              (read_plain codec faults reads c s ok (text "claude_notification_enabled")
                (format_bool c.claude_notification_enabled) refl refl refl refl refl)
            ∙ flag_back c.claude_notification_enabled false)
          i;
    claude_notification_type =
        (ap (λ v. text_or v (text "toast"))
              (read_plain codec faults reads c s ok (text "claude_notification_type")
                (c.claude_notification_type) refl refl refl refl refl)
            ∙ text_back c.claude_notification_type (text "toast") h.notification_set)
          i;
    models_cache_ttl =
        (ap (λ v. nonzero_or (number_or codec v (pos 30)) (pos 30))
              (read_plain codec faults reads c s ok (text "modelsCacheTTL")
                (codec.itoa c.models_cache_ttl) refl refl refl refl refl)
            ∙ number_set c.models_cache_ttl (pos 30) h.ttl_set h.ttl_int)
          i;
    models_cache_refresh_enabled =
        (ap (λ v. flag_or v false)
              (read_plain codec faults reads c s ok (text "modelsCacheRefreshEnabled")
                (format_bool c.models_cache_refresh_enabled) refl refl refl refl refl)
            ∙ flag_back c.models_cache_refresh_enabled false)
          i;
    web_dav = web_dav_back codec faults reads c s ok h.web_dav_stored i;
    backup = backup_back codec faults reads c s ok h.backup_stored i;
    update = update_back h.update_set i;
    terminal = terminal_back h.terminal_set i;
    proxy_url =
        (ap (λ v. if is_empty v then none else some v)
              (read_plain codec faults reads c s ok (text "proxy_url") (url_of c.proxy_url) refl
                refl refl refl refl)
            ∙ url_back c.proxy_url h.proxy_set)
          i;
    codex_proxy_url =
        (ap (λ v. if is_empty v then none else some v)
              (read_plain codec faults reads c s ok (text "codex_proxy_url")
                (url_of c.codex_proxy_url) refl refl refl refl refl)
            ∙ url_back c.codex_proxy_url h.codex_proxy_set)
          i;
  }
