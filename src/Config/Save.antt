-- ===== src/Config/Save.antt =====
-- SaveToStorage (internal/config/config.go). The calls of SetConfig are listed in their order.
use osante_ai_proxy.Base.{
  ℕ, suc, Bool, true, false, Option, none, some, List, [], ◌∷◌, ◌++◌, map, Text, text, same, not,
  keep_if, find_first, is_some, if◌then◌else◌,
}
use osante_ai_proxy.Proxy.Endpoint.{Endpoint}
use osante_ai_proxy.Config.Types.{
  Config, WebDavConfig, BackupConfig, S3BackupConfig, UpdateConfig, TerminalConfig,
}
use osante_ai_proxy.Config.Rules.{settle}
use osante_ai_proxy.Config.Codec.{Codec}
use osante_ai_proxy.Config.Store.{
  Store, Faults, StoredEndpoint, set_all, get_endpoints, save_endpoint, update_endpoint,
  delete_endpoint,
}

-- `strconv.FormatBool`
unfoldable pub format_bool : Bool → Text
unfolding text
format_bool true = text "true"
format_bool false = text "false"

unfoldable pub web_dav_settings : Option WebDavConfig → List (Text × Text)
unfolding text
web_dav_settings none = []
web_dav_settings (some w) =
    (text "webdav_url", w.url)
    ∷ (text "webdav_username", w.username)
    ∷ (text "webdav_password", w.password)
    ∷ (text "webdav_configPath", w.config_path)
    ∷ (text "webdav_statsPath", w.stats_path)
    ∷ []

unfoldable pub local_settings : Option Text → List (Text × Text)
unfolding text
local_settings none = []
local_settings (some dir) = (text "backup_local_dir", dir) ∷ []

unfoldable pub s3_settings : Option S3BackupConfig → List (Text × Text)
unfolding text format_bool
s3_settings none = []
s3_settings (some s3) =
    (text "backup_s3_endpoint", s3.endpoint)
    ∷ (text "backup_s3_region", s3.region)
    ∷ (text "backup_s3_bucket", s3.bucket)
    ∷ (text "backup_s3_prefix", s3.prefix)
    ∷ (text "backup_s3_accessKey", s3.access_key)
    ∷ (text "backup_s3_secretKey", s3.secret_key)
    ∷ (text "backup_s3_sessionToken", s3.session_token)
    ∷ (text "backup_s3_useSSL", format_bool s3.use_ssl)
    ∷ (text "backup_s3_forcePathStyle", format_bool s3.force_path_style)
    ∷ []

unfoldable pub backup_settings : Option BackupConfig → List (Text × Text)
unfolding text local_settings s3_settings
backup_settings none = []
backup_settings (some b) =
    (text "backup_provider", b.provider) ∷ (local_settings b.local_dir ++ s3_settings b.s3)

unfoldable pub url_of : Option Text → Text
url_of none = []
url_of (some url) = url

module _ (codec : Codec) where
  unfoldable pub app_settings : Config → List (Text × Text)
  unfolding text format_bool
  app_settings c =
      (text "port", codec.itoa c.port)
      ∷ (text "logLevel", codec.itoa c.log_level)
      ∷ (text "modelsCacheTTL", codec.itoa c.models_cache_ttl)
      ∷ (text "modelsCacheRefreshEnabled", format_bool c.models_cache_refresh_enabled)
      ∷ (text "language", c.language)
      ∷ (text "theme", c.theme)
      ∷ (text "themeAuto", format_bool c.theme_auto)
      ∷ (text "autoLightTheme", c.auto_light_theme)
      ∷ (text "autoDarkTheme", c.auto_dark_theme)
      ∷ (text "windowWidth", codec.itoa c.window_width)
      ∷ (text "windowHeight", codec.itoa c.window_height)
      ∷ (text "closeWindowBehavior", c.close_window_behavior)
      ∷ []

  unfoldable pub update_settings : Option UpdateConfig → List (Text × Text)
  unfolding text format_bool
  update_settings none = []
  update_settings (some u) =
      (text "update_autoCheck", format_bool u.auto_check)
      ∷ (text "update_checkInterval", codec.itoa u.check_interval)
      ∷ (text "update_lastCheckTime", u.last_check_time)
      ∷ (text "update_skippedVersion", u.skipped_version)
      ∷ []

  unfoldable pub terminal_settings : Option TerminalConfig → List (Text × Text)
  unfolding text
  terminal_settings none = []
  terminal_settings (some t) =
      (text "terminal_selected", t.selected_terminal)
      ∷ (text "terminal_projectDirs", codec.marshal_dirs t.project_dirs)
      ∷ (text "terminal_claudeCommand", t.claude_command)
      ∷ []

  -- Every setting that is written, in order.
  unfoldable pub all_settings : Config → List (Text × Text)
  unfolding text format_bool app_settings web_dav_settings backup_settings update_settings
      terminal_settings url_of
  all_settings c =
      app_settings c
      ++ (web_dav_settings c.web_dav
          ++ (backup_settings c.backup
              ++ (update_settings c.update
                  ++ (terminal_settings c.terminal
                      ++ ((text "proxy_url", url_of c.proxy_url)
                          ∷ (text "codex_proxy_url", url_of c.codex_proxy_url)
                          ∷ (
                            text "claude_notification_enabled",
                            format_bool c.claude_notification_enabled,
                          )
                          ∷ (text "claude_notification_type", c.claude_notification_type)
                          ∷ [])))))

  module _ (faults : Faults) where
    -- `storage.UpdateEndpoint` for a name that was stored, `storage.SaveEndpoint` for a new one.
    unfoldable pub write_endpoint : ℕ → Endpoint → List Text → Store → Bool × Store
    unfolding settle save_endpoint update_endpoint same
    write_endpoint i ep existing s =
        let row : StoredEndpoint = record {
          endpoint = settle codec.parse_url codec.clean_path ep;
          sort_order = i;
        } in
        if is_some (find_first (same ep.name) existing)
        then update_endpoint codec.parse_url codec.clean_path faults row s
        else save_endpoint codec.parse_url codec.clean_path faults row s

    -- The loop over the endpoints; what is left of the names that were stored comes with the store.
    unfoldable pub write_endpoints :
        ℕ → List Endpoint → List Text → Store → Bool × (List Text × Store)
    unfolding write_endpoint same
    write_endpoints i [] existing s = (true, (existing, s))
    write_endpoints i (ep ∷ eps) existing s =
        let r = write_endpoint i ep existing s in
        elim r.0 [
          | true ↦
              write_endpoints (suc i) eps (keep_if (λ name. not (same ep.name name)) existing) r.1
          | false ↦ (false, (existing, r.1))
        ]

    -- `for name := range existingNames`
    unfoldable pub delete_endpoints : List Text → Store → Bool × Store
    unfolding delete_endpoint
    delete_endpoints [] s = (true, s)
    delete_endpoints (name ∷ names) s =
        let r = delete_endpoint codec.parse_url codec.clean_path faults name s in
        elim r.0 [ true ↦ delete_endpoints names r.1 | false ↦ r ]

    -- `SaveToStorage`; false for an error, with what was written before it.
    unfoldable pub save_to_storage : Config → Store → Bool × Store
    unfolding write_endpoints delete_endpoints all_settings set_all get_endpoints
    save_to_storage c s = elim (get_endpoints codec.parse_url codec.clean_path faults s) [
      | none ↦ (false, s)
      | some rows ↦
          let written = write_endpoints 0 c.endpoints (map (λ r. r.endpoint.name) rows) s in
          let deleted =
            if written.0 then delete_endpoints written.1.0 written.1.1 else (false, written.1.1) in
          if deleted.0 then set_all faults (all_settings c) deleted.1 else deleted
    ]
