-- ===== src/Config/Load.antt =====
-- LoadFromStorage (internal/config/config.go). A value that GetConfig fails to give is the empty text,
-- which every use here treats like the error.
use osante_ai_proxy.Base.{
  Bool, true, false, Option, none, some, List, [], map, Text, text, is_empty, same, if◌then◌else◌,
}
use osante_ai_proxy.Proxy.Endpoint.{Endpoint}
use osante_ai_proxy.Config.Types.{
  ℤ, pos, is_zero, Config, WebDavConfig, BackupConfig, S3BackupConfig, UpdateConfig, TerminalConfig,
  default_port,
}
use osante_ai_proxy.Config.Rules.{settle}
use osante_ai_proxy.Config.Codec.{Codec}
use osante_ai_proxy.Config.Store.{Store, Faults, get_config, get_endpoints}

-- `if v, err := storage.GetConfig(key); err == nil && v != "" { field = v }`
unfoldable pub text_or : Text → Text → Text
unfolding is_empty
text_or v default = if is_empty v then default else v

-- The same with `field = v == "true"`.
unfoldable pub flag_or : Text → Bool → Bool
unfolding is_empty same text
flag_or v default = if is_empty v then default else same v (text "true")

unfoldable pub nonzero_or : ℤ → ℤ → ℤ
unfolding is_zero
nonzero_or n default = if is_zero n then default else n

module _ (codec : Codec) where
  -- The same with `strconv.Atoi`; a text that it does not read leaves the default.
  unfoldable pub number_or : Text → ℤ → ℤ
  unfolding is_empty
  number_or v default =
      if is_empty v then default else elim (codec.atoi v) [ none ↦ default | some n ↦ n ]

  unfoldable pub dirs_or : Text → List Text → List Text
  unfolding is_empty
  dirs_or v default =
      if is_empty v
      then default
      else elim (codec.unmarshal_dirs v) [ none ↦ default | some dirs ↦ dirs ]

  module _ (faults : Faults) where
    unfoldable pub load_web_dav : Store → Option WebDavConfig
    unfolding is_empty get_config text
    load_web_dav s =
        let url = get_config faults (text "webdav_url") s in
        if is_empty url
        then none
        else some (record {
          url = url;
          username = get_config faults (text "webdav_username") s;
          password = get_config faults (text "webdav_password") s;
          config_path = get_config faults (text "webdav_configPath") s;
          stats_path = get_config faults (text "webdav_statsPath") s;
        })

    unfoldable pub load_s3 : Store → S3BackupConfig
    unfolding same get_config text
    load_s3 s = record {
      endpoint = get_config faults (text "backup_s3_endpoint") s;
      region = get_config faults (text "backup_s3_region") s;
      bucket = get_config faults (text "backup_s3_bucket") s;
      prefix = get_config faults (text "backup_s3_prefix") s;
      access_key = get_config faults (text "backup_s3_accessKey") s;
      secret_key = get_config faults (text "backup_s3_secretKey") s;
      session_token = get_config faults (text "backup_s3_sessionToken") s;
      use_ssl = same (get_config faults (text "backup_s3_useSSL") s) (text "true");
      force_path_style = same (get_config faults (text "backup_s3_forcePathStyle") s) (text "true");
    }

    unfoldable pub load_backup : Store → Option BackupConfig
    unfolding is_empty same get_config text load_s3
    load_backup s =
        let provider = get_config faults (text "backup_provider") s in
        if is_empty provider
        then none
        else some (record {
          provider = provider;
          local_dir =
              if same provider (text "local")
              then some (get_config faults (text "backup_local_dir") s)
              else none;
          s3 = if same provider (text "s3") then some (load_s3 s) else none;
        })

    unfoldable pub load_update : Store → UpdateConfig
    unfolding get_config flag_or number_or text
    load_update s = record {
      auto_check = flag_or (get_config faults (text "update_autoCheck") s) true;
      check_interval = number_or (get_config faults (text "update_checkInterval") s) (pos 24);
      last_check_time = get_config faults (text "update_lastCheckTime") s;
      skipped_version = get_config faults (text "update_skippedVersion") s;
    }

    unfoldable pub load_terminal : Store → TerminalConfig
    unfolding get_config text_or dirs_or text
    load_terminal s = record {
      selected_terminal = text_or (get_config faults (text "terminal_selected") s) (text "cmd");
      project_dirs = dirs_or (get_config faults (text "terminal_projectDirs") s) [];
      claude_command = get_config faults (text "terminal_claudeCommand") s;
    }

    unfoldable pub load_url : Text → Store → Option Text
    unfolding is_empty get_config
    load_url key s = let url = get_config faults key s in if is_empty url then none else some url

    -- Everything but the endpoints.
    unfoldable pub load_settings : List Endpoint → Store → Config
    unfolding get_config text_or flag_or number_or nonzero_or load_web_dav load_backup load_update
        load_terminal load_url text
    load_settings endpoints s =
        let get = λ (key : Text). get_config faults key s in
        record {
          port = nonzero_or (number_or (get (text "port")) default_port) default_port;
          port_locked = false;
          endpoints = endpoints;
          log_level = number_or (get (text "logLevel")) (pos 1);
          language = text_or (get (text "language")) (text "en");
          theme = text_or (get (text "theme")) (text "light");
          theme_auto = flag_or (get (text "themeAuto")) false;
          auto_light_theme = text_or (get (text "autoLightTheme")) (text "light");
          auto_dark_theme = text_or (get (text "autoDarkTheme")) (text "dark");
          window_width = nonzero_or (number_or (get (text "windowWidth")) (pos 1024)) (pos 1024);
          window_height = nonzero_or (number_or (get (text "windowHeight")) (pos 768)) (pos 768);
          close_window_behavior = text_or (get (text "closeWindowBehavior")) (text "ask");
          claude_notification_enabled = flag_or (get (text "claude_notification_enabled")) false;
          claude_notification_type = text_or (get (text "claude_notification_type")) (text "toast");
          models_cache_ttl = nonzero_or (number_or (get (text "modelsCacheTTL")) (pos 30)) (pos 30);
          models_cache_refresh_enabled = flag_or (get (text "modelsCacheRefreshEnabled")) false;
          web_dav = load_web_dav s;
          backup = load_backup s;
          update = some (load_update s);
          terminal = some (load_terminal s);
          proxy_url = load_url (text "proxy_url") s;
          codex_proxy_url = load_url (text "codex_proxy_url") s;
        }

    -- `LoadFromStorage`; `none` when the endpoints cannot be read.
    unfoldable pub load_from_storage : Store → Option Config
    unfolding settle get_endpoints load_settings
    load_from_storage s = elim (get_endpoints codec.parse_url codec.clean_path faults s) [
      | none ↦ none
      | some rows ↦
          some
            (load_settings (map (λ r. settle codec.parse_url codec.clean_path r.endpoint) rows) s)
    ]
