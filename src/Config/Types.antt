-- ===== src/Config/Types.antt =====
-- The configuration's records (internal/config/types.go), the default (config.go), and the accessors
-- that do more than read or write one field. A nil pointer is `none`.
use osante_ai_proxy.Base.{
  ℕ, Bool, true, false, Option, none, some, List, [], ◌∷◌, Text, text, if◌then◌else◌, ◌==◌,
}
use osante_ai_proxy.Proxy.Endpoint.{Endpoint}

-- Go's int, without its bounds.
pub data ℤ : Type 0 where
  pos negsuc : ℕ → ℤ

unfoldable pub is_zero : ℤ → Bool
is_zero (pos n) = n == 0
is_zero (negsuc n) = false

pub record WebDavConfig : Type 0 where
  pub url : Text
  pub username : Text
  pub password : Text
  pub config_path : Text
  pub stats_path : Text

pub record S3BackupConfig : Type 0 where
  pub endpoint : Text
  pub region : Text
  pub bucket : Text
  pub prefix : Text
  pub access_key : Text
  pub secret_key : Text
  pub session_token : Text
  pub use_ssl : Bool
  pub force_path_style : Bool

-- `Local` holds the directory.
pub record BackupConfig : Type 0 where
  pub provider : Text
  pub local_dir : Option Text
  pub s3 : Option S3BackupConfig

pub record UpdateConfig : Type 0 where
  pub auto_check : Bool
  pub check_interval : ℤ
  pub last_check_time : Text
  pub skipped_version : Text

pub record TerminalConfig : Type 0 where
  pub selected_terminal : Text
  pub project_dirs : List Text
  pub claude_command : Text

-- `Proxy` and `CodexProxy` hold a URL.
pub record Config : Type 0 where
  pub port : ℤ
  pub port_locked : Bool
  pub endpoints : List Endpoint
  pub log_level : ℤ
  pub language : Text
  pub theme : Text
  pub theme_auto : Bool
  pub auto_light_theme : Text
  pub auto_dark_theme : Text
  pub window_width : ℤ
  pub window_height : ℤ
  pub close_window_behavior : Text
  pub claude_notification_enabled : Bool
  pub claude_notification_type : Text
  pub models_cache_ttl : ℤ
  pub models_cache_refresh_enabled : Bool
  pub web_dav : Option WebDavConfig
  pub backup : Option BackupConfig
  pub update : Option UpdateConfig
  pub terminal : Option TerminalConfig
  pub proxy_url : Option Text
  pub codex_proxy_url : Option Text

abbrev pub default_port : ℤ
default_port = pos 12710

abbrev pub default_update : UpdateConfig
default_update = record {
  auto_check = true;
  check_interval = pos 24;
  last_check_time = [];
  skipped_version = [];
}

abbrev pub default_terminal : TerminalConfig
default_terminal = record { selected_terminal = text "cmd"; project_dirs = []; claude_command = [] }

-- `DefaultConfig`
abbrev pub default_config : Config
default_config = record {
  port = default_port;
  port_locked = false;
  endpoints =
      record {
        name = text "Claude Official";
        api_url = text "api.anthropic.com";
        api_key = text "your-api-key-here";
        auth_mode = text "api_key";
        enabled = true;
        transformer = text "claude";
        model = [];
        remark = [];
      }
      ∷ [];
  log_level = pos 1;
  language = text "en";
  theme = [];
  theme_auto = false;
  auto_light_theme = [];
  auto_dark_theme = [];
  window_width = pos 1024;
  window_height = pos 768;
  close_window_behavior = [];
  claude_notification_enabled = false;
  claude_notification_type = [];
  models_cache_ttl = pos 30;
  models_cache_refresh_enabled = false;
  web_dav = none;
  backup = none;
  update = some default_update;
  terminal = none;
  proxy_url = none;
  codex_proxy_url = none;
}

-- `UpdatePort`
unfoldable pub update_port : ℤ → Config → Config
update_port port c = if c.port_locked then c else record c { port = port }

-- `LockPort`
unfoldable pub lock_port : Config → Config
lock_port c = record c { port_locked = true }

-- `GetUpdate`
unfoldable pub get_update : Config → UpdateConfig
get_update c = elim c.update [ none ↦ default_update | some u ↦ u ]

-- `GetTerminal`
unfoldable pub get_terminal : Config → TerminalConfig
get_terminal c = elim c.terminal [ none ↦ default_terminal | some t ↦ t ]
