-- ===== src/Proxy/Endpoint.antt =====
-- The endpoint record of internal/config/types.go, as the proxy reads it.
use osante_ai_proxy.Base.{Bool, false, [], List, Text, keep_if}

pub record Endpoint : Type 0 where
  pub name : Text
  pub api_url : Text
  pub api_key : Text
  pub auth_mode : Text
  pub enabled : Bool
  pub transformer : Text
  pub model : Text
  pub remark : Text

-- `config.Endpoint{}`, which the proxy returns for "no endpoint".
abbrev pub no_endpoint : Endpoint
no_endpoint = record {
  name = [];
  api_url = [];
  api_key = [];
  auth_mode = [];
  enabled = false;
  transformer = [];
  model = [];
  remark = [];
}

-- `getEnabledEndpoints`
unfoldable pub enabled_endpoints : List Endpoint → List Endpoint
enabled_endpoints eps = keep_if (λ ep. ep.enabled) eps
