-- ===== src/Config/Rules.antt =====
-- The rules on an endpoint's auth mode and the check of a configuration (internal/config/config.go).
-- url.Parse and path.Clean are parameters; url.Parse gives the host and the path.
use osante_ai_proxy.Base.{
  ℕ, suc, ◌-◌, Bool, false, Option, none, some, List, [], ◌∷◌, ◌++◌, Text, text, is_empty, same,
  to_lower, trim_space, has_prefix, has_suffix, length, take, ltb, leb, ◌&&◌, ◌||◌, not,
  if◌then◌else◌,
}
use osante_ai_proxy.Proxy.Endpoint.{Endpoint}
use osante_ai_proxy.Proxy.Classify.{
  AuthMode, api_key, token_pool, codex_token_pool, normalize_auth_mode,
}
use osante_ai_proxy.Config.Types.{Config, ℤ, pos, negsuc}

-- A mode as the code writes it.
unfoldable pub mode_name : AuthMode → Text
unfolding text
mode_name api_key = text "api_key"
mode_name token_pool = text "token_pool"
mode_name codex_token_pool = text "codex_token_pool"

-- `strings.TrimSuffix s p`
unfoldable pub trim_suffix : Text → Text → Text
unfolding has_suffix
trim_suffix s p = if has_suffix s p then take (length s - length p) s else s

-- `strings.EqualFold`
unfoldable pub equal_fold : Text → Text → Bool
unfolding same to_lower
equal_fold s t = same (to_lower s) (to_lower t)

abbrev pub codex_api_url : Text
codex_api_url = text "https://chatgpt.com/backend-api/codex"

abbrev pub codex_transformer : Text
codex_transformer = text "openai2"

-- What a mode makes of an endpoint.
unfoldable pub with_mode : AuthMode → Endpoint → Endpoint
unfolding mode_name
with_mode api_key ep = record ep { auth_mode = mode_name api_key }
with_mode token_pool ep = record ep { auth_mode = mode_name token_pool; api_key = [] }
with_mode codex_token_pool ep = record ep {
  auth_mode = mode_name codex_token_pool;
  api_url = codex_api_url;
  transformer = codex_transformer;
  api_key = [];
}

unfoldable pub valid_port : ℤ → Bool
valid_port (pos n) = ltb 0 n && leb n 65535
valid_port (negsuc n) = false

-- The errors of `Validate`, with an endpoint's place from 1.
pub data ConfigError : Type 0 where
  invalid_port no_endpoints : ConfigError
  url_required key_required : ℕ → ConfigError

module _ (parse_url : Text → Option (Text × Text)) (clean_path : Text → Text) where
  -- `isCodexBackendAPIURL`
  unfoldable pub is_codex_backend : Text → Bool
  unfolding is_empty has_prefix has_suffix to_lower trim_space same trim_suffix text
  is_codex_backend raw =
      let trimmed = trim_space raw in
      let normalized =
        if not (has_prefix trimmed (text "http://")) && not (has_prefix trimmed (text "https://"))
        then text "https://" ++ trimmed
        else trimmed in
      if is_empty trimmed then false else elim (parse_url normalized) [
        | none ↦
            has_suffix (to_lower (trim_suffix trimmed (text "/")))
              (text "chatgpt.com/backend-api/codex")
        | some (host, path) ↦
            let clean = clean_path (trim_space path) in
            if not (same (to_lower (trim_space host)) (text "chatgpt.com"))
            then false
            else has_suffix clean (text "/backend-api/codex")
              || has_suffix clean (text "/backend-api/codex/v1")
      ]

  -- The mode after the migration of older entries.
  unfoldable pub migrated_mode : Text → Text → AuthMode → AuthMode
  unfolding is_codex_backend equal_fold
  migrated_mode url transformer token_pool =
      if equal_fold transformer codex_transformer && is_codex_backend url
      then codex_token_pool
      else token_pool
  migrated_mode url transformer api_key = api_key
  migrated_mode url transformer codex_token_pool = codex_token_pool

  -- `ApplyEndpointAuthModeRules`
  unfoldable pub apply_rules : Endpoint → Endpoint
  unfolding with_mode migrated_mode trim_suffix trim_space normalize_auth_mode
  apply_rules ep =
      let url = trim_suffix (trim_space ep.api_url) (text "/") in
      let transformer = trim_space ep.transformer in
      with_mode (migrated_mode url transformer (normalize_auth_mode ep.auth_mode))
        (record ep { api_url = url; transformer = transformer })

  -- The default transformer, then the rules: what loading, saving and the check do to an endpoint.
  unfoldable pub settle : Endpoint → Endpoint
  unfolding apply_rules is_empty
  settle ep =
      apply_rules
        (if is_empty ep.transformer then record ep { transformer = text "claude" } else ep)

  -- The loop of `Validate`, from the endpoint of an index; the endpoints settled so far stay changed.
  unfoldable pub validate_from : ℕ → List Endpoint → Option ConfigError × List Endpoint
  unfolding settle is_empty same trim_space
  validate_from i [] = (none, [])
  validate_from i (ep ∷ eps) =
      let ep1 = settle ep in
      let rest = validate_from (suc i) eps in
      if is_empty ep1.api_url
      then (some (url_required (suc i)), ep1 ∷ eps)
      else if same ep1.auth_mode (text "api_key") && is_empty (trim_space ep1.api_key)
      then (some (key_required (suc i)), ep1 ∷ eps)
      else (rest.0, ep1 ∷ rest.1)

  -- `Validate`
  unfoldable pub validate : Config → Option ConfigError × Config
  unfolding validate_from valid_port
  validate c = if not (valid_port c.port) then (some invalid_port, c) else elim c.endpoints [
    | [] ↦ (some no_endpoints, c)
    | ep ∷ eps ↦
        let checked = validate_from 0 (ep ∷ eps) in (checked.0, record c { endpoints = checked.1 })
  ]
