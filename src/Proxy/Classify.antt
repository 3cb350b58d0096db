-- ===== src/Proxy/Classify.antt =====
-- The tests by which internal/proxy sorts responses, errors and requests: proxy.go, utils.go,
-- usage_limit.go, proxy_request.go, request.go; and the auth modes of internal/config/config.go.
use osante_ai_proxy.Base.{
  ℕ, Bool, true, false, [], ◌∷◌, Text, text, to_lower, trim_space, contains, contains_any,
  has_prefix, is_empty, same, ltb, leb, ◌==◌, ◌&&◌, ◌||◌, not, if◌then◌else◌,
}
use osante_ai_proxy.Proxy.Endpoint.{Endpoint}

pub data AuthMode : Type 0 where
  api_key token_pool codex_token_pool : AuthMode

-- `NormalizeAuthMode`
unfoldable pub normalize_auth_mode : Text → AuthMode
normalize_auth_mode mode =
    let m = to_lower (trim_space mode) in
    if same m (text "token_pool")
    then token_pool
    else if same m (text "codex_token_pool")
    then codex_token_pool
    else api_key

-- `IsTokenPoolAuthMode`, on a mode that is normal.
unfoldable pub is_token_pool : AuthMode → Bool
is_token_pool api_key = false
is_token_pool token_pool = true
is_token_pool codex_token_pool = true

-- `shouldRetry`
unfoldable pub should_retry : ℕ → Bool
should_retry status = not (status == 200) && not (status == 400) && not (status == 401)

-- `isUsageLimitError`
unfoldable pub is_usage_limit_error : ℕ → Text → Bool
is_usage_limit_error status body =
    let lower = to_lower body in
    if not (status == 402)
    then false
    else contains lower (text "usage limit reached") || contains lower (text "usage limit")

-- `shouldTreatCredentialAuthFailure`
unfoldable pub is_auth_failure : ℕ → Text → Bool
is_auth_failure status body =
    let lower = to_lower (trim_space body) in
    if status == 401
    then true
    else if not (status == 403)
    then false
    else not (
        has_prefix lower (text "<!doctype html")
        || has_prefix lower (text "<html")
        || contains lower (text "<head>")
        || contains lower (text "<body"))

-- `isTransientNetworkError`, on the text of an error.
unfoldable pub is_transient : Text → Bool
is_transient msg = contains_any (to_lower (trim_space msg)) (
    text "eof"
    ∷ text "timeout awaiting response headers"
    ∷ text "i/o timeout"
    ∷ text "connection reset by peer"
    ∷ [])

-- `isClientDisconnectError`, on the text of an error.
unfoldable pub is_client_disconnect : Text → Bool
is_client_disconnect msg = contains_any (to_lower msg) (
    text "broken pipe"
    ∷ text "connection reset"
    ∷ text "forcibly closed by the remote host"
    ∷ text "wsasend"
    ∷ text "wsarecv"
    ∷ text "use of closed network connection"
    ∷ text "context canceled"
    ∷ text "client disconnected"
    ∷ [])

-- `isGatewayNotFoundNoise`
unfoldable pub is_gateway_noise : Text → Bool
is_gateway_noise body =
    let trimmed = trim_space body in
    is_empty trimmed
    || same trimmed (text "404 page not found")
    || contains (to_lower trimmed) (text "invalid url (get /")

-- `looksLikeJSONBody`
unfoldable pub looks_like_json : Text → Bool
looks_like_json body = elim (trim_space body) [ [] ↦ false | c ∷ rest ↦ c == b'{' || c == b'[' ]

-- `isCodexProviderType`
unfoldable pub is_codex_provider : Text → Bool
is_codex_provider provider_type =
    let p = to_lower (trim_space provider_type) in is_empty p || same p (text "codex")

-- `shouldAggregateCodexStreaming`
unfoldable pub aggregates_streaming : Endpoint → Text → Bool
aggregates_streaming ep transformer_name =
    contains transformer_name (text "openai2")
    && contains (to_lower (trim_space ep.api_url)) (text "chatgpt.com/backend-api/codex")

-- `shouldHandleAsStreamingResponse`
unfoldable pub is_streaming_response : Text → Bool → Endpoint → Text → Bool
is_streaming_response content_type stream_requested ep transformer_name =
    if contains (to_lower (trim_space content_type)) (text "text/event-stream")
    then true
    else if not stream_requested
    then false
    else aggregates_streaming ep transformer_name

-- `errTypeForStatus`
unfoldable pub err_type : ℕ → Text
err_type status =
    if status == 400
    then text "invalid_request_error"
    else if status == 401
    then text "authentication_error"
    else if status == 403
    then text "permission_error"
    else if status == 404
    then text "not_found_error"
    else if status == 413
    then text "request_too_large"
    else if status == 429
    then text "rate_limit_error"
    else if status == 402
    then text "rate_limit_error"
    else if leb 500 status && ltb status 600
    then text "overloaded_error"
    else text "api_error"

pub data ClientFormat : Type 0 where
  claude openai_chat openai_responses : ClientFormat

-- `detectClientFormat`
unfoldable pub client_format : Text → ClientFormat
client_format path =
    if has_prefix path (text "/v1/chat/completions") || has_prefix path (text "/chat/completions")
    then openai_chat
    else if has_prefix path (text "/v1/responses") || has_prefix path (text "/responses")
    then openai_responses
    else claude

unfoldable pub is_codex_pool : AuthMode → Bool
is_codex_pool codex_token_pool = true
is_codex_pool _ = false
