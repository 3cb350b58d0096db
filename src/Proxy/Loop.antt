-- ===== src/Proxy/Loop.antt =====
-- internal/proxy/proxy_request.go: the attempts that a request gets. Each has an environment of its
-- own, and `unmarshal` is `json.Unmarshal` into a map.
use osante_ai_proxy.Base.{
  ℕ, zero, suc, ◌+◌, ◌-◌, ◌*◌, true, false, Option, none, some, List, [], ◌∷◌, Text, text, same,
  is_empty, if◌then◌else◌, ◌&&◌, not, length, leb, ◌==◌,
}
use osante_ai_proxy.Storage.Pool.{Db, pool_stats}
use osante_ai_proxy.Proxy.Endpoint.{Endpoint, no_endpoint}
use osante_ai_proxy.Proxy.Runtime.{check_cooldown}
use osante_ai_proxy.Proxy.Rotation.{request_endpoint, rotate}
use osante_ai_proxy.Proxy.Classify.{is_token_pool, normalize_auth_mode}
use osante_ai_proxy.Proxy.State.{World, proxy_error, write}
use osante_ai_proxy.Proxy.ErrorBody.{Fields, error_output}
use osante_ai_proxy.Proxy.Attempt.{done, retry_same_endpoint, retry_next_endpoint, Env}
use osante_ai_proxy.Proxy.Response.{run_attempt}

-- What an endpoint adds to the attempts: a pool of `n` usable tokens adds `n - 1`.
unfoldable pub extra_retries : ℕ → Db → List Endpoint → ℕ
extra_retries now db [] = 0
extra_retries now db (ep ∷ eps) =
    let stats = pool_stats ep.name now now db in
    (if is_token_pool (normalize_auth_mode ep.auth_mode)
      then stats.active + stats.expiring + stats.need_refresh - 1
      else 0)
    + extra_retries now db eps

-- `computeMaxRetries`
unfoldable pub max_retries : ℕ → Db → List Endpoint → ℕ
max_retries now db eps = length eps * 2 + extra_retries now db eps

-- `nextEndpointForRequest`
unfoldable pub next_endpoint : ℕ → World → Endpoint × World
next_endpoint now w = elim w.specified [
  | none ↦
      let (ep, index, m) = request_endpoint w.endpoints now w.current_index w.states in
      (ep, record w { current_index = index; states = m })
  | some ep ↦
      let (cooling, m) = check_cooldown ep.name now w.states in
      (if cooling then no_endpoint else ep, record w { states = m })
]

-- `writeLastUpstreamError`, and the error that is written where it writes nothing.
unfoldable pub write_last_error : (Text → Option Fields) → Text → World → World
write_last_error unmarshal fallback w = elim w.last_body [
  | none ↦ write (proxy_error 503 (text "overloaded_error") fallback) w
  | some body ↦
      if w.last_status == 0
      then write (proxy_error 503 (text "overloaded_error") fallback) w
      else write (error_output unmarshal w.last_status body) w
]

-- `writeExhaustedResponse`
unfoldable pub write_exhausted : (Text → Option Fields) → World → World
write_exhausted unmarshal w = write_last_error unmarshal (text "All endpoints failed") w

-- The number of attempts at the endpoint, with the one that starts: `endpointAttempts`.
unfoldable pub count_attempt : Text → Text → ℕ → ℕ
count_attempt last name attempts =
    if not (is_empty last) && not (same last name) then 1 else attempts + 1

-- A second failure in a row at one endpoint moves the current index, unless the request names its
-- endpoint.
unfoldable pub after_failure : ℕ → World → ℕ × World
after_failure attempts w = elim w.specified [
  | some ep ↦ (attempts, w)
  | none ↦
      if leb 2 attempts
      then (0, record w { current_index = (rotate w.endpoints w.current_index).1 })
      else (attempts, w)
]

-- The loop of `handleProxyRequest`, with `left` rounds to go after round `retry`.
unfoldable pub retry_loop : (Text → Option Fields) → (ℕ → Env) → ℕ → ℕ → ℕ → Text → World → World
retry_loop unmarshal envs zero retry attempts last w = write_exhausted unmarshal w
retry_loop unmarshal envs (suc left) retry attempts last w =
    let env = envs retry in
    let (ep, w') = next_endpoint env.now w in
    let (result, w'') = run_attempt env ep w' in
    let tried = count_attempt last ep.name attempts in
    elim env.client_gone [
      | true ↦ w
      | false ↦ elim (is_empty ep.name) [
        | true ↦ write_last_error unmarshal (text "No enabled endpoints available") w'
        | false ↦ elim result [
          | done ↦ w''
          | retry_same_endpoint ↦ retry_loop unmarshal envs left (retry + 1) 0 ep.name w''
          | retry_next_endpoint ↦
              let (counted, moved) = after_failure tried w'' in
              retry_loop unmarshal envs left (retry + 1) counted ep.name moved
        ]
      ]
    ]

-- `handleProxyRequest`, for a request whose context is made: `eps` are the endpoints that were enabled
-- then.
unfoldable pub handle_request : (Text → Option Fields) → (ℕ → Env) → List Endpoint → World → World
handle_request unmarshal envs eps w =
    retry_loop unmarshal envs (max_retries (envs 0).now w.db eps) 0 0 [] w
