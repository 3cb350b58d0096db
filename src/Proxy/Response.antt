-- ===== src/Proxy/Response.antt =====
-- internal/proxy/proxy_request.go: the treatment of a reply by its status, and the whole of one
-- attempt.
use osante_ai_proxy.Base.{
  Option, none, some, List, [], ◌∷◌, Text, text, same, ltb, ◌==◌, ◌&&◌, not, if◌then◌else◌,
}
use osante_ai_proxy.Truncate.{truncate_string}
use osante_ai_proxy.Storage.Usage.{upsert_rate_limits}
use osante_ai_proxy.Proxy.Endpoint.{Endpoint}
use osante_ai_proxy.Proxy.Classify.{
  is_codex_pool, normalize_auth_mode, should_retry, aggregates_streaming, is_streaming_response,
}
use osante_ai_proxy.Proxy.State.{
  proxy_error, count_usage, World, Output, converted, streamed, aggregated, duo_answer, write,
  begin_request, end_request, count_error, blame, count_usage_error, finish, count_usage,
  proxy_error,
}
use osante_ai_proxy.Proxy.Attempt.{
  answered, no_credit, failed, cancelled, wait_cancelled, done, retry_next_endpoint, Attempt,
  no_transformer, not_transformed, not_built, ready, Response, broken, replied, Env, Step,
  resolve_auth, penalise, send_error, payment_required, retryable_status, final_status, answered,
  failed,
}

-- `captureCodexRateLimitsFromHeaders`, and `captureCodexRateLimitsFromEvent` for each event.
unfoldable pub capture_limits : Env → Attempt → Option Text → World → World
capture_limits env a none w = w
capture_limits env a (some payload) w =
    if not (ltb 0 a.credential_id)
    then w
    else if is_codex_pool (normalize_auth_mode a.endpoint.auth_mode)
    then record w {
      db = upsert_rate_limits a.credential_id (some payload) (text "ok") [] env.now w.db;
    }
    else w

unfoldable pub capture_events : Env → Attempt → List Text → World → World
capture_events env a [] w = w
capture_events env a (payload ∷ payloads) w =
    capture_events env a payloads (capture_limits env a (some payload) w)

-- An answer that went to the client, and `finishSuccessfulAttempt`.
unfoldable pub succeed : Env → Attempt → Response → Output → World → Step
succeed env a resp o w =
    (done, finish a.credential_id a.endpoint.name resp.outcome.0 resp.outcome.1 env.now (write o w))

-- `handleAggregatedStreamingSuccess`
unfoldable pub aggregated_success : Env → Attempt → Response → World → Step
aggregated_success env a resp w =
    let name = a.endpoint.name in
    let w' = capture_events env a resp.event_limits w in
    elim resp.failure [
      | none ↦ succeed env a resp aggregated w'
      | some msg ↦ (
        retry_next_endpoint,
        end_request name (
            count_error name (
              count_usage_error a.credential_id name env.now
                (blame a.credential_id 0 msg env.now w'))),
      )
    ]

-- The branch of `handleAttemptResponse` for a 200 that is not streamed.
unfoldable pub plain_success : Env → Attempt → Response → World → Step
plain_success env a resp w = elim resp.failure [
  | none ↦ succeed env a resp converted w
  | some msg ↦ (
    retry_next_endpoint,
    end_request a.endpoint.name (penalise env a 0 msg (truncate_string msg 200) w),
  )
]

-- `handleAttemptResponse`
unfoldable pub handle_response : Env → Attempt → Response → World → Step
handle_response env a resp w =
    let captured = capture_limits env a resp.limits w in
    if resp.status == 200
    then if not captured.stream_requested && aggregates_streaming a.endpoint a.transformer_name
      then aggregated_success env a resp captured
      else if is_streaming_response resp.content_type captured.stream_requested a.endpoint
          a.transformer_name
      then succeed env a resp streamed (capture_events env a resp.event_limits captured)
      else plain_success env a resp captured
    else if resp.status == 402
    then payment_required env a resp w
    else if should_retry resp.status
    then retryable_status env a resp w
    else final_status env a resp w

-- `prepareEndpointAttempt`: `none` means that the next endpoint is tried.
unfoldable pub prepare : Env → Endpoint → World → Option Attempt × World
prepare env ep w =
    let (resolved, w') = resolve_auth env ep w in
    elim resolved [
      | none ↦ (none, w')
      | some a ↦ elim env.preparation [
        | no_transformer ↦ (none, count_error ep.name w')
        | not_transformed ↦ (none, count_error ep.name w')
        | not_built ↦ (none, count_error ep.name w')
        | ready name ↦ (some (record a { transformer_name = name }), w')
      ]
    ]

-- `handleGitLabDuoRequest`, as far as it changes the state.
unfoldable pub duo_request : Env → Attempt → World → World
duo_request env a w = elim env.duo [
  | answered none ↦ write duo_answer w
  | answered (some (input_tokens, output_tokens)) ↦
      write duo_answer
        (count_usage a.credential_id a.endpoint.name 1 0 input_tokens output_tokens env.now w)
  | no_credit ↦
      write
        (proxy_error 403 (text "insufficient_quota") (
          text
            "GitLab Duo: insufficient GitLab credits for this token — it has been deactivated. Add a token with available Duo credits."))
        (blame a.credential_id 403 (text "GitLab Duo: insufficient credits") env.now w)
  | failed msg ↦ write (proxy_error 502 (text "api_error") msg) w
  | cancelled ↦ w
  | wait_cancelled ↦
      write
        (proxy_error 408 (text "client_canceled")
          (text "client canceled while waiting for in-flight request"))
        w
]

-- `runEndpointAttempt` from the request on.
unfoldable pub exchange : Env → Attempt → World → Step
exchange env a w =
    if same a.transformer_name (text "cc_gitlabduo")
    then (done, duo_request env a (end_request a.endpoint.name w))
    else elim env.upstream [
      | broken msg ↦ send_error env a msg w
      | replied resp ↦ handle_response env a resp w
    ]

-- `runEndpointAttempt`
unfoldable pub run_attempt : Env → Endpoint → World → Step
run_attempt env ep w =
    let (prepared, w') = prepare env ep (begin_request ep.name w) in
    elim prepared [
      | none ↦ (retry_next_endpoint, end_request ep.name w')
      | some a ↦ exchange env a w'
    ]
