-- ===== src/Proxy/Attempt.antt =====
-- internal/proxy/proxy_request.go: one attempt at one endpoint, from its authentication to the
-- treatment of the upstream's reply.
use osante_ai_proxy.Base.{
  ℕ, Bool, true, false, Option, none, some, List, [], ◌∷◌, Text, text, trim_space, is_empty, ltb,
  ◌==◌, ◌&&◌, ◌||◌, not, if◌then◌else◌,
}
use osante_ai_proxy.Truncate.{truncate_string}
use osante_ai_proxy.Storage.Credential.{Credential}
use osante_ai_proxy.Storage.Pool.{claim, earliest_cooldown, mark_usage_limit}
use osante_ai_proxy.Proxy.Endpoint.{Endpoint}
use osante_ai_proxy.Proxy.Runtime.{set_cooldown}
use osante_ai_proxy.Proxy.Classify.{
  AuthMode, normalize_auth_mode, is_token_pool, is_usage_limit_error, is_auth_failure, is_transient,
  is_codex_provider,
}
use osante_ai_proxy.Proxy.UsageLimit.{Match, Date, parse_cooldown}
use osante_ai_proxy.Proxy.Refresh.{TokenReply, should_refresh, refresh_credential}
use osante_ai_proxy.Proxy.State.{
  World, forwarded, write, end_request, count_error, note_error, blame, count_usage_error,
}

pub data AttemptResult : Type 0 where
  done retry_same_endpoint retry_next_endpoint : AttemptResult

-- The fields of `endpointAttempt` that later steps read. `credential_id` is 0 outside a pool.
pub record Attempt : Type 0 where
  pub endpoint : Endpoint
  pub auth_mode : AuthMode
  pub api_key : Text
  pub credential_id : ℕ
  pub selected : Option Credential
  pub transformer_name : Text

-- What became of `prepareTransformerForClient`, `TransformRequest` and `buildProxyRequest`.
pub data Preparation : Type 0 where
  no_transformer not_transformed not_built : Preparation
  ready : Text → Preparation

-- An upstream's reply: `body` as `readResponseBody` gives it (`none` is nil), the JSON of the rate
-- limits in its headers and in its events, and, for a 200, what the response handlers returned: the
-- token counts as `finishSuccessfulAttempt` reports them, or the text of their error.
pub record Response : Type 0 where
  pub status : ℕ
  pub content_type : Text
  pub body : Option Text
  pub limits : Option Text
  pub event_limits : List Text
  pub outcome : (ℕ × ℕ)
  pub failure : Option Text

pub data Upstream : Type 0 where
  broken : Text → Upstream
  replied : Response → Upstream

-- What a GitLab Duo request came to: an answer, with the token counts that are recorded unless it was
-- another request's answer; a token without credit; another failure; the end of its context, after which
-- nothing is written; or the end of its context while it waits for another request's answer.
pub data Duo : Type 0 where
  answered : Option (ℕ × ℕ) → Duo
  no_credit : Duo
  failed : Text → Duo
  cancelled wait_cancelled : Duo

-- What the environment does during one attempt. `find_reset` and `date` are
-- the regular expression of the reset time and `time.Date`.
pub record Env : Type 0 where
  pub now : ℕ
  pub client_gone : Bool
  pub hung_up : Bool
  pub preflight : Option TokenReply
  pub retry_token : Option TokenReply
  pub preparation : Preparation
  pub upstream : Upstream
  pub duo : Duo
  pub find_reset : Text → Option Match
  pub date : Date

abbrev pub body_text : Response → Text
body_text resp = elim resp.body [ none ↦ [] | some b ↦ b ]

-- `parseUsageLimitCooldown` of the body.
abbrev pub reset_at : Env → Response → ℕ
reset_at env resp = parse_cooldown env.find_reset env.date (body_text resp) env.now

abbrev pub Step : Type 0
Step = AttemptResult × World

-- The exhausted branch of `resolveAttemptAuth`: the endpoint cools down until a token comes back.
unfoldable pub pool_exhausted : Env → Text → World → World
pool_exhausted env name w = elim (earliest_cooldown name env.now env.now w.db) [
  | none ↦ count_error name w
  | some until ↦
      count_error name (record w {
        states = set_cooldown name (some until) (text "Token pool exhausted") w.states;
      })
]

unfoldable pub attempt_with : Endpoint → AuthMode → Credential → Attempt
attempt_with ep mode c = record {
  endpoint = ep;
  auth_mode = mode;
  api_key = trim_space c.access_token;
  credential_id = c.id;
  selected = some c;
  transformer_name = [];
}

-- The token of a pool, refreshed before use when it is about to run out.
unfoldable pub use_token : Env → Endpoint → AuthMode → Credential → World → Option Attempt × World
use_token env ep mode c w =
    let (fresh, db') = refresh_credential env.preflight env.now c w.db in
    if should_refresh c env.now
    then elim fresh [
      | none ↦ (some (attempt_with ep mode c), record w { db = db' })
      | some c' ↦ (
        some (attempt_with ep mode c'),
        record w { db = db'; refreshed_ids = c'.id ∷ w.refreshed_ids },
      )
    ]
    else (some (attempt_with ep mode c), w)

-- `resolveAttemptAuth`: `none` means that the next endpoint is tried.
unfoldable pub resolve_auth : Env → Endpoint → World → Option Attempt × World
resolve_auth env ep w =
    let mode = normalize_auth_mode ep.auth_mode in
    let key = trim_space ep.api_key in
    let (token, db') = claim ep.name env.now env.now w.db in
    let w' : World = record w { db = db' } in
    if is_token_pool mode
    then elim token [
      | none ↦ (none, pool_exhausted env ep.name w')
      | some c ↦
          if is_empty (trim_space c.access_token)
          then (none, pool_exhausted env ep.name w')
          else use_token env ep mode c w'
    ]
    else if is_empty key
    then (none, count_error ep.name w)
    else (
      some (record {
        endpoint = ep;
        auth_mode = mode;
        api_key = key;
        credential_id = 0;
        selected = none;
        transformer_name = [];
      }),
      w,
    )

-- The failure that most branches record, under the message that the credential keeps and the one
-- that the endpoint keeps: the credential, its usage, the endpoint and the statistics.
unfoldable pub penalise : Env → Attempt → ℕ → Text → Text → World → World
penalise env a status blamed noted w = count_error a.endpoint.name (
    note_error a.endpoint.name noted env.now (
      count_usage_error a.credential_id a.endpoint.name env.now
        (blame a.credential_id status blamed env.now w)))

-- `handleSendError`
unfoldable pub send_error : Env → Attempt → Text → World → Step
send_error env a msg w =
    let w' = end_request a.endpoint.name w in
    if env.hung_up
    then (retry_next_endpoint, w')
    else if is_transient msg
    then (retry_same_endpoint, w')
    else (retry_next_endpoint, penalise env a 0 msg (truncate_string msg 200) w')

-- `handlePaymentRequired`
unfoldable pub payment_required : Env → Attempt → Response → World → Step
payment_required env a resp w =
    let name = a.endpoint.name in
    let msg = truncate_string (body_text resp) 200 in
    let limited = is_usage_limit_error resp.status (body_text resp) in
    let seen : World = record w { last_status = resp.status; last_body = resp.body } in
    if limited && (is_token_pool a.auth_mode && ltb 0 a.credential_id)
    then (
      retry_same_endpoint,
      end_request name (
          count_error name (
            count_usage_error a.credential_id name env.now (
              note_error name msg env.now (record seen {
                db =
                    mark_usage_limit a.credential_id msg (reset_at env resp) env.now env.now
                      seen.db;
              })))),
    )
    else let cooled : World =
        if limited
        then record seen {
          states =
              set_cooldown name (some (reset_at env resp)) (text "Usage limit reached") seen.states;
        }
        else seen in
      (retry_next_endpoint, end_request name (penalise env a resp.status msg msg cooled))

-- `handleRetryableStatus`
unfoldable pub retryable_status : Env → Attempt → Response → World → Step
retryable_status env a resp w =
    let msg = truncate_string (body_text resp) 200 in
    (retry_next_endpoint, end_request a.endpoint.name (penalise env a resp.status msg msg w))

unfoldable pub mem_id : ℕ → List ℕ → Bool
mem_id id [] = false
mem_id id (i ∷ is) = i == id || mem_id id is

-- `tryRefreshAfterAuthFailure`
unfoldable pub refresh_after : Env → Attempt → World → Bool × World
refresh_after env a w = elim a.selected [
  | none ↦ (false, w)
  | some c ↦
      let tried : World = record w { refreshed_ids = a.credential_id ∷ w.refreshed_ids } in
      let (fresh, db') = refresh_credential env.retry_token env.now c w.db in
      if not (is_codex_provider c.provider_type)
        || is_empty (trim_space c.refresh_token)
        || mem_id a.credential_id w.refreshed_ids
      then (false, w)
      else elim fresh [
        | none ↦ (false, tried)
        | some c' ↦ (true, record tried { db = db'; refreshed_ids = c'.id ∷ tried.refreshed_ids })
      ]
]

-- The end of `handleFinalStatus`: the reply goes to the client, and, unless it is a 200, its failure
-- is recorded, with status 0 where the credential is not to blame.
unfoldable pub forward_final : Env → Attempt → Response → ℕ → World → Step
forward_final env a resp blamed_status w =
    let name = a.endpoint.name in
    let msg = truncate_string (body_text resp) 500 in
    let w' = end_request name w in
    let recorded : World =
      if resp.status == 200
      then w'
      else count_usage_error a.credential_id name env.now
          (blame a.credential_id blamed_status msg env.now w') in
    (done, write (forwarded resp.status (body_text resp)) recorded)

-- `handleFinalStatus`
unfoldable pub final_status : Env → Attempt → Response → World → Step
final_status env a resp w =
    let name = a.endpoint.name in
    let msg = truncate_string (body_text resp) 500 in
    let (fresh, w') = refresh_after env a w in
    if not ((resp.status == 401 || resp.status == 403) && ltb 0 a.credential_id)
    then forward_final env a resp resp.status w
    else if not (is_auth_failure resp.status msg)
    then forward_final env a resp 0 (count_error name w)
    else if fresh
    then (retry_same_endpoint, end_request name w')
    else (
      retry_same_endpoint,
      end_request name (
          count_error name (
            count_usage_error a.credential_id name env.now
              (blame a.credential_id resp.status msg env.now w'))),
    )
