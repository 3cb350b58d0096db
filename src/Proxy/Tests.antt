-- ===== src/Proxy/Tests.antt =====
-- The request path on two endpoints, one with a pool of tokens.
use osante_ai_proxy.Base.{
  map, not, ◌&&◌, if◌then◌else◌, ◌||◌, ℕ, ◌+◌, ◌≡◌, ◌≤◌, refl, true, false, Option, none, some,
  List, [], ◌∷◌, Text, text, arith, same, length, count_if, ◌*◌, ◌&&◌, ◌||◌, ltb, if◌then◌else◌,
  is_empty, to_lower, contains, lookup, trim_space,
}
use osante_ai_proxy.Truncate.{truncate_string}
use osante_ai_proxy.Storage.Credential.{derive_status, Credential, active, invalid, is_usable}
use osante_ai_proxy.Storage.Pool.{mark_usage_limit, of_endpoint}
use osante_ai_proxy.Proxy.Endpoint.{Endpoint, enabled_endpoints}
use osante_ai_proxy.Proxy.Runtime.{is_cooling, check_cooldown}
use osante_ai_proxy.Proxy.Rotation.{search_from, endpoint_at, in_flight, request_endpoint}
use osante_ai_proxy.Proxy.Selection.{Served, request_endpoint-Served}
use osante_ai_proxy.Proxy.Classify.{
  is_token_pool, normalize_auth_mode, token_pool, is_usage_limit_error, is_transient,
}
use osante_ai_proxy.Proxy.State.{World, error_stat}
use osante_ai_proxy.Proxy.Attempt.{
  reset_at, Env, Attempt, Response, ready, replied, cancelled, retry_same_endpoint,
  retry_next_endpoint, payment_required, send_error,
}
use osante_ai_proxy.Proxy.Response.{handle_response}
use osante_ai_proxy.Proxy.ErrorBody.{Fields, error_output}
use osante_ai_proxy.Proxy.Loop.{max_retries, next_endpoint}
use osante_ai_proxy.Proxy.Once.{Replied}
use osante_ai_proxy.Proxy.Request.{Request, read, accept, serve}
use osante_ai_proxy.Proxy.Served.{Accepted, accept-Accepted, serve-Replied, in_flight-serve}
use osante_ai_proxy.Proxy.Choice.{next_endpoint-rested, max_retries-tokens}
use osante_ai_proxy.Proxy.Penalties.{
  usage_limit_cools_one, broken_request_charges, forbidden_makes_invalid, status_at,
}
use osante_ai_proxy.Proxy.Shown.{Shown, error_output-Shown}

abbrev endpoint : Text → Text → Endpoint
endpoint name auth_mode = record {
  name = name;
  api_url = text "https://api";
  api_key = text "key";
  auth_mode = auth_mode;
  enabled = true;
  transformer = [];
  model = [];
  remark = [];
}

abbrev first : Endpoint
first = endpoint (text "first") (text "token_pool")

abbrev second : Endpoint
second = endpoint (text "second") (text "api_key")

abbrev both : List Endpoint
both = first ∷ second ∷ []

abbrev token : Credential
token = record {
  id = 4;
  endpoint_name = text "first";
  provider_type = [];
  account_id = [];
  email = [];
  access_token = text "key";
  refresh_token = [];
  id_token = [];
  last_refresh = none;
  expires_at = none;
  status = active;
  enabled = true;
  failure_count = 0;
  cooldown_until = none;
  last_checked_at = none;
  last_used_at = none;
  last_error = [];
  remark = [];
  created_at = 1;
  updated_at = 1;
}

abbrev world : World
world = record {
  endpoints = both;
  current_index = 0;
  active = [];
  states = [];
  db = record { credentials = token ∷ []; usage = []; rate_limits = []; next_id = 5 };
  stats = [];
  specified = none;
  stream_requested = false;
  refreshed_ids = [];
  last_status = 0;
  last_body = none;
  written = [];
}

abbrev reply : ℕ → Text → Response
reply status body = record {
  status = status;
  content_type = [];
  body = some body;
  limits = none;
  event_limits = [];
  outcome = (10, 20);
  failure = none;
}

abbrev env_of : Response → Env
env_of resp = record {
  now = 100;
  client_gone = false;
  hung_up = false;
  preflight = none;
  retry_token = none;
  preparation = ready (text "openai");
  upstream = replied resp;
  duo = cancelled;
  find_reset = λ body. none;
  date = λ zone t hour minute. t;
}

abbrev limit_reply : Response
limit_reply = reply 402 (text "Usage limit reached")

abbrev env : Env
env = env_of limit_reply

abbrev attempt : Attempt
attempt = record {
  endpoint = first;
  auth_mode = token_pool;
  api_key = text "key";
  credential_id = 4;
  selected = some token;
  transformer_name = text "openai";
}

abbrev no_json : Text → Option Fields
no_json body = none

abbrev same_text : Text → Text
same_text s = s

abbrev request : Request
request = record {
  method = text "POST";
  body = read (text "{}");
  stream = false;
  wish = record {
    ccn_header = [];
    name_header = [];
    model = text "gpt";
    endpoint_query = [];
    ep_query = [];
  };
}

serve-Replied_example :
    Replied
      (λ i. env)
      (max_retries 100 world.db (enabled_endpoints both))
      world
      (serve same_text no_json (λ i. env) request world)
serve-Replied_example = serve-Replied same_text no_json (λ i. env) request world

in_flight-serve_example :
    in_flight (text "first") (serve same_text no_json (λ i. env) request world).active
    ≡ in_flight (text "first") world.active
in_flight-serve_example = in_flight-serve same_text no_json (λ i. env) request world (text "first")

accept-Accepted_example : Accepted request world (accept same_text request world)
accept-Accepted_example = accept-Accepted same_text request world

request_endpoint_example :
    let r = request_endpoint both 100 3 [] in Served (enabled_endpoints both) 100 3 [] (r.0, r.1)
request_endpoint_example = request_endpoint-Served both 100 3 []

picked_named : is_empty (next_endpoint 100 world).0.name ≡ false
unfolding next_endpoint is_empty request_endpoint enabled_endpoints search_from check_cooldown
    lookup endpoint_at text
picked_named = refl

next_endpoint-rested_example : is_cooling (next_endpoint 100 world).0.name 100 world.states ≡ false
next_endpoint-rested_example = next_endpoint-rested 100 world picked_named

is_pool : is_token_pool (normalize_auth_mode first.auth_mode) ≡ true
unfolding is_token_pool normalize_auth_mode same to_lower trim_space text
is_pool = refl

max_retries_example :
    2 * length both + count_if (λ c. is_usable c 100) (of_endpoint (text "first") world.db)
    ≤ max_retries 100 world.db both + 1
max_retries_example = max_retries-tokens 100 world.db [] (second ∷ []) first is_pool

limit_seen : is_usage_limit_error 402 (text "Usage limit reached") ≡ true
unfolding is_usage_limit_error contains to_lower text
limit_seen = refl

usage_limit_example :
    let r = payment_required env attempt limit_reply world in
    let msg = truncate_string (text "Usage limit reached") 200 in
    let pooled = is_token_pool token_pool && ltb 0 4 in
    (pooled ≡ true
      → (r.0 ≡ retry_same_endpoint)
        × (r.1.db.credentials
            ≡ (mark_usage_limit 4 msg (reset_at env limit_reply) 100 100 world.db).credentials)
        × (is_cooling (text "first") 200 r.1.states ≡ is_cooling (text "first") 200 world.states))
    × (pooled ≡ false
        → (r.0 ≡ retry_next_endpoint)
          × (is_cooling (text "first") 200 r.1.states ≡ (
              if same (text "first") (text "first")
              then ltb 200 (reset_at env limit_reply)
              else is_cooling (text "first") 200 world.states)))
usage_limit_example =
    usage_limit_cools_one env attempt limit_reply world (text "first") 200 limit_seen

broken_request_example :
    let r = send_error env attempt (text "no route to host") world in
    let spared = false || is_transient (text "no route to host") in
    (map (λ c. derive_status c 500) r.1.db.credentials
      ≡ map (λ c. derive_status c 500) world.db.credentials)
    × (is_cooling (text "first") 500 r.1.states ≡ is_cooling (text "first") 500 world.states)
    × (r.1.stats ≡ (if spared then world.stats else error_stat (text "first") ∷ world.stats))
    × (spared ≡ true → (r.1.db ≡ world.db) × (r.1.states ≡ world.states))
    × (r.0 ≡ (
        if not false && is_transient (text "no route to host")
        then retry_same_endpoint
        else retry_next_endpoint))
broken_request_example =
    broken_request_charges env attempt (text "no route to host") (text "first") 500 world

abbrev html : Response
html = reply 403 (text "<html><head><title>403 Forbidden</title></head></html>")

forbidden_example :
    let r = handle_response env attempt html world in
    (r.0 ≡ retry_next_endpoint) × (status_at 4 r.1 ≡ some invalid)
forbidden_example = forbidden_makes_invalid env attempt html world token refl (ground arith) refl

error_output_example :
    Shown no_json 502 (text "Bad Gateway") (error_output no_json 502 (text "Bad Gateway"))
error_output_example = error_output-Shown no_json 502 (text "Bad Gateway")
