-- ===== src/Proxy/Request.antt =====
-- internal/proxy/proxy_request.go: the acceptance of a request, before its attempts.
use osante_ai_proxy.Base.{
  ℕ, Bool, true, false, Option, none, some, [], ◌++◌, Text, text, same, trim_space, is_empty,
  length, ◌==◌, not, if◌then◌else◌,
}
use osante_ai_proxy.Proxy.Endpoint.{Endpoint, enabled_endpoints}
use osante_ai_proxy.Proxy.Classify.{looks_like_json}
use osante_ai_proxy.Proxy.State.{World, proxy_error, write}
use osante_ai_proxy.Proxy.Attempt.{Env}
use osante_ai_proxy.Proxy.ErrorBody.{Fields}
use osante_ai_proxy.Proxy.Loop.{handle_request}
use osante_ai_proxy.Proxy.Resolver.{Wish, unspecified, specified, unknown, resolve}

-- What reading the body came to; `http.MaxBytesReader` stops a body of more than 64 MiB.
pub data Body : Type 0 where
  too_large unreadable : Body
  read : Text → Body

-- A request: `stream` is what `json.Unmarshal` reads at that key of the body.
pub record Request : Type 0 where
  pub method : Text
  pub body : Body
  pub stream : Bool
  pub wish : Wish

unfoldable pub refuse : ℕ → Text → Text → World → Bool × World
refuse status kind msg w = (false, write (proxy_error status kind msg) w)

-- The context of a request that is accepted.
unfoldable pub context : Request → Option Endpoint → World → Bool × World
context req ep w = (
  true,
  record w {
    specified = ep;
    stream_requested = req.stream;
    refreshed_ids = [];
    last_status = 0;
    last_body = none;
  },
)

-- The guards on a body that was read; `quote` is the verb `%q`.
unfoldable pub accept_body : (Text → Text) → Request → Text → World → Bool × World
accept_body quote req body w =
    let invalid = text "invalid_request_error" in
    if not (same req.method (text "POST"))
    then refuse 400 invalid (text "method not allowed") w
    else if is_empty (trim_space body)
    then refuse 400 invalid (text "request body is empty") w
    else if not (looks_like_json body)
    then refuse 400 invalid (text "request body is not JSON") w
    else if length (enabled_endpoints w.endpoints) == 0
    then refuse 503 (text "overloaded_error") (text "No enabled endpoints configured") w
    else elim (resolve req.wish w.endpoints) [
      | unspecified ↦ context req none w
      | specified ep override ↦ context req (some ep) w
      | unknown name ↦
          refuse 400 invalid
            (text "specified endpoint " ++ (quote name ++ text " does not exist or is disabled")) w
    ]

-- `newProxyRequestContext`: whether the request is accepted.
unfoldable pub accept : (Text → Text) → Request → World → Bool × World
accept quote req w = elim req.body [
  | too_large ↦
      refuse 413 (text "invalid_request_error") (text "request body exceeds 67108864 bytes") w
  | unreadable ↦ refuse 400 (text "invalid_request_error") (text "Failed to read request body") w
  | read body ↦ accept_body quote req body w
]

-- The whole of `handleProxyRequest`.
unfoldable pub serve : (Text → Text) → (Text → Option Fields) → (ℕ → Env) → Request → World → World
serve quote unmarshal envs req w =
    let (accepted, w') = accept quote req w in
    if accepted then handle_request unmarshal envs (enabled_endpoints w.endpoints) w' else w'
