-- ===== src/Proxy/Served.antt =====
-- A request from its acceptance to its end.
use osante_ai_proxy.Base.{
  sym, ◌<◌, ◌≤◌, ◌≢◌, arith, ℕ, ◌≡◌, refl, ◌∙◌, ap, Bool, true, false, Option, none, some, List, [],
  ◌∷◌, ◌++◌, Text, text, same, trim_space, is_empty, length, ◌==◌, Bool-cases, inl, inr,
  if◌then◌else◌,
}
use osante_ai_proxy.Proxy.Endpoint.{Endpoint, enabled_endpoints}
use osante_ai_proxy.Proxy.Classify.{looks_like_json}
use osante_ai_proxy.Proxy.State.{World, proxy_error, write}
use osante_ai_proxy.Proxy.Rotation.{in_flight}
use osante_ai_proxy.Proxy.Attempt.{Env}
use osante_ai_proxy.Proxy.ErrorBody.{Fields}
use osante_ai_proxy.Proxy.Loop.{handle_request, max_retries}
use osante_ai_proxy.Proxy.Once.{
  Replied, once, gone, lost, handle_request-Replied, in_flight-handle_request,
}
use osante_ai_proxy.Proxy.Resolver.{Resolved, unspecified, specified, unknown, resolve}
use osante_ai_proxy.Proxy.Request.{
  Request, Body, too_large, unreadable, read, refuse, context, accept_body, accept, serve,
}

-- A request that the proxy takes on: a POST whose body was read and is JSON, while there are endpoints,
-- which names none that is not there.
pub record IsAcceptable (req : Request) (w : World) : Type 0 where
  pub body : Text
  pub was_read : req.body ≡ read body
  pub is_post : same req.method (text "POST") ≡ true
  pub not_blank : is_empty (trim_space body) ≡ false
  pub is_json : looks_like_json body ≡ true
  pub has_endpoints : 0 < length (enabled_endpoints w.endpoints)
  pub is_known : (name : Text) → resolve req.wish w.endpoints ≢ unknown name

-- The endpoint that the resolver gives.
abbrev pub named_by : Resolved → Option Endpoint
named_by unspecified = none
named_by (specified ep override) = some ep
named_by (unknown name) = none

-- What the acceptance of a request does: it refuses a request that is not acceptable with an error of the
-- proxy's own, and changes nothing else, or it takes an acceptable one on, sends nothing and changes only
-- what belongs to the request, whose endpoint is the resolver's.
pub data Accepted (req : Request) (w : World) (r : Bool × World) : Type 0 where
  refused :
      (status : ℕ) (kind msg : Text)
      → (IsAcceptable req w → ⊥)
      → 400 ≤ status
      → r ≡ (false, record w { written = proxy_error status kind msg ∷ w.written })
      → Accepted req w r
  admitted :
      IsAcceptable req w
      → r ≡ (
        true,
        record w {
          specified = named_by (resolve req.wish w.endpoints);
          stream_requested = req.stream;
          refreshed_ids = [];
          last_status = 0;
          last_body = none;
        },
      )
      → Accepted req w r

read_same : {b c : Text} → read b ≡ read c → b ≡ c
read_same e = ap (λ r. elim r [ too_large ↦ [] | unreadable ↦ [] | read t ↦ t ]) e

module _ (quote : Text → Text) (req : Request) (w : World) where
  refuse-Accepted :
      (status : ℕ) (kind msg : Text)
      → (IsAcceptable req w → ⊥)
      → 400 ≤ status
      → Accepted req w (refuse status kind msg w)
  unfolding refuse write
  refuse-Accepted status kind msg not_acceptable error =
      refused status kind msg not_acceptable error refl

  context-Accepted :
      (ep : Option Endpoint)
      → IsAcceptable req w
      → ep ≡ named_by (resolve req.wish w.endpoints)
      → Accepted req w (context req ep w)
  unfolding context
  context-Accepted ep acceptable e = rw e (admitted acceptable refl)

  resolved-Accepted :
      (r : Resolved)
      → resolve req.wish w.endpoints ≡ r
      → (((name : Text) → resolve req.wish w.endpoints ≢ unknown name) → IsAcceptable req w)
      → Accepted req w (elim r [
        | unspecified ↦ context req none w
        | specified ep override ↦ context req (some ep) w
        | unknown name ↦
            refuse 400
              (text "invalid_request_error")
              (text "specified endpoint " ++ (quote name ++ text " does not exist or is disabled"))
              w
      ])
  resolved-Accepted unspecified e acceptable =
      context-Accepted none (acceptable λ name f. absurd (cc (e, f))) (sym (ap named_by e))
  resolved-Accepted (specified ep override) e acceptable =
      context-Accepted (some ep) (acceptable λ name f. absurd (cc (e, f))) (sym (ap named_by e))
  resolved-Accepted (unknown name) e acceptable =
      refuse-Accepted _ _ _ (λ a. a.is_known name e) (omega arith)

  accept_body-Accepted :
      (body : Text) → req.body ≡ read body → Accepted req w (accept_body quote req body w)
  unfolding accept_body
  accept_body-Accepted body got = elim (Bool-cases (same req.method (text "POST"))) [
    | inr e ↦ rw e (refuse-Accepted _ _ _ (λ a. absurd (cc (a.is_post, e))) (omega arith))
    | inl e ↦ elim (Bool-cases (is_empty (trim_space body))) [
      | inl f ↦
          rw (e, f)
            (refuse-Accepted _ _ _
              (λ a. absurd (cc (a.not_blank, f, read_same (sym a.was_read ∙ got)))) (omega arith))
      | inr f ↦ elim (Bool-cases (looks_like_json body)) [
        | inr g ↦
            rw (e, f, g)
              (refuse-Accepted _ _ _
                (λ a. absurd (cc (a.is_json, g, read_same (sym a.was_read ∙ got)))) (omega arith))
        | inl g ↦ elim (Bool-cases (length (enabled_endpoints w.endpoints) == 0)) [
          | inl k ↦
              rw (e, f, g, k)
                (refuse-Accepted _ _ _ (λ a. absurd (ground (arith, a.has_endpoints, k)))
                  (omega arith))
          | inr k ↦
              rw (e, f, g, k)
                (resolved-Accepted (resolve req.wish w.endpoints) refl (λ known. record {
                  body = body;
                  was_read = got;
                  is_post = e;
                  not_blank = f;
                  is_json = g;
                  has_endpoints = ground (arith, k);
                  is_known = known;
                }))
        ]
      ]
    ]
  ]

  body-Accepted :
      (b : Body) → req.body ≡ b → Accepted req w (accept quote (record req { body = b }) w)
  unfolding accept accept_body context
  body-Accepted too_large e = refuse-Accepted _ _ _ (λ a. absurd (cc (a.was_read, e))) (omega arith)
  body-Accepted unreadable e =
      refuse-Accepted _ _ _ (λ a. absurd (cc (a.was_read, e))) (omega arith)
  body-Accepted (read body) e = accept_body-Accepted body e

-- A request is taken on exactly if it is a POST whose body was read, is not blank and looks like JSON,
-- endpoints are enabled, and it names no endpoint that the resolver does not know; it is sent nothing by
-- then, its endpoint is the resolver's, and only what belongs to the request changes. Any other gets one
-- error of the proxy's own, of status 400 or above, and changes nothing.
pub accept-Accepted :
    (quote : Text → Text) (req : Request) (w : World) → Accepted req w (accept quote req w)
accept-Accepted quote req w = body-Accepted quote req w req.body refl

Replied-from :
    (envs : ℕ → Env) (bound : ℕ) (v w u : World)
    → w.written ≡ v.written
    → Replied envs bound w u
    → Replied envs bound v u
Replied-from envs bound v w u e (once o s) = once o (s ∙ ap (λ os. o ∷ os) e)
Replied-from envs bound v w u e (gone i l c s) = gone i l c (s ∙ e)
Replied-from envs bound v w u e (lost i l c s) = lost i l c (s ∙ e)

module _ (quote : Text → Text) (unmarshal : Text → Option Fields) (envs : ℕ → Env) where
  abbrev continued : List Endpoint → Bool × World → World
  continued eps r = if r.0 then handle_request unmarshal envs eps r.1 else r.1

  continued-Replied :
      (req : Request) (w : World) (r : Bool × World)
      → Accepted req w r
      → Replied envs
          (max_retries (envs 0).now w.db (enabled_endpoints w.endpoints))
          w
          (continued (enabled_endpoints w.endpoints) r)
  continued-Replied req w r (refused status kind msg not_acceptable error e) =
      rw e (once (proxy_error status kind msg) refl)
  continued-Replied req w r (admitted acceptable e) = rw e (
      Replied-from envs _ w _ _ refl
        (handle_request-Replied unmarshal envs (enabled_endpoints w.endpoints) _))

  -- A client gets one response to its request, and no more, unless it had gone before one of the rounds,
  -- or the context of its GitLab Duo request ended while that did not wait for another request's answer:
  -- then it gets none.
  pub serve-Replied :
      (req : Request) (w : World)
      → Replied envs
          (max_retries (envs 0).now w.db (enabled_endpoints w.endpoints))
          w
          (serve quote unmarshal envs req w)
  unfolding serve
  serve-Replied req w = continued-Replied req w (accept quote req w) (accept-Accepted quote req w)

  continued-in_flight :
      (req : Request) (w : World) (r : Bool × World) (other : Text)
      → Accepted req w r
      → in_flight other (continued (enabled_endpoints w.endpoints) r).active
        ≡ in_flight other w.active
  continued-in_flight req w r other (refused status kind msg not_acceptable error e) = rw e
  continued-in_flight req w r other (admitted acceptable e) =
      rw e (in_flight-handle_request unmarshal envs (enabled_endpoints w.endpoints) _ other)

  -- A request leaves every endpoint's counter of requests in flight as it was, whatever the upstreams,
  -- the client and the tokens do.
  pub in_flight-serve :
      (req : Request) (w : World) (other : Text)
      → in_flight other (serve quote unmarshal envs req w).active ≡ in_flight other w.active
  unfolding serve
  in_flight-serve req w other =
      continued-in_flight req w (accept quote req w) other (accept-Accepted quote req w)
