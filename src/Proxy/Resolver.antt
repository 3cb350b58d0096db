-- ===== src/Proxy/Resolver.antt =====
-- internal/proxy/endpoint_resolver.go: the endpoint that a request asks for.
use osante_ai_proxy.Base.{
  ℕ, suc, Bool, Option, none, some, List, [], Text, text, to_lower, trim_space, trim_prefix,
  has_prefix, contains, index, take, drop, is_empty, same, keep_if, find_first, ◌==◌, ◌&&◌, ◌||◌,
  not, if◌then◌else◌,
}
use osante_ai_proxy.Proxy.Endpoint.{Endpoint}

-- What the resolver reads of a request: two headers, the model of the body, two query parameters.
pub record Wish : Type 0 where
  pub ccn_header : Text
  pub name_header : Text
  pub model : Text
  pub endpoint_query : Text
  pub ep_query : Text

-- The result of `ResolveEndpoint`: nothing asked for, an endpoint with a model override, or an error on
-- the name.
pub data Resolved : Type 0 where
  unspecified : Resolved
  specified : Endpoint → Text → Resolved
  unknown : Text → Resolved

abbrev pub is_cosmetic : ℕ → Bool
is_cosmetic b = b == b' ' || b == b'-' || b == b'_'

-- `normalizeEndpointName`
unfoldable pub normalize : Text → Text
normalize s = keep_if (λ b. not (is_cosmetic b)) (to_lower (trim_space s))

-- `findEndpointByName`
unfoldable pub find_endpoint : Text → List Endpoint → Option Endpoint
find_endpoint name eps =
    find_first (λ ep. ep.enabled && same (normalize ep.name) (normalize name)) eps

-- The first of two texts that is not blank: `parseEndpointFromHeader`, `parseEndpointFromQuery`.
unfoldable pub first_of : Text → Text → Text
first_of a b = if is_empty (trim_space a) then trim_space b else trim_space a

-- `parseEndpointFromModel`
unfoldable pub split_model : Text → Text × Text
split_model model =
    let m = trim_prefix (trim_space model) (text "@") in
    elim (index m (text "/")) [
      | none ↦ (trim_space m, [])
      | some i ↦ (trim_space (take i m), trim_space (drop (suc i) m))
    ]

unfoldable pub resolve_name : Text → Text → List Endpoint → Resolved
resolve_name name override eps = elim (find_endpoint name eps) [
  | none ↦ unknown name
  | some ep ↦ specified ep override
]

unfoldable pub resolve_query : Wish → List Endpoint → Resolved
resolve_query wish eps =
    let name = first_of wish.endpoint_query wish.ep_query in
    if is_empty name then unspecified else resolve_name name [] eps

-- `ResolveEndpoint`
unfoldable pub resolve : Wish → List Endpoint → Resolved
resolve wish eps =
    let header = first_of wish.ccn_header wish.name_header in
    let model = trim_space wish.model in
    let (name, override) = split_model model in
    if not (is_empty header)
    then resolve_name header [] eps
    else if has_prefix model (text "@")
    then resolve_name name override eps
    else if contains model (text "/")
    then elim (find_endpoint name eps) [
      | some ep ↦ specified ep override
      | none ↦ resolve_query wish eps
    ]
    else resolve_query wish eps
