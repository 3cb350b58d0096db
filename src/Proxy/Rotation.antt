-- ===== src/Proxy/Rotation.antt =====
-- internal/proxy/proxy.go: the choice of the current endpoint, and the counters of the requests in
-- flight. `configured` is the list of the configuration; the index counts its enabled endpoints.
use osante_ai_proxy.Base.{
  ℕ, zero, suc, ◌+◌, ◌-◌, ◌%◌, Bool, Option, none, some, List, [], ◌∷◌, Text, Table, lookup, insert,
  erase, text_eq, ltb, leb, ◌==◌, if◌then◌else◌, length, get_elem?, same,
}
use osante_ai_proxy.Proxy.Endpoint.{Endpoint, no_endpoint, enabled_endpoints}
use osante_ai_proxy.Proxy.Runtime.{States, check_cooldown}

-- `endpoints[i]`, for an index that is in range.
unfoldable pub endpoint_at : List Endpoint → ℕ → Endpoint
endpoint_at eps i = elim (get_elem? eps i) [ none ↦ no_endpoint | some ep ↦ ep ]

-- `getCurrentEndpoint`
unfoldable pub current_endpoint : List Endpoint → ℕ → Endpoint
current_endpoint configured index =
    let eps = enabled_endpoints configured in
    if length eps == 0 then no_endpoint else endpoint_at eps (index % length eps)

-- The loop of `currentRequestEndpoint`, `rounds` of its `n` rounds from index `idx` on. The result
-- is the endpoint that is not in cooldown with its index, and the map that the tests leave.
unfoldable pub search_from : List Endpoint → ℕ → ℕ → ℕ → States → Option (ℕ × Endpoint) × States
search_from eps now zero idx m = (none, m)
search_from eps now (suc rounds) idx m =
    let ep = endpoint_at eps (idx % length eps) in
    let (cooling, m') = check_cooldown ep.name now m in
    let rest = search_from eps now rounds (idx + 1) m' in
    if cooling then rest else (some (idx % length eps, ep), m')

-- `currentRequestEndpoint`: the endpoint, the new index and the map.
unfoldable pub request_endpoint : List Endpoint → ℕ → ℕ → States → Endpoint × ℕ × States
request_endpoint configured now index m =
    let eps = enabled_endpoints configured in
    let n = length eps in
    let (found, m') = search_from eps now n (index % n) m in
    if n == 0
    then (no_endpoint, index, m)
    else elim found [ none ↦ (no_endpoint, index, m') | some (i, ep) ↦ (ep, i, m') ]

-- `rotateEndpoint`, after its wait for the requests in flight: the endpoint and the new index.
unfoldable pub rotate : List Endpoint → ℕ → Endpoint × ℕ
rotate configured index =
    let eps = enabled_endpoints configured in
    let n = length eps in
    if n == 0
    then (no_endpoint, index)
    else (endpoint_at eps ((index % n + 1) % n), (index % n + 1) % n)

-- The endpoint contexts that are open, by endpoint name; `cancelEndpointRequests` closes one.
unfoldable pub position : Text → List Endpoint → Option ℕ
position name [] = none
position name (ep ∷ eps) =
    if same ep.name name
    then some 0
    else elim (position name eps) [ none ↦ none | some i ↦ some (suc i) ]

-- `SetCurrentEndpoint`: `none` is its error; otherwise the new index, and the endpoint whose requests
-- are cancelled, if it is another one.
unfoldable pub set_current : List Endpoint → Text → ℕ → Option (ℕ × Option Text)
set_current configured target index =
    let eps = enabled_endpoints configured in
    let old = endpoint_at eps (index % length eps) in
    if length eps == 0 then none else elim (position target eps) [
      | none ↦ none
      | some i ↦ some (i, if same old.name target then none else some old.name)
    ]

abbrev pub Active : Type 0
Active = Table Text ℕ

unfoldable pub count_of : Option ℕ → ℕ
count_of none = 0
count_of (some n) = n

-- `p.activeRequests[name]`, which reads 0 for a missing key.
abbrev pub in_flight : Text → Active → ℕ
in_flight name m = count_of (lookup name m)

-- `markRequestActive`
unfoldable pub mark_active : Text → Active → Active
mark_active name m = insert name (in_flight name m + 1) m

-- `markRequestInactive`
unfoldable pub mark_inactive : Text → Active → Active
mark_inactive name m = elim (lookup name m) [
  | none ↦ m
  | some c ↦ if leb c 1 then erase name m else insert name (c - 1) m
]

-- `hasActiveRequests`
unfoldable pub has_active : Text → Active → Bool
has_active name m = ltb 0 (in_flight name m)
