-- ===== src/Proxy/Wishes.antt =====
-- What the resolver promises.
use osante_ai_proxy.Base.{
  find_first, none, ◌≢◌, ◌≡◌, Bool, true, false, some, List, [], Text, text, Bool-cases,
  Option-cases, inl, inr, same, is_empty, find_first_sound, find_first-none, ◌&&◌, find_first-All,
  All, trim_space, has_prefix, contains,
}
use osante_ai_proxy.Proxy.Endpoint.{Endpoint}
use osante_ai_proxy.Proxy.Resolver.{
  Wish, Resolved, unspecified, specified, unknown, normalize, find_endpoint, first_of, split_model,
  resolve_name, resolve_query, resolve,
}

abbrev pub is_asked : Text → Endpoint → Bool
is_asked name ep = ep.enabled && same (normalize ep.name) (normalize name)

-- What the parts of a request name: the headers, the model before and after its "/", the query.
abbrev pub header_name : Wish → Text
header_name wish = first_of wish.ccn_header wish.name_header

abbrev pub model_name : Wish → Text
model_name wish = (split_model (trim_space wish.model)).0

abbrev pub model_rest : Wish → Text
model_rest wish = (split_model (trim_space wish.model)).1

abbrev pub query_name : Wish → Text
query_name wish = first_of wish.endpoint_query wish.ep_query

abbrev pub has_at : Wish → Bool
has_at wish = has_prefix (trim_space wish.model) (text "@")

abbrev pub has_path : Wish → Bool
has_path wish = contains (trim_space wish.model) (text "/")

-- Neither a header nor a model with "@" names an endpoint, and a model with "/" names none of them.
pub record IsLeftToQuery (eps : List Endpoint) (wish : Wish) : Type 0 where
  pub no_header : is_empty (header_name wish) ≡ true
  pub no_at : has_at wish ≡ false
  pub no_match : has_path wish ≡ true → find_first (is_asked (model_name wish)) eps ≡ none

-- The name that a request asks for, and the model that goes with it: the header's name, without a header
-- that of a model with "@", then that of a model with "/" if it is an endpoint's, and then the query's.
pub data Asks (eps : List Endpoint) (wish : Wish) : Text → Text → Type 0 where
  by_header : is_empty (header_name wish) ≡ false → Asks eps wish (header_name wish) []
  by_at :
      is_empty (header_name wish) ≡ true
      → has_at wish ≡ true
      → Asks eps wish (model_name wish) (model_rest wish)
  by_path :
      is_empty (header_name wish) ≡ true
      → has_at wish ≡ false
      → has_path wish ≡ true
      → find_first (is_asked (model_name wish)) eps ≢ none
      → Asks eps wish (model_name wish) (model_rest wish)
  by_query :
      IsLeftToQuery eps wish
      → is_empty (query_name wish) ≡ false
      → Asks eps wish (query_name wish) []

-- The answer to a request about the endpoints `eps`, of each of which `P` holds: no endpoint is asked for;
-- the first of them that is enabled and has the name that is asked for, up to the case of the letters and
-- cosmetic characters, with the model that goes with it; or that name, when no enabled one has it.
pub data Sound (P : Endpoint → Type 0) (eps : List Endpoint) (wish : Wish) : Resolved → Type 0 where
  free : IsLeftToQuery eps wish → is_empty (query_name wish) ≡ true → Sound P eps wish unspecified
  hit :
      (name : Text) (ep : Endpoint) (override : Text)
      → Asks eps wish name override
      → P ep
      → is_asked name ep ≡ true
      → find_first (is_asked name) eps ≡ some ep
      → Sound P eps wish (specified ep override)
  missed :
      (name override : Text)
      → Asks eps wish name override
      → All (λ ep. is_asked name ep ≡ false) eps
      → Sound P eps wish (unknown name)

module _ (P : Endpoint → Type 0) (eps : List Endpoint) (h : All P eps) (wish : Wish) where
  found-Sound :
      (name : Text) (ep : Endpoint) (override : Text)
      → Asks eps wish name override
      → find_endpoint name eps ≡ some ep
      → Sound P eps wish (specified ep override)
  unfolding find_endpoint
  found-Sound name ep override asks e =
      hit name ep override asks (find_first-All P (is_asked name) eps h e)
        (find_first_sound (is_asked name) eps e) e

  resolve_name-Sound :
      (name override : Text)
      → Asks eps wish name override
      → Sound P eps wish (resolve_name name override eps)
  unfolding resolve_name
  resolve_name-Sound name override asks = elim (Option-cases (find_endpoint name eps)) [
    | inl e ↦
        rw (resolve_name, e)
          (missed name override asks
            ((find_first-none (is_asked name) eps).0 (unfold find_endpoint in e)))
    | inr (ep, e) ↦ rw (resolve_name, e) (found-Sound name ep override asks e)
  ]

  resolve_query-Sound : IsLeftToQuery eps wish → Sound P eps wish (resolve_query wish eps)
  unfolding resolve_query
  resolve_query-Sound left = elim (Bool-cases (is_empty (query_name wish))) [
    | inl e ↦ rw e (free left e)
    | inr e ↦ rw e (resolve_name-Sound (query_name wish) [] (by_query left e))
  ]

  -- The resolver's answer is sound: for endpoints of each of which `P` holds, it says that none is asked
  -- for when no part of the request names one; or gives the first enabled endpoint that has, up to case
  -- and cosmetic characters, the name that the request asks for, with the model that goes with that name;
  -- or reports that name when no enabled endpoint has it. A header comes before a model with "@", that
  -- before a model with "/", which counts only if its name is an endpoint's, and the query comes last.
  pub resolve-Sound : Sound P eps wish (resolve wish eps)
  unfolding resolve find_endpoint
  resolve-Sound = elim (Bool-cases (is_empty (header_name wish))) [
    | inr e ↦ rw e (resolve_name-Sound (header_name wish) [] (by_header e))
    | inl e ↦ elim (Bool-cases (has_at wish)) [
      | inl f ↦ rw (e, f) (resolve_name-Sound (model_name wish) (model_rest wish) (by_at e f))
      | inr f ↦ elim (Bool-cases (has_path wish)) [
        | inr g ↦
            rw (e, f, g)
              (resolve_query-Sound
                (record { no_header = e; no_at = f; no_match = λ t. absurd (cc (t, g)) }))
        | inl g ↦ elim (Option-cases (find_endpoint (model_name wish) eps)) [
          | inl k ↦
              rw (e, f, g, k)
                (resolve_query-Sound
                  (record { no_header = e; no_at = f; no_match = λ _. unfold find_endpoint in k }))
          | inr (ep, k) ↦
              rw (e, f, g, k)
                (found-Sound (model_name wish) ep (model_rest wish)
                  (by_path e f g (λ n. absurd (cc (n, k)))) k)
        ]
      ]
    ]
  ]
