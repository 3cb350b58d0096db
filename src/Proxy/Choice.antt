-- ===== src/Proxy/Choice.antt =====
-- The endpoint of an attempt, the number of attempts, and the error that ends them.
use osante_ai_proxy.Base.{
  ℕ, ◌+◌, ◌*◌, ◌-◌, ◌≤◌, ◌≡◌, refl, ◌∙◌, sym, ap, true, false, List, [], ◌∷◌, ◌++◌, Bool-cases,
  Option-cases, inl, inr, arith, is_empty, length, count_if,
}
use osante_ai_proxy.Storage.Credential.{is_usable}
use osante_ai_proxy.Storage.Pool.{Db, pool_stats, of_endpoint}
use osante_ai_proxy.Storage.Totals.{pool_stats_partition}
use osante_ai_proxy.Storage.Status.{usable_of}
use osante_ai_proxy.Proxy.Endpoint.{Endpoint, no_endpoint, enabled_endpoints}
use osante_ai_proxy.Proxy.Runtime.{is_cooling, check_cooldown, States}
use osante_ai_proxy.Proxy.Cooling.{check_cooldown-answer}
use osante_ai_proxy.Proxy.Rotation.{request_endpoint}
use osante_ai_proxy.Proxy.Selection.{Served, served, exhausted, request_endpoint-Served}
use osante_ai_proxy.Proxy.Classify.{is_token_pool, normalize_auth_mode}
use osante_ai_proxy.Proxy.State.{World}
use osante_ai_proxy.Proxy.Loop.{next_endpoint, max_retries, extra_retries}

no_endpoint-blank : is_empty no_endpoint.name ≡ true
unfolding is_empty
no_endpoint-blank = refl

Served-rested :
    (eps : List Endpoint) (now index : ℕ) (m : States) (r : Endpoint × ℕ)
    → Served eps now index m r
    → is_empty r.0.name ≡ false
    → is_cooling r.0.name now m ≡ false
Served-rested eps now index m r (served k l c before e) n =
    ap (λ (x : Endpoint × ℕ). is_cooling x.0.name now m) e ∙ c
Served-rested eps now index m r (exhausted all e) n =
    absurd (cc (n, ap (λ (x : Endpoint × ℕ). is_empty x.0.name) e, no_endpoint-blank))

-- An endpoint that is tried is not in cooldown, whether the request names it or it comes up in the
-- rotation.
pub next_endpoint-rested :
    (now : ℕ) (w : World)
    → is_empty (next_endpoint now w).0.name ≡ false
    → is_cooling (next_endpoint now w).0.name now w.states ≡ false
unfolding next_endpoint
next_endpoint-rested now w = elim (Option-cases w.specified) [
  | inl e ↦
      simp (next_endpoint, e)
        (let r = request_endpoint w.endpoints now w.current_index w.states in
          Served-rested (enabled_endpoints w.endpoints) now w.current_index w.states (r.0, r.1)
            (request_endpoint-Served w.endpoints now w.current_index w.states))
  | inr (ep, e) ↦
      simp (next_endpoint, e)
        (let checked = check_cooldown ep.name now w.states in
          elim (Bool-cases checked.0) [
            | inl t ↦ simp t (λ n. absurd (cc (n, no_endpoint-blank)))
            | inr t ↦ simp t (λ _. sym (check_cooldown-answer ep.name now w.states) ∙ t)
          ])
]

extra_retries-append :
    (now : ℕ) (db : Db) (before after : List Endpoint)
    → extra_retries now db (before ++ after)
      ≡ extra_retries now db before + extra_retries now db after
unfolding extra_retries
extra_retries-append now db [] after = omega arith
extra_retries-append now db (ep ∷ eps) after = omega (arith, extra_retries-append now db eps after)

-- The rounds of a request are at least two for each endpoint and, beyond these, for any endpoint
-- with a pool, one for every usable token but one.
pub max_retries-tokens :
    (now : ℕ) (db : Db) (before after : List Endpoint) (ep : Endpoint)
    → is_token_pool (normalize_auth_mode ep.auth_mode) ≡ true
    → let eps = before ++ ep ∷ after in
      (2 * length eps + count_if (λ c. is_usable c now) (of_endpoint ep.name db)
        ≤ max_retries now db eps + 1)
unfolding max_retries extra_retries
max_retries-tokens now db before after ep pool =
    let eps = before ++ ep ∷ after in
    let usable = pool_stats_partition ep.name now db in
    let here : extra_retries now db (ep ∷ after)
        ≡ usable_of (pool_stats ep.name now now db) - 1 + extra_retries now db after =
      rw (extra_retries, pool) in
    omega (arith, extra_retries-append now db before (ep ∷ after), here, usable.2)
