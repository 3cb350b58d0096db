-- ===== src/Proxy/Penalties.antt =====
-- Who pays for a failed attempt: the token, the endpoint or nobody.
use osante_ai_proxy.Base.{
  map, not, ℕ, ◌≡◌, refl, ◌≢◌, ◌∙◌, ap, true, false, Option, none, some, ◌∷◌, Text, Bool-cases, inl,
  inr, arith, ◌==◌, ltb, same, ◌&&◌, ◌||◌, if◌then◌else◌, find_first_sound,
}
use osante_ai_proxy.Truncate.{truncate_string}
use osante_ai_proxy.Storage.Credential.{derive_status, Status, Credential, invalid}
use osante_ai_proxy.Storage.Pool.{
  Db, CredentialUsage, mark_failure, mark_usage_limit, failed, update_where, has_id,
}
use osante_ai_proxy.Storage.Usage.{upsert_usage}
use osante_ai_proxy.Storage.Keys.{row, row-map}
use osante_ai_proxy.Storage.Cooldowns.{mark_failure_keeps_statuses}
use osante_ai_proxy.Proxy.Runtime.{is_cooling}
use osante_ai_proxy.Proxy.Cooling.{set_cooldown-view, record_error-view}
use osante_ai_proxy.Proxy.Classify.{is_token_pool, is_usage_limit_error, is_transient, should_retry}
use osante_ai_proxy.Proxy.State.{
  World, error_stat, end_request, count_error, note_error, blame, count_usage, count_usage_error,
}
use osante_ai_proxy.Proxy.Attempt.{
  reset_at, Env, Attempt, Response, retry_same_endpoint, retry_next_endpoint, body_text, penalise,
  payment_required, retryable_status, send_error,
}
use osante_ai_proxy.Proxy.Response.{handle_response}

upsert_usage-credentials :
    (id : ℕ) (delta : CredentialUsage) (db : Db)
    → (upsert_usage id delta db).credentials ≡ db.credentials
unfolding upsert_usage
upsert_usage-credentials id delta db = ground arith

penalise-credentials :
    (env : Env) (a : Attempt) (status : ℕ) (blamed noted : Text) (w : World)
    → a.credential_id ≢ 0
    → (penalise env a status blamed noted w).db.credentials
      ≡ (mark_failure a.credential_id status blamed env.now env.now w.db).credentials
unfolding penalise count_error note_error count_usage_error count_usage blame
penalise-credentials env a status blamed noted w n = elim (Bool-cases (a.credential_id == 0)) [
  | inl e ↦ absurd (ground (arith, e, n))
  | inr e ↦ rw e (upsert_usage-credentials a.credential_id _ _)
]

blame-stats :
    (id status : ℕ) (msg : Text) (now : ℕ) (w : World) → (blame id status msg now w).stats ≡ w.stats
unfolding blame
blame-stats id status msg now w = ground arith

module _ (env : Env) (a : Attempt) where
  penalise-states :
      (status : ℕ) (blamed noted other : Text) (now : ℕ) (w : World)
      → is_cooling other now
          (end_request a.endpoint.name (penalise env a status blamed noted w)).states
        ≡ is_cooling other now w.states
  unfolding penalise count_error note_error count_usage_error count_usage end_request blame
  penalise-states status blamed noted other now w = elim (Bool-cases (a.credential_id == 0)) [
    | inl e ↦ rw e (record_error-view a.endpoint.name other noted env.now now w.states)
    | inr e ↦ rw e (record_error-view a.endpoint.name other noted env.now now w.states)
  ]

-- On a reply that says that a usage limit is reached: with a token of a pool, the token cools down
-- until the reset, no endpoint's cooldown changes, and the same endpoint is tried again; without
-- one, the endpoint cools down until the reset, no other endpoint's cooldown changes, and the next
-- one is tried.
pub usage_limit_cools_one :
    (env : Env) (a : Attempt) (resp : Response) (w : World) (other : Text) (now : ℕ)
    → is_usage_limit_error resp.status (body_text resp) ≡ true
    → let r = payment_required env a resp w in
      let msg = truncate_string (body_text resp) 200 in
      let pooled = is_token_pool a.auth_mode && ltb 0 a.credential_id in
      (pooled ≡ true
        → (r.0 ≡ retry_same_endpoint)
          × (r.1.db.credentials
              ≡ (mark_usage_limit a.credential_id msg
                  (reset_at env resp)
                  env.now
                  env.now
                  w.db).credentials)
          × (is_cooling other now r.1.states ≡ is_cooling other now w.states))
      × (pooled ≡ false
          → (r.0 ≡ retry_next_endpoint)
            × (is_cooling other now r.1.states ≡ (
                if same a.endpoint.name other
                then ltb now (reset_at env resp)
                else is_cooling other now w.states)))
unfolding payment_required end_request count_error count_usage_error count_usage note_error
usage_limit_cools_one env a resp w other now limited = (
  λ e.
      simp (payment_required, limited, e)
        (
          refl,
          upsert_usage-credentials a.credential_id _ _,
          record_error-view a.endpoint.name other _ env.now now w.states,
        ),
  λ e.
      simp (payment_required, limited, e)
        (
          refl,
          penalise-states env a resp.status _ _ other now _
              ∙ set_cooldown-view a.endpoint.name other _ (reset_at env resp) now w.states,
        ),
)

-- The failure of status 0 that goes with a transport error leaves every token's derived status.
penalise-statuses :
    (env : Env) (a : Attempt) (blamed noted : Text) (t : ℕ) (w : World)
    → map (λ c. derive_status c t) (penalise env a 0 blamed noted w).db.credentials
      ≡ map (λ c. derive_status c t) w.db.credentials
unfolding penalise count_error note_error count_usage_error count_usage blame
penalise-statuses env a blamed noted t w = elim (Bool-cases (a.credential_id == 0)) [
  | inl e ↦ rw e (ap (map (λ c. derive_status c t)) (upsert_usage-credentials a.credential_id _ _))
  | inr e ↦ rw e (
      ap (map (λ c. derive_status c t)) (upsert_usage-credentials a.credential_id _ _)
      ∙ mark_failure_keeps_statuses a.credential_id 0 blamed env.now env.now t w.db (ground arith)
          (ground arith) (ground arith))
]

penalise-stats :
    (env : Env) (a : Attempt) (blamed noted : Text) (w : World)
    → (penalise env a 0 blamed noted w).stats ≡ error_stat a.endpoint.name ∷ w.stats
unfolding penalise count_error note_error count_usage_error count_usage
penalise-stats env a blamed noted w =
    ap (λ ss. error_stat a.endpoint.name ∷ ss) (blame-stats a.credential_id 0 blamed env.now w)

-- When an upstream gives no reply, the treatment of the error, set against the state in which the request
-- was sent: no token's derived status and no endpoint's cooldown is another one, at any time; if the client
-- had hung up or the error is transient, no table and no statistics change at all, otherwise one error of the
-- endpoint is counted; the same endpoint is tried again if the error is transient and the client is there,
-- and the next one otherwise.
pub broken_request_charges :
    (env : Env) (a : Attempt) (msg other : Text) (t : ℕ) (w : World)
    → let r = send_error env a msg w in
      let spared = env.hung_up || is_transient msg in
      (map (λ c. derive_status c t) r.1.db.credentials
        ≡ map (λ c. derive_status c t) w.db.credentials)
      × (is_cooling other t r.1.states ≡ is_cooling other t w.states)
      × (r.1.stats ≡ (if spared then w.stats else error_stat a.endpoint.name ∷ w.stats))
      × (spared ≡ true → (r.1.db ≡ w.db) × (r.1.states ≡ w.states))
      × (r.0 ≡ (
          if not env.hung_up && is_transient msg then retry_same_endpoint else retry_next_endpoint))
unfolding send_error end_request penalise
broken_request_charges env a msg other t w = elim (Bool-cases env.hung_up) [
  | inl e ↦ rw (send_error, e) (refl, refl, refl, λ _. (refl, refl), refl)
  | inr e ↦ elim (Bool-cases (is_transient msg)) [
    | inl f ↦ rw (send_error, e, f) (refl, refl, refl, λ _. (refl, refl), refl)
    | inr f ↦
        rw (send_error, e, f)
          (
            penalise-statuses env a msg (truncate_string msg 200) t (end_request a.endpoint.name w),
            penalise-states env a 0 msg (truncate_string msg 200) other t
                (end_request a.endpoint.name w),
            penalise-stats env a msg (truncate_string msg 200) (end_request a.endpoint.name w),
            λ c. absurd (cc),
            refl,
          )
  ]
]

handle_response-retryable :
    (env : Env) (a : Attempt) (resp : Response) (w : World)
    → should_retry resp.status ≡ true
    → resp.status ≢ 402
    → handle_response env a resp w ≡ retryable_status env a resp w
unfolding handle_response should_retry
handle_response-retryable env a resp w e n = ground arith

module _ (id status : ℕ) (msg : Text) (now clock : ℕ) where
  abbrev marked : Credential → Credential
  marked d = if has_id id d then failed status msg now clock d else d

  marked-id : (d : Credential) → (marked d).id ≡ d.id
  unfolding failed
  marked-id d = ground arith

  row-mark_failure :
      (db : Db) (c : Credential)
      → row id db.credentials ≡ some c
      → row id (mark_failure id status msg now clock db).credentials
        ≡ some (failed status msg now clock c)
  unfolding mark_failure update_where has_id
  row-mark_failure db c e =
      let hit : has_id id c ≡ true = find_first_sound (λ d. d.id == id) db.credentials e in
      row-map marked marked-id id db.credentials
      ∙ ap (λ (o : Option Credential). elim o [ none ↦ none | some d ↦ some (marked d) ]) e
      ∙ rw hit

failed-forbidden :
    (status : ℕ) (msg : Text) (now clock : ℕ) (c : Credential)
    → status ≡ 403
    → (failed status msg now clock c).status ≡ invalid
unfolding failed
failed-forbidden status msg now clock c e = ground (arith, e)

abbrev pub status_at : ℕ → World → Option Status
status_at id w = elim (row id w.db.credentials) [ none ↦ none | some c ↦ some c.status ]

-- A 403 makes the token of a pool invalid and the next endpoint is tried, whatever the reply's
-- body is.
pub forbidden_makes_invalid :
    (env : Env) (a : Attempt) (resp : Response) (w : World) (c : Credential)
    → resp.status ≡ 403
    → a.credential_id ≢ 0
    → row a.credential_id w.db.credentials ≡ some c
    → let r = handle_response env a resp w in
      (r.0 ≡ retry_next_endpoint) × (status_at a.credential_id r.1 ≡ some invalid)
unfolding should_retry retryable_status end_request
forbidden_makes_invalid env a resp w c e n r =
    let retried = handle_response-retryable env a resp w (ground (arith, e)) (ground (arith, e)) in
    rw retried (
      refl,
      ap (λ cs. elim (row a.credential_id cs) [ none ↦ none | some d ↦ some d.status ])
            (penalise-credentials env a resp.status _ _ w n)
          ∙ ap (λ (o : Option Credential). elim o [ none ↦ none | some d ↦ some d.status ])
              (row-mark_failure a.credential_id resp.status _ env.now env.now w.db c r)
          ∙ ap some (failed-forbidden resp.status _ env.now env.now c e),
    )
