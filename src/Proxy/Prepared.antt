-- ===== src/Proxy/Prepared.antt =====
-- The preparation of an attempt.
use osante_ai_proxy.Base.{
  ◌≡◌, refl, ◌∙◌, sym, ap, Option, none, some, Text, Bool-cases, Option-cases, inl, inr, is_empty,
}
use osante_ai_proxy.Base.{trim_space}
use osante_ai_proxy.Storage.Credential.{Credential}
use osante_ai_proxy.Storage.Pool.{claim, earliest_cooldown}
use osante_ai_proxy.Proxy.Classify.{AuthMode, is_token_pool, normalize_auth_mode}
use osante_ai_proxy.Proxy.Refresh.{should_refresh, refresh_credential}
use osante_ai_proxy.Proxy.Attempt.{
  Preparation, no_transformer, not_transformed, not_built, ready, attempt_with,
}
use osante_ai_proxy.Proxy.Endpoint.{Endpoint}
use osante_ai_proxy.Proxy.State.{World, count_error}
use osante_ai_proxy.Proxy.Attempt.{Env, Attempt, resolve_auth, pool_exhausted, use_token}
use osante_ai_proxy.Proxy.Response.{prepare}
use osante_ai_proxy.Proxy.Kept.{Kept, chain, itself, count_error-Kept}

-- A preparation starts or ends no request and sends nothing; what it prepares is at its endpoint.
pub record Prepared (ep : Endpoint) (w : World) (r : Option Attempt × World) : Type 0 where
  pub kept : Kept w r.1
  pub at_endpoint : (a : Attempt) → r.0 ≡ some a → a.endpoint ≡ ep

module _ (env : Env) (ep : Endpoint) where
  none-Prepared : (w w' : World) → Kept w w' → Prepared ep w (none, w')
  none-Prepared w w' k = record { kept = k; at_endpoint = λ a e. absurd (cc) }

  some-Prepared :
      (w w' : World) (a : Attempt) → a.endpoint ≡ ep → Kept w w' → Prepared ep w (some a, w')
  some-Prepared w w' a at k = record {
    kept = k;
    at_endpoint =
        λ b e. ap (λ (o : Option Attempt). elim o [ none ↦ ep | some x ↦ x.endpoint ]) (sym e) ∙ at;
  }

  pool_exhausted-Kept : (name : Text) (w : World) → Kept w (pool_exhausted env name w)
  unfolding pool_exhausted
  pool_exhausted-Kept name w = elim (Option-cases (earliest_cooldown name env.now env.now w.db)) [
    | inl e ↦ rw (pool_exhausted, e) (count_error-Kept w name)
    | inr (until, e) ↦
        rw (pool_exhausted, e)
          (chain (record { active_kept = refl; written_kept = refl }) (count_error-Kept _ name))
  ]

  use_token-Prepared :
      (mode : AuthMode) (c : Credential) (w w' : World)
      → Kept w w'
      → Prepared ep w (use_token env ep mode c w')
  unfolding use_token attempt_with
  use_token-Prepared mode c w w' k = elim (Bool-cases (should_refresh c env.now)) [
    | inr e ↦ rw e (some-Prepared w w' _ refl k)
    | inl e ↦ elim (Option-cases (refresh_credential env.preflight env.now c w'.db).0) [
      | inl f ↦
          rw (e, f)
            (some-Prepared w _ _ refl
              (chain k (record { active_kept = refl; written_kept = refl })))
      | inr (c', f) ↦
          rw (e, f)
            (some-Prepared w _ _ refl
              (chain k (record { active_kept = refl; written_kept = refl })))
    ]
  ]

  resolve_auth-Prepared : (w : World) → Prepared ep w (resolve_auth env ep w)
  unfolding resolve_auth
  resolve_auth-Prepared w =
      let claimed = claim ep.name env.now env.now w.db in
      let k : Kept w (record w { db = claimed.1 }) = record {
        active_kept = refl;
        written_kept = refl;
      } in
      let out = none-Prepared w _ (chain k (pool_exhausted-Kept ep.name _)) in
      elim (Bool-cases (is_token_pool (normalize_auth_mode ep.auth_mode))) [
        | inl e ↦ elim (Option-cases claimed.0) [
          | inl f ↦ rw (e, f) out
          | inr (c, f) ↦ elim (Bool-cases (is_empty (trim_space c.access_token))) [
            | inl t ↦ rw (e, f, t) out
            | inr t ↦ rw (e, f, t) (use_token-Prepared _ c w _ k)
          ]
        ]
        | inr e ↦ elim (Bool-cases (is_empty (trim_space ep.api_key))) [
          | inl t ↦ rw (e, t) (none-Prepared w _ (count_error-Kept w ep.name))
          | inr t ↦ rw (e, t) (some-Prepared w w _ refl (itself w))
        ]
      ]

  after_preparation :
      (w : World) (r : Option Attempt × World) (p : Preparation)
      → Prepared ep w r
      → Prepared ep w (elim r.0 [
        | none ↦ (none, r.1)
        | some a ↦ elim p [
          | no_transformer ↦ (none, count_error ep.name r.1)
          | not_transformed ↦ (none, count_error ep.name r.1)
          | not_built ↦ (none, count_error ep.name r.1)
          | ready name ↦ (some (record a { transformer_name = name }), r.1)
        ]
      ])
  after_preparation w (none, w') p h = h
  after_preparation w (some a, w') no_transformer h =
      none-Prepared w _ (chain h.kept (count_error-Kept w' ep.name))
  after_preparation w (some a, w') not_transformed h =
      none-Prepared w _ (chain h.kept (count_error-Kept w' ep.name))
  after_preparation w (some a, w') not_built h =
      none-Prepared w _ (chain h.kept (count_error-Kept w' ep.name))
  after_preparation w (some a, w') (ready name) h =
      some-Prepared w w' _ (h.at_endpoint a refl) h.kept

  pub prepare-Prepared : (w : World) → Prepared ep w (prepare env ep w)
  unfolding prepare
  prepare-Prepared w =
      after_preparation w (resolve_auth env ep w) env.preparation (resolve_auth-Prepared w)
