-- ===== src/Proxy/Kept.antt =====
-- The steps of an attempt that start or end no request and send nothing.
use osante_ai_proxy.Base.{
  ℕ, ◌≡◌, refl, ◌∙◌, Option, none, some, List, [], ◌∷◌, Text, Bool-cases, Option-cases, inl, inr,
  ◌==◌, ltb, not,
}
use osante_ai_proxy.Proxy.Attempt.{Attempt, Env, penalise}
use osante_ai_proxy.Proxy.Classify.{}
use osante_ai_proxy.Proxy.State.{
  World, count_error, note_error, blame, count_usage, count_usage_error,
}
use osante_ai_proxy.Proxy.Attempt.{}
use osante_ai_proxy.Proxy.Response.{}
use osante_ai_proxy.Base.{is_empty, trim_space, ◌||◌}
use osante_ai_proxy.Proxy.Classify.{is_codex_provider, is_codex_pool, normalize_auth_mode}
use osante_ai_proxy.Proxy.Refresh.{refresh_credential}
use osante_ai_proxy.Proxy.Attempt.{refresh_after, mem_id}
use osante_ai_proxy.Proxy.Response.{capture_limits, capture_events}

-- No request starts or ends, and nothing is sent.
pub record Kept (w w' : World) : Type 0 where
  pub active_kept : w'.active ≡ w.active
  pub written_kept : w'.written ≡ w.written

module _ (w : World) where
  pub count_error-Kept : (name : Text) → Kept w (count_error name w)
  unfolding count_error
  count_error-Kept name = record { active_kept = refl; written_kept = refl }

  pub note_error-Kept : (name msg : Text) (now : ℕ) → Kept w (note_error name msg now w)
  unfolding note_error
  note_error-Kept name msg now = record { active_kept = refl; written_kept = refl }

  pub blame-Kept : (id status : ℕ) (msg : Text) (now : ℕ) → Kept w (blame id status msg now w)
  unfolding blame
  blame-Kept id status msg now = elim (Bool-cases (id == 0)) [
    | inl e ↦ rw e (record { active_kept = refl; written_kept = refl })
    | inr e ↦ rw e (record { active_kept = refl; written_kept = refl })
  ]

  pub count_usage_error-Kept :
      (id : ℕ) (name : Text) (now : ℕ) → Kept w (count_usage_error id name now w)
  unfolding count_usage_error count_usage
  count_usage_error-Kept id name now = record { active_kept = refl; written_kept = refl }

pub itself : (w : World) → Kept w w
itself w = record { active_kept = refl; written_kept = refl }

pub chain : {u v w : World} → Kept u v → Kept v w → Kept u w
chain p q = record {
  active_kept = q.active_kept ∙ p.active_kept;
  written_kept = q.written_kept ∙ p.written_kept;
}

module _ (env : Env) (a : Attempt) where
  abbrev name_of : Text
  name_of = a.endpoint.name

  pub penalise-Kept :
      (w w' : World) (status : ℕ) (blamed noted : Text)
      → Kept w w'
      → Kept w (penalise env a status blamed noted w')
  unfolding penalise
  penalise-Kept w w' status blamed noted k = chain k (
      chain (blame-Kept w' a.credential_id status blamed env.now) (
        chain (count_usage_error-Kept _ a.credential_id name_of env.now)
          (chain (note_error-Kept _ name_of noted env.now) (count_error-Kept _ name_of))))

  pub blamed-Kept :
      (w w' : World) (status : ℕ) (msg : Text)
      → Kept w w'
      → Kept w (
          count_error name_of (
            count_usage_error a.credential_id name_of env.now
              (blame a.credential_id status msg env.now w')))
  blamed-Kept w w' status msg k = chain k (
      chain (blame-Kept w' a.credential_id status msg env.now) (
        chain (count_usage_error-Kept _ a.credential_id name_of env.now)
          (count_error-Kept _ name_of)))

  pub refresh_after-Kept : (w : World) → Kept w (refresh_after env a w).1
  unfolding refresh_after
  refresh_after-Kept w = elim (Option-cases a.selected) [
    | inl e ↦ rw e (itself w)
    | inr (c, e) ↦
        elim (Bool-cases (
          not (is_codex_provider c.provider_type)
          || is_empty (trim_space c.refresh_token)
          || mem_id a.credential_id w.refreshed_ids)) [
            | inl t ↦ rw (e, t) (itself w)
            | inr t ↦ elim (Option-cases (refresh_credential env.retry_token env.now c w.db).0) [
              | inl r ↦ rw (e, t, r) (record { active_kept = refl; written_kept = refl })
              | inr (c', r) ↦ rw (e, t, r) (record { active_kept = refl; written_kept = refl })
            ]
          ]
  ]

  pub capture_limits-Kept :
      (payload : Option Text) (w : World) → Kept w (capture_limits env a payload w)
  unfolding capture_limits
  capture_limits-Kept none w = itself w
  capture_limits-Kept (some payload) w = elim (Bool-cases (ltb 0 a.credential_id)) [
    | inl e ↦ elim (Bool-cases (is_codex_pool (normalize_auth_mode a.endpoint.auth_mode))) [
      | inl t ↦ rw (e, t) (record { active_kept = refl; written_kept = refl })
      | inr t ↦ rw (e, t) (itself w)
    ]
    | inr e ↦ rw e (itself w)
  ]

  pub capture_events-Kept :
      (payloads : List Text) (w : World) → Kept w (capture_events env a payloads w)
  unfolding capture_events
  capture_events-Kept [] w = itself w
  capture_events-Kept (payload ∷ payloads) w =
      chain (capture_limits-Kept (some payload) w) (capture_events-Kept payloads _)
