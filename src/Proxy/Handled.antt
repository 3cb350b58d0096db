-- ===== src/Proxy/Handled.antt =====
-- What an attempt leaves in flight, and what it sends to the client.
use osante_ai_proxy.Base.{◌≡◌, refl, ap, ◌∷◌, Text, Bool-cases, inl, inr, ◌≢◌, ltb, ◌&&◌}
use osante_ai_proxy.Proxy.Attempt.{
  Attempt, AttemptResult, Step, Env, Response, done, retry_same_endpoint, retry_next_endpoint,
  cancelled, send_error, payment_required, retryable_status,
}
use osante_ai_proxy.Truncate.{truncate_string}
use osante_ai_proxy.Proxy.Rotation.{mark_inactive}
use osante_ai_proxy.Proxy.Classify.{}
use osante_ai_proxy.Proxy.State.{World, Output, end_request}
use osante_ai_proxy.Proxy.Attempt.{}
use osante_ai_proxy.Proxy.Response.{}
use osante_ai_proxy.Proxy.Classify.{is_transient, is_usage_limit_error, is_token_pool}
use osante_ai_proxy.Proxy.Attempt.{body_text}
use osante_ai_proxy.Proxy.Kept.{
  Kept, chain, itself, count_error-Kept, note_error-Kept, count_usage_error-Kept, penalise-Kept,
}

-- What one attempt sends: nothing if another one is to follow, otherwise one response, unless the
-- context of a GitLab Duo request ended that does not wait for another one's answer.
pub data Sent (env : Env) (w : World) (r : Step) : Type 0 where
  nothing : r.0 ≢ done → r.1.written ≡ w.written → Sent env w r
  response : (o : Output) → r.0 ≡ done → r.1.written ≡ o ∷ w.written → Sent env w r
  abandoned : env.duo ≡ cancelled → r.0 ≡ done → r.1.written ≡ w.written → Sent env w r

-- An attempt at endpoint `name` that is over.
pub record Handled (env : Env) (name : Text) (w : World) (r : Step) : Type 0 where
  pub active_after : r.1.active ≡ mark_inactive name w.active
  pub sent_after : Sent env w r

pub same≢done : retry_same_endpoint ≢ done
same≢done = λ e. absurd (cc)

pub next≢done : retry_next_endpoint ≢ done
next≢done = λ e. absurd (cc)

module _ (env : Env) (a : Attempt) where
  abbrev name_of : Text
  name_of = a.endpoint.name

  pub retry-Handled :
      (w w' : World) (res : AttemptResult)
      → res ≢ done
      → Kept w w'
      → Handled env name_of w (res, end_request name_of w')
  unfolding end_request
  retry-Handled w w' res n k = record {
    active_after = ap (mark_inactive name_of) k.active_kept;
    sent_after = nothing n k.written_kept;
  }

  -- Ending the request first comes to the same.
  ended-Handled :
      (w w' : World)
      → Kept (end_request name_of w) w'
      → Handled env name_of w (retry_next_endpoint, w')
  unfolding end_request
  ended-Handled w w' k = record {
    active_after = k.active_kept;
    sent_after = nothing next≢done k.written_kept;
  }

  pub send_error-Handled : (msg : Text) (w : World) → Handled env name_of w (send_error env a msg w)
  unfolding send_error
  send_error-Handled msg w = elim (Bool-cases env.hung_up) [
    | inl e ↦ simp e (retry-Handled w w retry_next_endpoint next≢done (itself w))
    | inr e ↦ elim (Bool-cases (is_transient msg)) [
      | inl t ↦ simp (e, t) (retry-Handled w w retry_same_endpoint same≢done (itself w))
      | inr t ↦
          simp (e, t)
            (ended-Handled w _ (
              penalise-Kept env a _ (end_request name_of w) 0 msg (truncate_string msg 200)
                (itself _)))
    ]
  ]

  pub payment_required-Handled :
      (resp : Response) (w : World) → Handled env name_of w (payment_required env a resp w)
  unfolding payment_required
  payment_required-Handled resp w =
      elim (Bool-cases (is_usage_limit_error resp.status (body_text resp))) [
        | inl e ↦ elim (Bool-cases (is_token_pool a.auth_mode && ltb 0 a.credential_id)) [
          | inl t ↦
              rw (e, t)
                (retry-Handled w _ retry_same_endpoint same≢done (
                  chain (record { active_kept = refl; written_kept = refl })
                    (chain (note_error-Kept _ name_of _ env.now) (
                      chain (count_usage_error-Kept _ a.credential_id name_of env.now)
                        (count_error-Kept _ name_of)))))
          | inr t ↦
              rw (e, t)
                (retry-Handled w _ retry_next_endpoint next≢done (
                  penalise-Kept env a w _ resp.status _ _
                    (record { active_kept = refl; written_kept = refl })))
        ]
        | inr e ↦ rw e (
            retry-Handled w _ retry_next_endpoint next≢done (
              penalise-Kept env a w _ resp.status _ _
                (record { active_kept = refl; written_kept = refl })))
      ]

  pub retryable_status-Handled :
      (resp : Response) (w : World) → Handled env name_of w (retryable_status env a resp w)
  unfolding retryable_status
  retryable_status-Handled resp w =
      retry-Handled w _ retry_next_endpoint next≢done
        (penalise-Kept env a w w resp.status _ _ (itself w))
