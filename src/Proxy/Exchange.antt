-- ===== src/Proxy/Exchange.antt =====
-- The attempts that come to a reply, to their end.
use osante_ai_proxy.Base.{
  ℕ, ◌≡◌, refl, ◌∙◌, ap, none, some, ◌∷◌, Text, text, Bool-cases, Option-cases, inl, inr, ◌==◌, ltb,
  same, ◌&&◌, not,
}
use osante_ai_proxy.Proxy.Attempt.{
  Attempt, Env, Response, done, retry_same_endpoint, retry_next_endpoint, cancelled, wait_cancelled,
  send_error,
}
use osante_ai_proxy.Truncate.{truncate_string}
use osante_ai_proxy.Proxy.Rotation.{mark_inactive}
use osante_ai_proxy.Proxy.Classify.{}
use osante_ai_proxy.Proxy.State.{World, Output, write, end_request, blame, count_usage, finish}
use osante_ai_proxy.Proxy.Attempt.{}
use osante_ai_proxy.Proxy.Response.{}
use osante_ai_proxy.Base.{◌||◌}
use osante_ai_proxy.Proxy.Classify.{
  is_auth_failure, aggregates_streaming, is_streaming_response, should_retry,
}
use osante_ai_proxy.Proxy.State.{
  proxy_error, forwarded, converted, streamed, aggregated, duo_answer,
}
use osante_ai_proxy.Proxy.Attempt.{
  answered, no_credit, failed, body_text, refresh_after, forward_final, final_status, Duo, Upstream,
  broken, replied,
}
use osante_ai_proxy.Proxy.Response.{
  capture_limits, succeed, handle_response, aggregated_success, plain_success, duo_request,
  exchange,
}
use osante_ai_proxy.Proxy.Kept.{
  Kept, chain, itself, count_error-Kept, blame-Kept, count_usage_error-Kept, penalise-Kept,
  blamed-Kept, refresh_after-Kept, capture_limits-Kept, capture_events-Kept,
}
use osante_ai_proxy.Proxy.Handled.{
  response, abandoned, Handled, same≢done, next≢done, retry-Handled, send_error-Handled,
  payment_required-Handled, retryable_status-Handled,
}

module _ (env : Env) (a : Attempt) where
  abbrev name_of : Text
  name_of = a.endpoint.name

  answer-Handled :
      (w w' : World) (o : Output)
      → Kept w w'
      → Handled env name_of w (done, end_request name_of (write o w'))
  unfolding end_request write
  answer-Handled w w' o k = record {
    active_after = ap (mark_inactive name_of) k.active_kept;
    sent_after = response o refl (ap (λ os. o ∷ os) k.written_kept);
  }

  forward_final-Handled :
      (resp : Response) (status : ℕ) (w w' : World)
      → Kept w w'
      → Handled env name_of w (forward_final env a resp status w')
  unfolding forward_final end_request write
  forward_final-Handled resp status w w' k = elim (Bool-cases (resp.status == 200)) [
    | inl e ↦ rw e (answer-Handled w w' (forwarded resp.status (body_text resp)) k)
    | inr e ↦ rw e (
        let k' =
          chain (blame-Kept (end_request name_of w') a.credential_id status _ env.now)
            (count_usage_error-Kept _ a.credential_id name_of env.now) in
        record {
          active_after = k'.active_kept ∙ ap (mark_inactive name_of) k.active_kept;
          sent_after = response (forwarded resp.status (body_text resp)) refl (
              ap (λ os. forwarded resp.status (body_text resp) ∷ os)
                (k'.written_kept ∙ k.written_kept));
        })
  ]

  final_status-Handled :
      (resp : Response) (w : World) → Handled env name_of w (final_status env a resp w)
  unfolding final_status
  final_status-Handled resp w =
      elim (Bool-cases ((resp.status == 401 || resp.status == 403) && ltb 0 a.credential_id)) [
        | inr e ↦ rw e (forward_final-Handled resp resp.status w w (itself w))
        | inl e ↦
            elim (Bool-cases (is_auth_failure resp.status (truncate_string (body_text resp) 500))) [
              | inr t ↦ rw (e, t) (forward_final-Handled resp 0 w _ (count_error-Kept w name_of))
              | inl t ↦ elim (Bool-cases (refresh_after env a w).0) [
                | inl r ↦
                    rw (e, t, r)
                      (retry-Handled env a w _ retry_same_endpoint same≢done
                        (refresh_after-Kept env a w))
                | inr r ↦
                    rw (e, t, r)
                      (retry-Handled env a w _ retry_same_endpoint same≢done
                        (blamed-Kept env a w _ resp.status _ (refresh_after-Kept env a w)))
              ]
            ]
      ]

  succeed-Handled :
      (resp : Response) (o : Output) (w w' : World)
      → Kept w w'
      → Handled env name_of w (succeed env a resp o w')
  unfolding succeed finish end_request write
  succeed-Handled resp o w w' k = record {
    active_after = ap (mark_inactive name_of) k.active_kept;
    sent_after = response o refl (ap (λ os. o ∷ os) k.written_kept);
  }

  aggregated_success-Handled :
      (resp : Response) (w w' : World)
      → Kept w w'
      → Handled env name_of w (aggregated_success env a resp w')
  unfolding aggregated_success
  aggregated_success-Handled resp w w' k =
      let k' = chain k (capture_events-Kept env a resp.event_limits w') in
      elim (Option-cases resp.failure) [
        | inl f ↦ simp (aggregated_success, f) (succeed-Handled resp aggregated w _ k')
        | inr (msg, f) ↦
            simp (aggregated_success, f)
              (retry-Handled env a w _ retry_next_endpoint next≢done
                (blamed-Kept env a w _ 0 msg k'))
      ]

  plain_success-Handled :
      (resp : Response) (w w' : World)
      → Kept w w'
      → Handled env name_of w (plain_success env a resp w')
  unfolding plain_success
  plain_success-Handled resp w w' k = elim (Option-cases resp.failure) [
    | inl f ↦ simp (plain_success, f) (succeed-Handled resp converted w _ k)
    | inr (msg, f) ↦
        simp (plain_success, f)
          (retry-Handled env a w _ retry_next_endpoint next≢done
            (penalise-Kept env a w _ 0 msg _ k))
  ]

  handle_response-Handled :
      (resp : Response) (w : World) → Handled env name_of w (handle_response env a resp w)
  unfolding handle_response
  handle_response-Handled resp w =
      let captured = capture_limits env a resp.limits w in
      let k = capture_limits-Kept env a resp.limits w in
      let k' = chain k (capture_events-Kept env a resp.event_limits captured) in
      elim (Bool-cases (resp.status == 200)) [
        | inl e ↦
            elim (Bool-cases (
              not captured.stream_requested
              && aggregates_streaming a.endpoint a.transformer_name)) [
                | inl t ↦ rw (e, t) (aggregated_success-Handled resp w _ k)
                | inr t ↦
                    elim (Bool-cases (
                      is_streaming_response resp.content_type captured.stream_requested a.endpoint
                        a.transformer_name)) [
                          | inl s ↦ rw (e, t, s) (succeed-Handled resp streamed w _ k')
                          | inr s ↦ rw (e, t, s) (plain_success-Handled resp w _ k)
                        ]
              ]
        | inr e ↦ elim (Bool-cases (resp.status == 402)) [
          | inl t ↦ rw (e, t) (payment_required-Handled env a resp w)
          | inr t ↦ elim (Bool-cases (should_retry resp.status)) [
            | inl s ↦ rw (e, t, s) (retryable_status-Handled env a resp w)
            | inr s ↦ rw (e, t, s) (final_status-Handled resp w)
          ]
        ]
      ]

  duo_request-Handled :
      (w : World) → Handled env name_of w (done, duo_request env a (end_request name_of w))
  unfolding duo_request end_request write blame count_usage
  duo_request-Handled w = sent env.duo refl
    where
      sent :
          (d : Duo)
          → env.duo ≡ d
          → Handled env name_of w
              (done, duo_request (record env { duo = d }) a (end_request name_of w))
      sent (answered none) e = record {
        active_after = refl;
        sent_after = response duo_answer refl refl;
      }
      sent (answered (some (i, o))) e = record {
        active_after = refl;
        sent_after = response duo_answer refl refl;
      }
      sent no_credit e = elim (Bool-cases (a.credential_id == 0)) [
        | inl z ↦ rw z (record { active_after = refl; sent_after = response _ refl refl })
        | inr z ↦ rw z (record { active_after = refl; sent_after = response _ refl refl })
      ]
      sent (failed msg) e = record {
        active_after = refl;
        sent_after = response (proxy_error 502 (text "api_error") msg) refl refl;
      }
      sent cancelled e = record { active_after = refl; sent_after = abandoned e refl refl }
      sent wait_cancelled e = record { active_after = refl; sent_after = response _ refl refl }

  upstream-Handled :
      (w : World) (u : Upstream)
      → Handled env name_of w (elim u [
        | broken msg ↦ send_error env a msg w
        | replied resp ↦ handle_response env a resp w
      ])
  upstream-Handled w (broken msg) = send_error-Handled env a msg w
  upstream-Handled w (replied resp) = handle_response-Handled resp w

  -- Every way in which an attempt ends takes its request off the counter once, and sends one response
  -- or leaves that to another attempt.
  pub exchange-Handled : (w : World) → Handled env name_of w (exchange env a w)
  unfolding exchange
  exchange-Handled w = elim (Bool-cases (same a.transformer_name (text "cc_gitlabduo"))) [
    | inl e ↦ rw e (duo_request-Handled w)
    | inr e ↦ rw e (upstream-Handled w env.upstream)
  ]
