-- ===== src/Proxy/Once.antt =====
-- A whole request: the counters of the requests in flight, and the number of its responses.
use osante_ai_proxy.Base.{
  ℕ, zero, suc, ◌+◌, ◌<◌, ◌≤◌, ◌≡◌, refl, ◌∙◌, ap, true, Option, none, some, List, [], ◌∷◌, Text,
  Bool-cases, ◌⊎◌, text, leb, ◌==◌, Option-cases, inl, inr, ◌≢◌, arith, is_empty,
}
use osante_ai_proxy.Proxy.Endpoint.{Endpoint}
use osante_ai_proxy.Proxy.Rotation.{in_flight, mark_inactive}
use osante_ai_proxy.Proxy.InFlight.{mark_inactive-mark_active}
use osante_ai_proxy.Proxy.State.{World, Output, begin_request, end_request, write}
use osante_ai_proxy.Proxy.Attempt.{
  Env, Attempt, AttemptResult, Step, done, cancelled, retry_next_endpoint, retry_same_endpoint,
}
use osante_ai_proxy.Proxy.Response.{run_attempt, exchange}
use osante_ai_proxy.Proxy.ErrorBody.{Fields}
use osante_ai_proxy.Proxy.Loop.{
  retry_loop, handle_request, next_endpoint, write_last_error, write_exhausted, after_failure,
  max_retries, count_attempt,
}
use osante_ai_proxy.Proxy.Kept.{Kept, itself}
use osante_ai_proxy.Proxy.Handled.{Sent, nothing, response, abandoned, Handled, next≢done}
use osante_ai_proxy.Proxy.Prepared.{Prepared, prepare-Prepared}
use osante_ai_proxy.Proxy.Exchange.{exchange-Handled}

Sent-from :
    (env : Env) (v w : World) (r : Step) → w.written ≡ v.written → Sent env w r → Sent env v r
Sent-from env v w r e (nothing n s) = nothing n (s ∙ e)
Sent-from env v w r e (response o d s) = response o d (s ∙ ap (λ os. o ∷ os) e)
Sent-from env v w r e (abandoned c d s) = abandoned c d (s ∙ e)

after_preparation :
    (env : Env) (ep : Endpoint) (v : World) (r : Option Attempt × World)
    → Prepared ep v r
    → Handled env ep.name v (elim r.0 [
      | none ↦ (retry_next_endpoint, end_request ep.name r.1)
      | some a ↦ exchange env a r.1
    ])
unfolding end_request
after_preparation env ep v (none, w) p = record {
  active_after = ap (mark_inactive ep.name) p.kept.active_kept;
  sent_after = nothing next≢done p.kept.written_kept;
}
after_preparation env ep v (some a, w) p =
    let h = exchange-Handled env a w in
    record {
      active_after =
          h.active_after
          ∙ ap (λ (e : Endpoint). mark_inactive e.name w.active) (p.at_endpoint a refl)
          ∙ ap (mark_inactive ep.name) p.kept.active_kept;
      sent_after = Sent-from env v w _ p.kept.written_kept h.sent_after;
    }

run_attempt-Handled :
    (env : Env) (ep : Endpoint) (w : World)
    → Handled env ep.name (begin_request ep.name w) (run_attempt env ep w)
unfolding run_attempt
run_attempt-Handled env ep w =
    let v = begin_request ep.name w in after_preparation env ep v _ (prepare-Prepared env ep v)

-- An attempt, however it ends, leaves every endpoint's counter of requests in flight as it was.
pub in_flight-run_attempt :
    (env : Env) (ep : Endpoint) (w : World) (other : Text)
    → in_flight other (run_attempt env ep w).1.active ≡ in_flight other w.active
unfolding begin_request
in_flight-run_attempt env ep w other =
    ap (in_flight other) (run_attempt-Handled env ep w).active_after
    ∙ mark_inactive-mark_active ep.name other w.active

run_attempt-Sent : (env : Env) (ep : Endpoint) (w : World) → Sent env w (run_attempt env ep w)
unfolding begin_request
run_attempt-Sent env ep w = Sent-from env w _ _ refl (run_attempt-Handled env ep w).sent_after

-- What a request of at most `bound` rounds, in the environments `envs`, sends to its client: one
-- response, or none because the client had gone before a round, or because the context of a GitLab Duo
-- request ended that does not wait for another one's answer.
pub data Replied (envs : ℕ → Env) (bound : ℕ) (w w' : World) : Type 0 where
  once : (o : Output) → w'.written ≡ o ∷ w.written → Replied envs bound w w'
  gone :
      (i : ℕ)
      → i < bound
      → (envs i).client_gone ≡ true
      → w'.written ≡ w.written
      → Replied envs bound w w'
  lost :
      (i : ℕ)
      → i < bound
      → (envs i).duo ≡ cancelled
      → w'.written ≡ w.written
      → Replied envs bound w w'

record Over (envs : ℕ → Env) (bound : ℕ) (w w' : World) : Type 0 where
  balanced : (other : Text) → in_flight other w'.active ≡ in_flight other w.active
  replied : Replied envs bound w w'

after :
    {envs : ℕ → Env} {bound : ℕ} {v w w' : World}
    → ((other : Text) → in_flight other w.active ≡ in_flight other v.active)
    → w.written ≡ v.written
    → Over envs bound w w'
    → Over envs bound v w'
after b e over = record {
  balanced = λ other. over.balanced other ∙ b other;
  replied = from e over.replied;
}
  where
    from :
        {envs : ℕ → Env} {bound : ℕ} {v w w' : World}
        → w.written ≡ v.written
        → Replied envs bound w w'
        → Replied envs bound v w'
    from e (once o s) = once o (s ∙ ap (λ os. o ∷ os) e)
    from e (gone i l c s) = gone i l c (s ∙ e)
    from e (lost i l c s) = lost i l c (s ∙ e)

next_endpoint-Kept : (now : ℕ) (w : World) → Kept w (next_endpoint now w).1
unfolding next_endpoint
next_endpoint-Kept now w = elim (Option-cases w.specified) [
  | inl e ↦ simp (next_endpoint, e) (record { active_kept = refl; written_kept = refl })
  | inr (ep, e) ↦ simp (next_endpoint, e) (record { active_kept = refl; written_kept = refl })
]

after_failure-Kept : (attempts : ℕ) (w : World) → Kept w (after_failure attempts w).1
unfolding after_failure
after_failure-Kept attempts w = elim (Option-cases w.specified) [
  | inl e ↦ elim (Bool-cases (leb 2 attempts)) [
    | inl t ↦ simp (after_failure, e, t) (record { active_kept = refl; written_kept = refl })
    | inr t ↦ simp (after_failure, e, t) (itself w)
  ]
  | inr (ep, e) ↦ simp (after_failure, e) (itself w)
]

write_last_error-Over :
    (unmarshal : Text → Option Fields) (fallback : Text) (envs : ℕ → Env) (bound : ℕ) (w : World)
    → Over envs bound w (write_last_error unmarshal fallback w)
unfolding write_last_error write
write_last_error-Over unmarshal fallback envs bound w = elim (Option-cases w.last_body) [
  | inl e ↦ simp (write_last_error, e) (record { balanced = λ other. refl; replied = once _ refl })
  | inr (body, e) ↦ elim (Bool-cases (w.last_status == 0)) [
    | inl t ↦
        simp (write_last_error, e, t) (record { balanced = λ other. refl; replied = once _ refl })
    | inr t ↦
        simp (write_last_error, e, t) (record { balanced = λ other. refl; replied = once _ refl })
  ]
]

module _ (unmarshal : Text → Option Fields) (envs : ℕ → Env) (bound : ℕ) where
  finished-Over :
      (retry : ℕ) (w : World) (r : Step)
      → retry < bound
      → ((other : Text) → in_flight other r.1.active ≡ in_flight other w.active)
      → Sent (envs retry) w r
      → r.0 ≡ done
      → Over envs bound w r.1
  finished-Over retry w r l b (nothing n s) e = absurd (n e)
  finished-Over retry w r l b (response o d s) e = record { balanced = b; replied = once o s }
  finished-Over retry w r l b (abandoned c d s) e = record {
    balanced = b;
    replied = lost retry l c s;
  }

  unsent : (env : Env) (w : World) (r : Step) → Sent env w r → r.0 ≢ done → r.1.written ≡ w.written
  unsent env w r (nothing n s) e = s
  unsent env w r (response o d s) e = absurd (e d)
  unsent env w r (abandoned c d s) e = absurd (e d)

  result-cases :
      (r : AttemptResult) → (r ≡ done) ⊎ ((r ≡ retry_same_endpoint) ⊎ (r ≡ retry_next_endpoint))
  result-cases done = inl refl
  result-cases retry_same_endpoint = inr (inl refl)
  result-cases retry_next_endpoint = inr (inr refl)

  after_attempt :
      (env : Env) (w w' : World)
      → (let picked = next_endpoint env.now w in
          let tried = run_attempt env picked.0 picked.1 in
          (tried.0 ≢ done)
          → Kept tried.1 w'
          → (v : World) → Over envs bound w' v
          → Over envs bound w v)
  after_attempt env w w' n k v =
      let picked = next_endpoint env.now w in
      let k' = next_endpoint-Kept env.now w in
      after
        (λ other.
          ap (in_flight other) k.active_kept
          ∙ in_flight-run_attempt env picked.0 picked.1 other
          ∙ ap (in_flight other) k'.active_kept)
        (k.written_kept
          ∙ unsent env picked.1 _ (run_attempt-Sent env picked.0 picked.1) n
          ∙ k'.written_kept)

  retry_loop-Over :
      (left retry attempts : ℕ) (last : Text) (w : World)
      → left + retry ≤ bound
      → Over envs bound w (retry_loop unmarshal envs left retry attempts last w)
  unfolding retry_loop write_exhausted
  retry_loop-Over zero retry attempts last w l =
      write_last_error-Over unmarshal (text "All endpoints failed") envs bound w
  retry_loop-Over (suc left) retry attempts last w l =
      let env = envs retry in
      let picked = next_endpoint env.now w in
      let tried = run_attempt env picked.0 picked.1 in
      let k = next_endpoint-Kept env.now w in
      elim (Bool-cases env.client_gone) [
        | inl e ↦
            simp (retry_loop, e)
              (record { balanced = λ other. refl; replied = gone retry (omega arith) e refl })
        | inr e ↦ elim (Bool-cases (is_empty picked.0.name)) [
          | inl t ↦
              simp (retry_loop, e, t)
                (after (λ other. ap (in_flight other) k.active_kept) k.written_kept
                  (write_last_error-Over unmarshal (text "No enabled endpoints available") envs
                    bound picked.1))
          | inr t ↦ elim (result-cases tried.0) [
            | inl d ↦
                simp (retry_loop, e, t, d)
                  (after (λ other. ap (in_flight other) k.active_kept) k.written_kept
                    (finished-Over retry picked.1 tried (omega arith)
                      (in_flight-run_attempt env picked.0 picked.1)
                      (run_attempt-Sent env picked.0 picked.1) d))
            | inr (inl d) ↦
                simp (retry_loop, e, t, d)
                  (after_attempt env w tried.1 (λ f. absurd (cc)) (itself tried.1) _
                    (retry_loop-Over left (retry + 1) 0 picked.0.name tried.1 (omega arith)))
            | inr (inr d) ↦
                simp (retry_loop, e, t, d)
                  (let counted =
                      after_failure (count_attempt last picked.0.name attempts) tried.1 in
                    after_attempt env w counted.1 (λ f. absurd (cc)) (after_failure-Kept _ tried.1)
                      _
                      (retry_loop-Over left (retry + 1) counted.0 picked.0.name counted.1
                        (omega arith)))
          ]
        ]
      ]

-- A whole request leaves every endpoint's counter of requests in flight as it was, whatever the
-- upstreams, the clients and the tokens do.
pub in_flight-handle_request :
    (unmarshal : Text → Option Fields) (envs : ℕ → Env) (eps : List Endpoint) (w : World)
    (other : Text)
    → in_flight other (handle_request unmarshal envs eps w).active ≡ in_flight other w.active
unfolding handle_request
in_flight-handle_request unmarshal envs eps w other =
    let bound = max_retries (envs 0).now w.db eps in
    (retry_loop-Over unmarshal envs bound bound 0 0 [] w (omega arith)).balanced other

-- A request sends one response, and no more, to its client, unless the client had gone before one of
-- its rounds or the context of its GitLab Duo request ended: then it sends none.
pub handle_request-Replied :
    (unmarshal : Text → Option Fields) (envs : ℕ → Env) (eps : List Endpoint) (w : World)
    → Replied envs (max_retries (envs 0).now w.db eps) w (handle_request unmarshal envs eps w)
unfolding handle_request
handle_request-Replied unmarshal envs eps w =
    let bound = max_retries (envs 0).now w.db eps in
    (retry_loop-Over unmarshal envs bound bound 0 0 [] w (omega arith)).replied
