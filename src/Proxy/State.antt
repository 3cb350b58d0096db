-- ===== src/Proxy/State.antt =====
-- The state that a request works on: the server's (internal/proxy/proxy.go, its tables), the
-- request's own (proxyRequestContext), and what was written to the client. Logs and the trace are
-- left out.
use osante_ai_proxy.Base.{ℕ, Bool, Option, List, ◌∷◌, Text, ◌==◌, if◌then◌else◌}
use osante_ai_proxy.Storage.Pool.{Db, CredentialUsage, mark_failure}
use osante_ai_proxy.Storage.Usage.{upsert_usage, record_success}
use osante_ai_proxy.Proxy.Endpoint.{Endpoint}
use osante_ai_proxy.Proxy.Runtime.{States, record_error, clear_error}
use osante_ai_proxy.Proxy.Rotation.{Active, mark_active, mark_inactive}

-- `StatRecord`, as `RecordError` and `RecordSuccess` fill it.
pub data Stat : Type 0 where
  error_stat : Text → Stat
  success_stat : Text → ℕ → ℕ → Stat

-- What is sent to the client: a JSON error of the proxy's own, the body of an upstream's error, the
-- final status that an upstream gave, or an answer (converted, streamed or by GitLab Duo).
pub data Output : Type 0 where
  proxy_error : ℕ → Text → Text → Output
  replayed : ℕ → Text → Output
  forwarded : ℕ → Text → Output
  converted streamed aggregated duo_answer : Output

pub record World : Type 0 where
  pub endpoints : List Endpoint
  pub current_index : ℕ
  pub active : Active
  pub states : States
  pub db : Db
  pub stats : List Stat
  -- `proxyRequestContext`
  pub specified : Option Endpoint
  pub stream_requested : Bool
  pub refreshed_ids : List ℕ
  pub last_status : ℕ
  pub last_body : Option Text
  -- The responses so far, newest first.
  pub written : List Output

unfoldable pub write : Output → World → World
write o w = record w { written = o ∷ w.written }

unfoldable pub begin_request : Text → World → World
begin_request name w = record w { active = mark_active name w.active }

unfoldable pub end_request : Text → World → World
end_request name w = record w { active = mark_inactive name w.active }

-- `p.stats.RecordError`
unfoldable pub count_error : Text → World → World
count_error name w = record w { stats = error_stat name ∷ w.stats }

-- `p.recordEndpointError`
unfoldable pub note_error : Text → Text → ℕ → World → World
note_error name msg now w = record w { states = record_error name msg now w.states }

-- `p.markCredentialFailure`
unfoldable pub blame : ℕ → ℕ → Text → ℕ → World → World
blame id status msg now w =
    if id == 0 then w else record w { db = mark_failure id status msg now now w.db }

-- `recordCredentialUsage`
unfoldable pub count_usage : ℕ → Text → ℕ → ℕ → ℕ → ℕ → ℕ → World → World
count_usage id name requests errors input_tokens output_tokens now w =
    let delta : CredentialUsage = record {
      endpoint_name = name;
      requests = requests;
      errors = errors;
      input_tokens = input_tokens;
      output_tokens = output_tokens;
      updated_at = now;
    } in
    record w { db = upsert_usage id delta w.db }

-- `p.recordCredentialUsage(id, name, 0, 1, 0, 0)`
unfoldable pub count_usage_error : ℕ → Text → ℕ → World → World
count_usage_error id name now w = count_usage id name 0 1 0 0 now w

-- The end of `finishSuccessfulAttempt`, with the token counts that it reports.
unfoldable pub finish : ℕ → Text → ℕ → ℕ → ℕ → World → World
finish id name input_tokens output_tokens now w = end_request name (record w {
  stats = success_stat name input_tokens output_tokens ∷ w.stats;
  db = record_success id name input_tokens output_tokens now now w.db;
  states = clear_error name w.states;
})
