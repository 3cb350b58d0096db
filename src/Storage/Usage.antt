-- ===== src/Storage/Usage.antt =====
-- internal/storage/credential_usage.go and rate_limits.go: the counters of a credential and its
-- rate-limit row.
use osante_ai_proxy.Base.{
  ℕ, ◌+◌, Option, none, some, Text, lookup, insert, nat_eq, ◌==◌, if◌then◌else◌,
}
use osante_ai_proxy.Truncate.{truncate_err_msg}
use osante_ai_proxy.Storage.Pool.{
  Db, CredentialUsage, CredentialRateLimits, update_where, has_id, succeeded, null_string,
}

-- INSERT … ON CONFLICT DO UPDATE, on the row that is there.
unfoldable pub add_usage : CredentialUsage → Option CredentialUsage → CredentialUsage
add_usage new none = new
add_usage new (some old) = record {
  endpoint_name = new.endpoint_name;
  requests = old.requests + new.requests;
  errors = old.errors + new.errors;
  input_tokens = old.input_tokens + new.input_tokens;
  output_tokens = old.output_tokens + new.output_tokens;
  updated_at = new.updated_at;
}

-- `UpsertCredentialUsage`
unfoldable pub upsert_usage : ℕ → CredentialUsage → Db → Db
upsert_usage id delta db =
    if id == 0
    then db
    else record db { usage = insert id (add_usage delta (lookup id db.usage)) db.usage }

-- `RecordCredentialSuccess`: both statements of the transaction.
unfoldable pub record_success : ℕ → Text → ℕ → ℕ → ℕ → ℕ → Db → Db
record_success id endpoint_name input_tokens output_tokens now clock db =
    let delta : CredentialUsage = record {
      endpoint_name = endpoint_name;
      requests = 1;
      errors = 0;
      input_tokens = input_tokens;
      output_tokens = output_tokens;
      updated_at = now;
    } in
    if id == 0
    then db
    else update_where (has_id id) (succeeded now clock) (upsert_usage id delta db)

-- `UpsertCredentialRateLimits`, for a credential id above 0. `payload` is the JSON of the snapshot,
-- if there is one; without it the stored snapshot stays.
unfoldable pub upsert_rate_limits : ℕ → Option Text → Text → Text → ℕ → Db → Db
upsert_rate_limits id payload status err_msg updated_at db =
    let row : CredentialRateLimits = record {
      snapshot_json = payload;
      last_status = status;
      last_error = null_string (truncate_err_msg err_msg);
      updated_at = updated_at;
    } in
    let kept : CredentialRateLimits = elim (lookup id db.rate_limits) [
      | none ↦ row
      | some old ↦ record row { snapshot_json = old.snapshot_json }
    ] in
    record db {
      rate_limits = insert id (elim payload [ none ↦ kept | some p ↦ row ]) db.rate_limits;
    }
