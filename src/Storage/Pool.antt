-- ===== src/Storage/Pool.antt =====
-- internal/storage/credentials.go, credential_usage.go, rate_limits.go: the operations on the
-- credential tables. Each runs under the store's lock, so it is one function from the tables to the
-- tables. A statement is taken to succeed; `clock` is the time that the engine and `time.Now` show
-- during the call (CURRENT_TIMESTAMP), and `now` is the caller's argument.
use osante_ai_proxy.Base.{
  nat_eq, ℕ, suc, ◌+◌, Bool, true, false, Option, none, some, List, [], ◌∷◌, ◌++◌, map, Text, Table,
  erase, ltb, ◌==◌, ◌&&◌, ◌||◌, if◌then◌else◌, not, is_empty, same, text, trim_space, find_first,
  keep_if, is_some,
}
use osante_ai_proxy.Truncate.{truncate_err_msg}
use osante_ai_proxy.Storage.Order.{Term, asc, desc, sort}
use osante_ai_proxy.Storage.Credential.{
  Status, active, invalid, cooldown, other, Credential, derive_status, is_usable, default_cooldown,
  TokenPoolStats, no_stats, classify, in_cooldown,
}

-- A row of `credential_usage`.
pub record CredentialUsage : Type 0 where
  pub endpoint_name : Text
  pub requests : ℕ
  pub errors : ℕ
  pub input_tokens : ℕ
  pub output_tokens : ℕ
  pub updated_at : ℕ

-- A row of `credential_rate_limits`. The snapshot is JSON text.
pub record CredentialRateLimits : Type 0 where
  pub snapshot_json : Option Text
  pub last_status : Text
  pub last_error : Text
  pub updated_at : ℕ

-- The tables. `next_id` is the AUTOINCREMENT counter.
pub record Db : Type 0 where
  pub credentials : List Credential
  pub usage : Table ℕ CredentialUsage
  pub rate_limits : Table ℕ CredentialRateLimits
  pub next_id : ℕ

pub data Error : Type 0 where
  id_required not_found : Error

pub data Result (A : Type 0) : Type 0 where
  ok : A → Result A
  err : Error → Result A

-- `toNullString`, read back: blank text is stored as NULL, and NULL reads as the empty string.
unfoldable pub null_string : Text → Text
null_string s = if is_empty (trim_space s) then [] else s

unfoldable pub default_status : Status → Status
default_status (other t) = if is_empty t then active else other t
default_status s = s

unfoldable pub default_provider : Text → Text
default_provider t = if is_empty t then text "codex" else t

-- The columns that INSERT and UPDATE write.
unfoldable pub stored : Credential → Credential
unfolding null_string default_status default_provider
stored c = record c {
  provider_type = default_provider c.provider_type;
  account_id = null_string c.account_id;
  email = null_string c.email;
  refresh_token = null_string c.refresh_token;
  id_token = null_string c.id_token;
  status = default_status c.status;
  last_error = null_string c.last_error;
  remark = null_string c.remark;
}

-- `UPDATE endpoint_credentials SET … WHERE test`
unfoldable pub update_where : (Credential → Bool) → (Credential → Credential) → Db → Db
update_where test set db = record db {
  credentials = map (λ (c : Credential). if test c then set c else c) db.credentials;
}

unfoldable pub has_id : ℕ → Credential → Bool
has_id id c = c.id == id

unfoldable pub is_row : Text → ℕ → Credential → Bool
is_row endpoint_name id c = same c.endpoint_name endpoint_name && c.id == id

-- `SaveEndpointCredential`: the new row's id is returned.
unfoldable pub save : Credential → ℕ → Db → Db × ℕ
save c clock db = (
  record db {
    credentials =
        db.credentials
        ++ record (stored c) { id = db.next_id; created_at = clock; updated_at = clock } ∷ [];
    next_id = suc db.next_id;
  },
  db.next_id,
)

-- `UpdateEndpointCredential`
unfoldable pub update : Credential → ℕ → Db → Result Db
update c clock db =
    if c.id == 0
    then err id_required
    else if is_some (find_first (is_row c.endpoint_name c.id) db.credentials)
    then ok (
        update_where (is_row c.endpoint_name c.id)
          (λ old. record (stored c) { created_at = old.created_at; updated_at = clock }) db)
    else err not_found

-- `DeleteEndpointCredential`: the rate-limit row goes first, whether the credential exists or not.
unfoldable pub delete : Text → ℕ → Db → Result (Unit {0}) × Db
delete endpoint_name id db =
    let db' = record db { rate_limits = erase id db.rate_limits } in
    if is_some (find_first (is_row endpoint_name id) db.credentials)
    then (
      ok tt,
      record db' { credentials = keep_if (λ c. not (is_row endpoint_name id c)) db.credentials },
    )
    else (err not_found, db')

-- `SetEndpointCredentialEnabled`
unfoldable pub set_enabled : Text → ℕ → Bool → ℕ → Db → Db
set_enabled endpoint_name id enabled clock =
    update_where (is_row endpoint_name id) (λ c. record c { enabled = enabled; updated_at = clock })

unfoldable pub succeeded : ℕ → ℕ → Credential → Credential
succeeded now clock c = record c {
  status = active;
  failure_count = 0;
  cooldown_until = none;
  last_error = [];
  last_checked_at = some now;
  last_used_at = some now;
  updated_at = clock;
}

-- `MarkCredentialSuccess`
unfoldable pub mark_success : ℕ → ℕ → ℕ → Db → Db
mark_success id now clock = update_where (has_id id) (succeeded now clock)

unfoldable pub failed : ℕ → Text → ℕ → ℕ → Credential → Credential
failed status_code err_msg now clock c =
    let counted : Credential = record c {
      failure_count = c.failure_count + 1;
      last_error = truncate_err_msg err_msg;
      last_checked_at = some now;
      updated_at = clock;
    } in
    if status_code == 401 || status_code == 403
    then record counted { status = invalid }
    else if status_code == 429
    then record counted { status = cooldown; cooldown_until = some (now + default_cooldown) }
    else counted

-- `MarkCredentialFailure`
unfoldable pub mark_failure : ℕ → ℕ → Text → ℕ → ℕ → Db → Db
mark_failure id status_code err_msg now clock =
    update_where (has_id id) (failed status_code err_msg now clock)

unfoldable pub limited : Text → ℕ → ℕ → ℕ → Credential → Credential
limited err_msg until now clock c = record c {
  status = cooldown;
  failure_count = c.failure_count + 1;
  cooldown_until = some until;
  last_error = truncate_err_msg err_msg;
  last_checked_at = some now;
  updated_at = clock;
}

-- `MarkCredentialUsageLimit`
unfoldable pub mark_usage_limit : ℕ → Text → ℕ → ℕ → ℕ → Db → Db
mark_usage_limit id err_msg until now clock =
    update_where (has_id id) (limited err_msg until now clock)

abbrev pub bool_rank : Bool → ℕ
bool_rank true = 1
bool_rank false = 0

-- NULL sorts before every instant.
abbrev pub null_rank : Option ℕ → ℕ
null_rank none = 0
null_rank (some t) = suc t

abbrev pub coalesce : Option ℕ → ℕ → ℕ
coalesce none d = d
coalesce (some t) d = t

-- The ORDER BY of `queryEndpointCredentials`.
abbrev pub pool_order : ℕ → List (Term Credential)
pool_order clock =
    desc (λ c. bool_rank c.enabled)
    ∷ desc (λ c. bool_rank (not (in_cooldown c.cooldown_until clock)))
    ∷ asc (λ c. null_rank c.cooldown_until)
    ∷ asc (λ c. c.failure_count)
    ∷ asc (λ c. coalesce c.last_used_at c.created_at)
    ∷ desc (λ c. c.updated_at)
    ∷ []

unfoldable pub of_endpoint : Text → Db → List Credential
of_endpoint name db = keep_if (λ c. same c.endpoint_name name) db.credentials

-- `queryEndpointCredentials`
unfoldable pub query : Text → ℕ → Db → List Credential
query name clock db =
    map (λ (c : Credential). record c { status = derive_status c clock })
      (sort (pool_order clock) (of_endpoint name db))

-- `GetUsableEndpointCredential`: the first usable row is claimed by a new `last_used_at`.
unfoldable pub claim : Text → ℕ → ℕ → Db → Option Credential × Db
claim name now clock db = elim (find_first (λ c. is_usable c now) (query name clock db)) [
  | none ↦ (none, db)
  | some c ↦ (
    some (record c { status = derive_status c now; last_used_at = some now }),
    update_where (has_id c.id) (λ r. record r { last_used_at = some now }) db,
  )
]

-- One round of the loop of `EarliestTokenCooldown`; `none` is the zero time.
unfoldable pub earlier : ℕ → Option ℕ → Credential → Option ℕ
unfolding in_cooldown
earlier now earliest c =
    let until = coalesce c.cooldown_until 0 in
    if not (c.enabled && in_cooldown c.cooldown_until now)
    then earliest
    else elim earliest [ none ↦ some until | some t ↦ if ltb until t then some until else some t ]

unfoldable pub earliest_in : ℕ → Option ℕ → List Credential → Option ℕ
unfolding earlier
earliest_in now earliest [] = earliest
earliest_in now earliest (c ∷ cs) = earliest_in now (earlier now earliest c) cs

-- `EarliestTokenCooldown`
unfoldable pub earliest_cooldown : Text → ℕ → ℕ → Db → Option ℕ
earliest_cooldown name now clock db = earliest_in now none (query name clock db)

unfoldable pub classify_all : ℕ → TokenPoolStats → List Credential → TokenPoolStats
unfolding classify
classify_all now s [] = s
classify_all now s (c ∷ cs) = classify_all now (classify s c now) cs

-- `GetTokenPoolStats`: the query derives the statuses at `clock`, and the loop again at `now`.
unfoldable pub pool_stats : Text → ℕ → ℕ → Db → TokenPoolStats
pool_stats name now clock db = classify_all now no_stats (query name clock db)
