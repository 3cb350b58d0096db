-- ===== src/Proxy/Stats.antt =====
-- The statistics (internal/proxy/stats.go, stats_storage.go) and their table, `daily_stats`, with
-- RecordDailyStat and GetTotalStats of internal/storage/sqlite.go. Counters are not bounded.
use osante_ai_proxy.Base.{
  ℕ, ◌+◌, Bool, true, false, Option, none, some, List, [], ◌∷◌, Text, same, ◌&&◌, Table, lookup,
  insert, text_eq, if◌then◌else◌,
}

-- `StatsData`
pub record Counts : Type 0 where
  pub requests : ℕ
  pub errors : ℕ
  pub input_tokens : ℕ
  pub output_tokens : ℕ

abbrev pub no_counts : Counts
no_counts = record { requests = 0; errors = 0; input_tokens = 0; output_tokens = 0 }

infix 60 ◌⊕◌
abbrev pub ◌⊕◌ : Counts → Counts → Counts
a ⊕ b = record {
  requests = a.requests + b.requests;
  errors = a.errors + b.errors;
  input_tokens = a.input_tokens + b.input_tokens;
  output_tokens = a.output_tokens + b.output_tokens;
}

-- `StatRecord`, and a row of `daily_stats`
pub record StatRecord : Type 0 where
  pub endpoint_name : Text
  pub date : Text
  pub device_id : Text
  pub counts : Counts

unfoldable pub same_key : StatRecord → StatRecord → Bool
unfolding same
same_key a b =
    same a.endpoint_name b.endpoint_name && (same a.date b.date && same a.device_id b.device_id)

-- `RecordDailyStat`, when the statement succeeds.
unfoldable pub record_daily_stat : StatRecord → List StatRecord → List StatRecord
unfolding same_key
record_daily_stat stat [] = stat ∷ []
record_daily_stat stat (row ∷ rows) =
    if same_key row stat
    then record row { counts = row.counts ⊕ stat.counts } ∷ rows
    else row ∷ record_daily_stat stat rows

-- `renameEndpointReferences` on `daily_stats`: the rows of the old name are added under the new one, then
-- removed.
unfoldable pub renamed_rows : Text → Text → List StatRecord → List StatRecord
unfolding same
renamed_rows old new [] = []
renamed_rows old new (row ∷ rows) =
    let rest = renamed_rows old new rows in
    if same row.endpoint_name old then record row { endpoint_name = new } ∷ rest else rest

unfoldable pub record_rows : List StatRecord → List StatRecord → List StatRecord
unfolding record_daily_stat
record_rows [] rows = rows
record_rows (stat ∷ stats) rows = record_rows stats (record_daily_stat stat rows)

unfoldable pub delete_stats : Text → List StatRecord → List StatRecord
unfolding same
delete_stats name [] = []
delete_stats name (row ∷ rows) =
    let rest = delete_stats name rows in if same row.endpoint_name name then rest else row ∷ rest

unfoldable pub rename_stats : Text → Text → List StatRecord → List StatRecord
unfolding renamed_rows record_rows delete_stats
rename_stats old new rows = delete_stats old (record_rows (renamed_rows old new rows) rows)

abbrev pub or_none : Option Counts → Counts
or_none none = no_counts
or_none (some c) = c

-- `GROUP BY endpoint_name` with the sums.
unfoldable pub by_endpoint : List StatRecord → Table Text Counts
unfolding lookup insert
by_endpoint [] = []
by_endpoint (row ∷ rows) =
    let groups = by_endpoint rows in
    insert row.endpoint_name (or_none (lookup row.endpoint_name groups) ⊕ row.counts) groups

unfoldable pub total_requests : Table Text Counts → ℕ
total_requests [] = 0
total_requests ((name, c) ∷ groups) = total_requests groups + c.requests

-- `GetStats` by way of `GetTotalStats`: the total and the counters of each endpoint. When the query fails
-- there are none.
unfoldable pub get_stats : Bool → List StatRecord → ℕ × Table Text Counts
unfolding by_endpoint total_requests
get_stats true rows = (0, [])
get_stats false rows = (total_requests (by_endpoint rows), by_endpoint rows)

-- `RecordError`
unfoldable pub error_record : Text → Text → Text → StatRecord
error_record device name date = record {
  endpoint_name = name;
  date = date;
  device_id = device;
  counts = record no_counts { errors = 1 };
}

-- `RecordSuccess`
unfoldable pub success_record : Text → Text → Text → ℕ → ℕ → StatRecord
success_record device name date input output = record {
  endpoint_name = name;
  date = date;
  device_id = device;
  counts = record { requests = 1; errors = 0; input_tokens = input; output_tokens = output };
}

-- The calls of the recorder, with the endpoint, the date and the tokens, and whether the statement fails,
-- which is only logged.
pub data StatCall : Type 0 where
  record_error : Bool → Text → Text → StatCall
  record_success : Bool → Text → Text → ℕ → ℕ → StatCall

unfoldable pub perform : Text → StatCall → List StatRecord → List StatRecord
unfolding error_record success_record record_daily_stat
perform device (record_error fails name date) rows =
    if fails then rows else record_daily_stat (error_record device name date) rows
perform device (record_success fails name date input output) rows =
    if fails then rows else record_daily_stat (success_record device name date input output) rows
