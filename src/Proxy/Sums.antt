-- ===== src/Proxy/Sums.antt =====
-- That the statistics add up.
use osante_ai_proxy.Base.{
  ℕ, ◌+◌, ◌≡◌, refl, ap, false, List, [], ◌∷◌, Text, same, same_iff, &&_true, Table, lookup, insert,
  lookup-insert, text_eq, arith, Bool-cases, inl, inr, if◌then◌else◌,
}
use osante_ai_proxy.Proxy.Stats.{
  Counts, no_counts, ◌⊕◌, StatRecord, same_key, record_daily_stat, or_none, by_endpoint,
  total_requests, get_stats, error_record, success_record, StatCall, record_error, record_success,
  perform,
}

-- A sequence of calls on one device.
unfoldable pub perform_all : Text → List StatCall → List StatRecord → List StatRecord
unfolding perform
perform_all device [] rows = rows
perform_all device (c ∷ cs) rows = perform_all device cs (perform device c rows)

-- What a call counts for an endpoint.
unfoldable pub counted : Text → StatCall → Counts
unfolding same
counted name (record_error fails n date) =
    if fails then no_counts else if same n name then record no_counts { errors = 1 } else no_counts
counted name (record_success fails n date input output) =
    if fails
    then no_counts
    else if same n name
    then record { requests = 1; errors = 0; input_tokens = input; output_tokens = output }
    else no_counts

-- What a sequence of calls counts for an endpoint, and the successes that it counts in all.
unfoldable pub expected : Text → List StatCall → Counts
unfolding counted
expected name [] = no_counts
expected name (c ∷ cs) = counted name c ⊕ expected name cs

unfoldable pub successes : List StatCall → ℕ
successes [] = 0
successes (record_error fails n date ∷ cs) = successes cs
successes (record_success fails n date input output ∷ cs) = (if fails then 0 else 1) + successes cs

or_none-insert :
    (k j : Text) (v : Counts) (m : Table Text Counts)
    → or_none (lookup j (insert k v m)) ≡ (if same k j then v else or_none (lookup j m))
or_none-insert k j v m = elim (Bool-cases (same k j)) [
  | inl hit ↦ rw (lookup-insert k j v m, hit)
  | inr miss ↦ rw (lookup-insert k j v m, miss)
]

total_requests-insert :
    (name : Text) (c : Counts) (m : Table Text Counts)
    → total_requests (insert name (or_none (lookup name m) ⊕ c) m) ≡ total_requests m + c.requests
unfolding total_requests lookup insert
total_requests-insert name c [] = omega arith
total_requests-insert name c ((n, own) ∷ m) = elim (Bool-cases (same n name)) [
  | inl hit ↦ ground (arith, hit)
  | inr miss ↦ ground (arith, miss, total_requests-insert name c m)
]

-- The sum of one counter over the rows of an endpoint.
unfoldable pub row_sum : (Counts → ℕ) → Text → List StatRecord → ℕ
unfolding same
row_sum f name [] = 0
row_sum f name (row ∷ rows) =
    (if same row.endpoint_name name then f row.counts else 0) + row_sum f name rows

-- One of the four counters.
module _ (f : Counts → ℕ) (zero_law : f no_counts ≡ 0)
    (add_law : (a b : Counts) → f (a ⊕ b) ≡ f a + f b) where
  pub row_sum-record :
      (name : Text) (stat : StatRecord) (rows : List StatRecord)
      → row_sum f name (record_daily_stat stat rows)
        ≡ row_sum f name rows + (if same stat.endpoint_name name then f stat.counts else 0)
  unfolding row_sum record_daily_stat same_key
  row_sum-record name stat [] = omega arith
  row_sum-record name stat (row ∷ rows) = elim (Bool-cases (same_key row stat)) [
    | inl hit ↦
        let names : row.endpoint_name ≡ stat.endpoint_name =
          (same_iff row.endpoint_name stat.endpoint_name).0
            ((&&_true (same row.endpoint_name stat.endpoint_name) _ hit).0) in
        ground (arith, hit, ap (λ n. same n name) names, add_law row.counts stat.counts)
    | inr miss ↦ ground (arith, miss, row_sum-record name stat rows)
  ]

  pub group_sum :
      (name : Text) (rows : List StatRecord)
      → f (or_none (lookup name (by_endpoint rows))) ≡ row_sum f name rows
  unfolding row_sum by_endpoint lookup
  group_sum name [] = zero_law
  group_sum name (row ∷ rows) =
      let groups = by_endpoint rows in
      let own = or_none (lookup row.endpoint_name groups) in
      let found = ap f (or_none-insert row.endpoint_name name (own ⊕ row.counts) groups) in
      elim (Bool-cases (same row.endpoint_name name)) [
        | inl hit ↦
            let names : row.endpoint_name ≡ name = (same_iff row.endpoint_name name).0 hit in
            ground (
              arith,
              found,
              hit,
              add_law own row.counts,
              group_sum row.endpoint_name rows,
              ap (λ n. row_sum f n rows) names,
            )
        | inr miss ↦ ground (arith, found, miss, group_sum name rows)
      ]

  perform_sum :
      (device name : Text) (c : StatCall) (rows : List StatRecord)
      → row_sum f name (perform device c rows) ≡ row_sum f name rows + f (counted name c)
  unfolding perform counted error_record success_record
  perform_sum device name (record_error fails n date) rows =
      ground (arith, row_sum-record name (error_record device n date) rows, zero_law)
  perform_sum device name (record_success fails n date input output) rows =
      ground (arith, row_sum-record name (success_record device n date input output) rows, zero_law)

  perform_all_sum :
      (device name : Text) (cs : List StatCall) (rows : List StatRecord)
      → row_sum f name (perform_all device cs rows) ≡ row_sum f name rows + f (expected name cs)
  unfolding perform_all expected
  perform_all_sum device name [] rows = omega (arith, zero_law)
  perform_all_sum device name (c ∷ cs) rows = omega (
    arith,
    perform_all_sum device name cs (perform device c rows),
    perform_sum device name c rows,
    add_law (counted name c) (expected name cs),
  )

unfoldable pub row_total : List StatRecord → ℕ
row_total [] = 0
row_total (row ∷ rows) = row_total rows + row.counts.requests

pub row_total-record :
    (stat : StatRecord) (rows : List StatRecord)
    → row_total (record_daily_stat stat rows) ≡ row_total rows + stat.counts.requests
unfolding row_total record_daily_stat
row_total-record stat [] = refl
row_total-record stat (row ∷ rows) = ground (arith, row_total-record stat rows)

pub total_requests-groups :
    (rows : List StatRecord) → total_requests (by_endpoint rows) ≡ row_total rows
unfolding row_total by_endpoint total_requests
total_requests-groups [] = refl
total_requests-groups (row ∷ rows) = omega (
  arith,
  total_requests-insert row.endpoint_name row.counts (by_endpoint rows),
  total_requests-groups rows,
)

row_total-all :
    (device : Text) (cs : List StatCall) (rows : List StatRecord)
    → row_total (perform_all device cs rows) ≡ row_total rows + successes cs
unfolding perform_all successes perform success_record error_record
row_total-all device [] rows = omega arith
row_total-all device (record_error fails n date ∷ cs) rows = ground (
  arith,
  row_total-all device cs (perform device (record_error fails n date) rows),
  row_total-record (error_record device n date) rows,
)
row_total-all device (record_success fails n date input output ∷ cs) rows = ground (
  arith,
  row_total-all device cs (perform device (record_success fails n date input output) rows),
  row_total-record (success_record device n date input output) rows,
)

pub Counts-path :
    {a b : Counts}
    → a.requests ≡ b.requests
    → a.errors ≡ b.errors
    → a.input_tokens ≡ b.input_tokens
    → a.output_tokens ≡ b.output_tokens
    → a ≡ b
Counts-path r e i o =
    λ t. record { requests = r t; errors = e t; input_tokens = i t; output_tokens = o t }

one_counter :
    (f : Counts → ℕ)
    → f no_counts ≡ 0
    → ((a b : Counts) → f (a ⊕ b) ≡ f a + f b)
    → (device name : Text) (cs : List StatCall)
    → f (or_none (lookup name (by_endpoint (perform_all device cs [])))) ≡ f (expected name cs)
unfolding row_sum
one_counter f zero_law add_law device name cs = omega (
  arith,
  group_sum f zero_law add_law name (perform_all device cs []),
  perform_all_sum f zero_law add_law device name cs [],
)

-- After any sequence of calls of the recorder on one device, from an empty table, the statistics give as
-- the total the number of the successes whose statement succeeded, and for every endpoint the sum of what
-- those calls counted for it, whatever their dates: its successes, its errors and its tokens.
pub get_stats-calls :
    (device name : Text) (cs : List StatCall)
    → ((get_stats false (perform_all device cs [])).0 ≡ successes cs)
      × (or_none (lookup name (get_stats false (perform_all device cs [])).1) ≡ expected name cs)
unfolding get_stats row_total
get_stats-calls device name cs = (
  omega (arith, total_requests-groups (perform_all device cs []), row_total-all device cs []),
  Counts-path (one_counter (λ c. c.requests) refl (λ a b. refl) device name cs)
      (one_counter (λ c. c.errors) refl (λ a b. refl) device name cs)
      (one_counter (λ c. c.input_tokens) refl (λ a b. refl) device name cs)
      (one_counter (λ c. c.output_tokens) refl (λ a b. refl) device name cs),
)
