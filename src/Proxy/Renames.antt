-- ===== src/Proxy/Renames.antt =====
-- What becomes of the statistics when an endpoint is renamed.
use osante_ai_proxy.Base.{
  ℕ, ◌+◌, ◌≡◌, refl, false, List, [], ◌∷◌, Text, same, same_iff, lookup, text_eq, arith,
  if◌then◌else◌,
}
use osante_ai_proxy.Proxy.Stats.{
  StatRecord, record_daily_stat, no_counts, ◌⊕◌, or_none, get_stats, rename_stats, renamed_rows,
  record_rows, delete_stats, Counts,
}
use osante_ai_proxy.Proxy.Sums.{
  row_sum, row_total, row_sum-record, group_sum, row_total-record, total_requests-groups,
  Counts-path,
}

-- The counters that the statistics give for an endpoint.
unfoldable pub shown : Text → List StatRecord → Counts
unfolding get_stats
shown name rows = or_none (lookup name (get_stats false rows).1)

-- The counters of an endpoint after a change of name, by those before.
unfoldable pub after_rename : Text → Text → Text → List StatRecord → Counts
unfolding same shown
after_rename old new name rows =
    if same old name
    then no_counts
    else if same new name
    then shown name rows ⊕ shown old rows
    else shown name rows

module _ (f : Counts → ℕ) where
  row_sum-renamed :
      (old new name : Text) (rows : List StatRecord)
      → row_sum f name (renamed_rows old new rows)
        ≡ (if same new name then row_sum f old rows else 0)
  unfolding row_sum renamed_rows
  row_sum-renamed old new name [] = ground arith
  row_sum-renamed old new name (row ∷ rows) = ground (arith, row_sum-renamed old new name rows)

  row_sum-delete_stats :
      (old name : Text) (rows : List StatRecord)
      → row_sum f name (delete_stats old rows) ≡ (if same old name then 0 else row_sum f name rows)
  unfolding row_sum delete_stats
  row_sum-delete_stats old name [] = ground arith
  row_sum-delete_stats old name (row ∷ rows) = ground (
    arith,
    same_iff row.endpoint_name old,
    same_iff row.endpoint_name name,
    same_iff old name,
    row_sum-delete_stats old name rows,
  )

  module _ (zero_law : f no_counts ≡ 0) (add_law : (a b : Counts) → f (a ⊕ b) ≡ f a + f b) where
    row_sum-record_rows :
        (name : Text) (stats rows : List StatRecord)
        → row_sum f name (record_rows stats rows) ≡ row_sum f name rows + row_sum f name stats
    unfolding row_sum record_rows
    row_sum-record_rows name [] rows = omega arith
    row_sum-record_rows name (stat ∷ stats) rows = omega (
      arith,
      row_sum-record_rows name stats (record_daily_stat stat rows),
      row_sum-record f zero_law add_law name stat rows,
    )

    row_sum-rename :
        (old new name : Text) (rows : List StatRecord)
        → row_sum f name (rename_stats old new rows) ≡ (
            if same old name
            then 0
            else row_sum f name rows + (if same new name then row_sum f old rows else 0))
    unfolding rename_stats
    row_sum-rename old new name rows = ground (
      arith,
      row_sum-delete_stats old name (record_rows (renamed_rows old new rows) rows),
      row_sum-record_rows name (renamed_rows old new rows) rows,
      row_sum-renamed old new name rows,
    )

    counter-rename :
        (old new name : Text) (rows : List StatRecord)
        → f (shown name (rename_stats old new rows)) ≡ f (after_rename old new name rows)
    unfolding shown after_rename
    counter-rename old new name rows = ground (
      arith,
      group_sum f zero_law add_law name (rename_stats old new rows),
      group_sum f zero_law add_law name rows,
      group_sum f zero_law add_law old rows,
      add_law (shown name rows) (shown old rows),
      zero_law,
      row_sum-rename old new name rows,
    )

row_total-renamed :
    (old new : Text) (rows : List StatRecord)
    → row_total (renamed_rows old new rows) ≡ row_sum (λ c. c.requests) old rows
unfolding row_sum row_total renamed_rows
row_total-renamed old new [] = refl
row_total-renamed old new (row ∷ rows) = ground (arith, row_total-renamed old new rows)

row_total-delete_stats :
    (old : Text) (rows : List StatRecord)
    → row_total (delete_stats old rows) + row_sum (λ c. c.requests) old rows ≡ row_total rows
unfolding row_sum row_total delete_stats
row_total-delete_stats old [] = omega arith
row_total-delete_stats old (row ∷ rows) = ground (arith, row_total-delete_stats old rows)

row_total-record_rows :
    (stats rows : List StatRecord)
    → row_total (record_rows stats rows) ≡ row_total rows + row_total stats
unfolding row_total record_rows
row_total-record_rows [] rows = omega arith
row_total-record_rows (stat ∷ stats) rows =
    omega
      (arith, row_total-record_rows stats (record_daily_stat stat rows), row_total-record stat rows)

row_total-rename :
    (old new : Text) (rows : List StatRecord)
    → same new old ≡ false
    → row_total (rename_stats old new rows) ≡ row_total rows
unfolding rename_stats
row_total-rename old new rows apart =
    let moved = renamed_rows old new rows in
    ground (
      arith,
      apart,
      row_total-delete_stats old (record_rows moved rows),
      row_total-record_rows moved rows,
      row_total-renamed old new rows,
      row_sum-record_rows (λ c. c.requests) refl (λ a b. refl) old moved rows,
      row_sum-renamed (λ c. c.requests) old new old rows,
    )

-- Renaming an endpoint to another name keeps the total of the statistics; the old name has none left, the
-- new name has its own and those of the old name added up, and every other name has what it had.
pub get_stats-rename_stats :
    (old new name : Text) (rows : List StatRecord)
    → same new old ≡ false
    → ((get_stats false (rename_stats old new rows)).0 ≡ (get_stats false rows).0)
      × (shown name (rename_stats old new rows) ≡ after_rename old new name rows)
unfolding get_stats
get_stats-rename_stats old new name rows apart = (
  omega (
    arith,
    total_requests-groups rows,
    total_requests-groups (rename_stats old new rows),
    row_total-rename old new rows apart,
  ),
  Counts-path (counter-rename (λ c. c.requests) refl (λ a b. refl) old new name rows)
      (counter-rename (λ c. c.errors) refl (λ a b. refl) old new name rows)
      (counter-rename (λ c. c.input_tokens) refl (λ a b. refl) old new name rows)
      (counter-rename (λ c. c.output_tokens) refl (λ a b. refl) old new name rows),
)
