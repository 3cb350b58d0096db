-- ===== src/Config/Saved.antt =====
-- SaveToStorage into a database without endpoints, and LoadFromStorage after it.
use osante_ai_proxy.Base.{
  ℕ, suc, Bool, true, false, some, List, [], ◌∷◌, ◌++◌, append_assoc, append-nil, map, Text, text,
  is_some, find_first, ◌||◌, ◌≡◌, refl, sym, ◌∙◌, ap, All, Table, insert, text_eq, arith,
  Bool-cases, inl, inr, if◌then◌else◌,
}
use osante_ai_proxy.Storage.Order.{sort, put, precedes}
use osante_ai_proxy.Proxy.Endpoint.{Endpoint}
use osante_ai_proxy.Config.Types.{Config}
use osante_ai_proxy.Config.Rules.{settle}
use osante_ai_proxy.Config.Codec.{Codec, IsCodec}
use osante_ai_proxy.Config.Store.{
  Store, StoredEndpoint, Faults, get_config, set_all, get_endpoints, save_endpoint, settled_row,
  has_name, by_sort_order,
}
use osante_ai_proxy.Config.Save.{
  all_settings, write_endpoint, write_endpoints, delete_endpoints, save_to_storage,
}
use osante_ai_proxy.Config.Load.{load_settings, load_from_storage}
use osante_ai_proxy.Config.Written.{set_all_step, set_all_refused}
use osante_ai_proxy.Config.Reload.{IsSettled, load_settings-saved}

-- The rows of a list of endpoints, numbered from `i`.
rows_from : ℕ → List Endpoint → List StoredEndpoint
rows_from i [] = []
rows_from i (ep ∷ eps) = record { endpoint = ep; sort_order = i } ∷ rows_from (suc i) eps

put_first :
    (i : ℕ) (ep : Endpoint) (eps : List Endpoint)
    → put by_sort_order (record { endpoint = ep; sort_order = i }) (rows_from (suc i) eps)
      ≡ record { endpoint = ep; sort_order = i } ∷ rows_from (suc i) eps
unfolding put precedes rows_from
put_first i ep [] = refl
put_first i ep (e ∷ eps) = ground arith

sort-rows_from :
    (i : ℕ) (eps : List Endpoint) → sort by_sort_order (rows_from i eps) ≡ rows_from i eps
unfolding sort rows_from
sort-rows_from i [] = refl
sort-rows_from i (ep ∷ eps) = rw (sort-rows_from (suc i) eps) (put_first i ep eps)

set_all-rows :
    (faults : Faults) (sets : List (Text × Text)) (s : Store)
    → (set_all faults sets s).1.rows ≡ s.rows
set_all-rows faults [] s = unfold set_all in refl
set_all-rows faults ((j, v) ∷ sets) s = elim (Bool-cases (faults.set_fails j)) [
  | inl refused ↦ ap (λ r. r.1.rows) (set_all_refused faults j v sets s refused)
  | inr accepted ↦
      ap (λ r. r.1.rows) (set_all_step faults j v sets s accepted)
      ∙ set_all-rows faults sets (record s { settings = insert j v s.settings })
]

module _ (codec : Codec) (faults : Faults) where
  -- An endpoint that the rules leave as it is.
  abbrev pub IsSettledEndpoint : Endpoint → Type 0
  IsSettledEndpoint ep = settle codec.parse_url codec.clean_path ep ≡ ep

  abbrev settle_all : List StoredEndpoint → List StoredEndpoint
  settle_all rows = map (settled_row codec.parse_url codec.clean_path faults) rows

  saved_row :
      (r : StoredEndpoint) (s : Store)
      → (save_endpoint codec.parse_url codec.clean_path faults r s).0 ≡ true
      → save_endpoint codec.parse_url codec.clean_path faults r s ≡ (
        true,
        record s { rows = s.rows ++ settled_row codec.parse_url codec.clean_path faults r ∷ [] },
      )
  unfolding save_endpoint
  saved_row r s h =
      elim (Bool-cases (
        faults.endpoint_fails r.endpoint.name
        || is_some (find_first (has_name r.endpoint.name) s.rows))) [
          | inl e ↦ absurd (cc (rw e at h))
          | inr e ↦ rw e refl
        ]

  settle_row :
      (ep : Endpoint) (i : ℕ)
      → IsSettledEndpoint ep
      → settled_row codec.parse_url codec.clean_path faults
          (record { endpoint = settle codec.parse_url codec.clean_path ep; sort_order = i })
        ≡ record { endpoint = ep; sort_order = i }
  unfolding settled_row
  settle_row ep i e = λ k. record {
    endpoint = (ap (settle codec.parse_url codec.clean_path) e ∙ e) k;
    sort_order = i;
  }

  -- One endpoint that is written with no name stored.
  written_row :
      (i : ℕ) (ep : Endpoint) (s : Store)
      → IsSettledEndpoint ep
      → (write_endpoint codec faults i ep [] s).0 ≡ true
      → write_endpoint codec faults i ep [] s
        ≡ (true, record s { rows = s.rows ++ record { endpoint = ep; sort_order = i } ∷ [] })
  unfolding write_endpoint
  written_row i ep s e ok =
      let row : StoredEndpoint = record {
        endpoint = settle codec.parse_url codec.clean_path ep;
        sort_order = i;
      } in
      saved_row row s ok
      ∙ ap (λ r. (true, record s { rows = s.rows ++ r ∷ [] })) (settle_row ep i e)

  write_step :
      (i : ℕ) (ep : Endpoint) (eps : List Endpoint) (s s1 : Store)
      → write_endpoint codec faults i ep [] s ≡ (true, s1)
      → write_endpoints codec faults i (ep ∷ eps) [] s
        ≡ write_endpoints codec faults (suc i) eps [] s1
  unfolding write_endpoints
  write_step i ep eps s s1 e =
      rw (write_endpoints, e) (ap (λ r. write_endpoints codec faults (suc i) eps [] r.1) e)

  write_stops :
      (i : ℕ) (ep : Endpoint) (eps : List Endpoint) (s : Store)
      → (write_endpoint codec faults i ep [] s).0 ≡ false
      → (write_endpoints codec faults i (ep ∷ eps) [] s).0 ≡ false
  unfolding write_endpoints
  write_stops i ep eps s e = rw (write_endpoints, e) refl

  written_rows :
      (i : ℕ) (eps : List Endpoint) (s : Store)
      → All IsSettledEndpoint eps
      → (write_endpoints codec faults i eps [] s).0 ≡ true
      → write_endpoints codec faults i eps [] s
        ≡ (true, ([], record s { rows = s.rows ++ rows_from i eps }))
  unfolding rows_from
  written_rows i [] s all ok =
      unfold write_endpoints in λ k. (true, ([], record s { rows = sym (append-nil s.rows) k }))
  written_rows i (ep ∷ eps) s all ok = elim (Bool-cases (write_endpoint codec faults i ep [] s).0) [
    | inl fine ↦
        let row : StoredEndpoint = record { endpoint = ep; sort_order = i } in
        let s1 = record s { rows = s.rows ++ row ∷ [] } in
        let step = write_step i ep eps s s1 (written_row i ep s all.0 fine) in
        step
        ∙ written_rows (suc i) eps s1 all.1 (sym (ap (λ r. r.0) step) ∙ ok)
        ∙ ap (λ r. (true, ([], record s { rows = r })))
            (append_assoc s.rows (row ∷ []) (rows_from (suc i) eps))
    | inr failed ↦ absurd (cc (write_stops i ep eps s failed, ok))
  ]

  -- Rows of settled endpoints are read back as they are.
  read_rows :
      (i : ℕ) (eps : List Endpoint)
      → All IsSettledEndpoint eps
      → map (λ r. settle codec.parse_url codec.clean_path r.endpoint) (settle_all (rows_from i eps))
        ≡ eps
  unfolding rows_from settled_row
  read_rows i [] all = refl
  read_rows i (ep ∷ eps) all = λ k.
      (ap (settle codec.parse_url codec.clean_path) all.0 ∙ all.0) k ∷ read_rows (suc i) eps all.1 k

  module _ (law : IsCodec codec) (reads : (k : Text) → faults.get_fails k ≡ false) (c : Config)
      (settings : Table Text Text) where
    abbrev before : Store
    before = record { rows = []; settings = settings }

    -- What follows the writing of the endpoints.
    abbrev after_rows : Bool × (List Text × Store) → Bool × Store
    after_rows w =
        let deleted = if w.0 then delete_endpoints codec faults w.1.0 w.1.1 else (false, w.1.1) in
        if deleted.0 then set_all faults (all_settings codec c) deleted.1 else deleted

    save_unfolds :
        faults.no_endpoints ≡ false
        → save_to_storage codec faults c before
          ≡ after_rows (write_endpoints codec faults 0 c.endpoints [] before)
    unfolding save_to_storage get_endpoints sort
    save_unfolds listed = rw listed refl

    stored_rows :
        faults.no_endpoints ≡ false
        → All IsSettledEndpoint c.endpoints
        → (save_to_storage codec faults c before).0 ≡ true
        → save_to_storage codec faults c before
          ≡ set_all faults
              (all_settings codec c)
              (record { rows = rows_from 0 c.endpoints; settings = settings })
    unfolding delete_endpoints
    stored_rows listed all ok =
        let w = write_endpoints codec faults 0 c.endpoints [] before in
        let ok1 : (after_rows w).0 ≡ true = sym (ap (λ r. r.0) (save_unfolds listed)) ∙ ok in
        elim (Bool-cases w.0) [
          | inl fine ↦
              save_unfolds listed ∙ ap after_rows (written_rows 0 c.endpoints before all fine)
          | inr failed ↦ absurd (cc (rw failed at ok1))
        ]

    listed_rows :
        (s : Store)
        → faults.no_endpoints ≡ false
        → s.rows ≡ rows_from 0 c.endpoints
        → get_endpoints codec.parse_url codec.clean_path faults s
          ≡ some (settle_all (rows_from 0 c.endpoints))
    unfolding get_endpoints
    listed_rows s listed e = rw listed (
        ap (λ rows. some (settle_all (sort by_sort_order rows))) e
        ∙ ap (λ rows. some (settle_all rows)) (sort-rows_from 0 c.endpoints))

    load_rows :
        (s : Store)
        → faults.no_endpoints ≡ false
        → s.rows ≡ rows_from 0 c.endpoints
        → All IsSettledEndpoint c.endpoints
        → load_from_storage codec faults s ≡ some (load_settings codec faults c.endpoints s)
    unfolding load_from_storage
    load_rows s listed e all =
        rw (load_from_storage, listed_rows s listed e)
          (ap (λ eps. some (load_settings codec faults eps s)) (read_rows 0 c.endpoints all))

    -- A configuration that has the values which loading would give it, whose numbers fit in 64 bits, whose terminal projects have paths in
    -- valid UTF-8, with endpoints that the rules leave as they are, comes back the same from a database that held no endpoints, when the saving
    -- succeeds and no read fails; only the lock on the port is not stored.
    pub load-save :
        faults.no_endpoints ≡ false
        → All IsSettledEndpoint c.endpoints
        → IsSettled codec
            (get_config faults (text "webdav_url") before)
            (get_config faults (text "backup_provider") before)
            c
        → (save_to_storage codec faults c before).0 ≡ true
        → load_from_storage codec faults (save_to_storage codec faults c before).1
          ≡ some (record c { port_locked = false })
    unfolding get_config
    load-save listed all h ok =
        let stored : Store = record { rows = rows_from 0 c.endpoints; settings = settings } in
        let e = stored_rows listed all ok in
        let ok1 : (set_all faults (all_settings codec c) stored).0 ≡ true =
          sym (ap (λ r. r.0) e) ∙ ok in
        ap (λ r. load_from_storage codec faults r.1) e
        ∙ load_rows (set_all faults (all_settings codec c) stored).1 listed
            (set_all-rows faults (all_settings codec c) stored) all
        ∙ ap some (load_settings-saved codec law faults reads c stored ok1 c.endpoints h)
