-- ===== src/Storage/Refusals.antt =====
-- How long a refusal of a token lasts: through which operations of the store it stays out of use.
use osante_ai_proxy.Base.{
  Option, none, sym, ◌∙◌, All-both, ◌≤◌, All-map, find_first_sound, find_first-All, ap, ℕ, ◌<◌, ◌≡◌,
  refl, ◌≢◌, Bool, true, false, not, some, List, [], ◌∷◌, arith, All, All-append, All-weaken,
  All-map, All-keep_if, Text, inl, inr, Bool-cases, Option-cases, if◌then◌else◌, find_first,
  is_some, ◌==◌, ◌&&◌, ◌⊎◌,
}
use osante_ai_proxy.Storage.Credential.{
  in_cooldown, is_invalid, derive_status, has_expired, Credential, invalid, is_usable,
}
use osante_ai_proxy.Storage.Order.{sort-All}
use osante_ai_proxy.Storage.Pool.{
  of_endpoint, Db, query, is_row, stored, set_enabled, mark_success, mark_usage_limit, succeeded,
  limited, update_where, has_id, failed, claim, save, update, delete, mark_failure,
}
use osante_ai_proxy.Storage.Cascade.{rename_references, delete_pool}
use osante_ai_proxy.Storage.History.{
  Call, saves, updates, deletes, enables, succeeds, fails, hits_limit, claims, renames, removes,
  kept, step, run,
}
use osante_ai_proxy.Storage.Cooldowns.{update_where-All, has_id-false}

-- The calls that leave it refused: all but an update of the token, a success or a usage limit of its own,
-- and a failure with 429.
unfoldable pub keeps_refusal : ℕ → Call → Bool
keeps_refusal id (saves c clock) = true
keeps_refusal id (updates c clock) = not (c.id == id)
keeps_refusal id (deletes name i) = true
keeps_refusal id (enables name i b clock) = true
keeps_refusal id (succeeds i now clock) = not (i == id)
keeps_refusal id (fails i code msg now clock) = not (i == id && code == 429)
keeps_refusal id (hits_limit i msg until now clock) = not (i == id)
keeps_refusal id (claims name now clock) = true
keeps_refusal id (renames old new clock) = true
keeps_refusal id (removes name) = true

-- A row with the id is marked as invalid.
abbrev pub IsRefused : ℕ → Credential → Type 0
IsRefused id c = c.id ≡ id → c.status ≡ invalid

module _ (id : ℕ) where
  update_where-IsRefused :
      (test : Credential → Bool) (set : Credential → Credential) (db : Db)
      → ((c : Credential) → test c ≡ true → IsRefused id c → IsRefused id (set c))
      → All (IsRefused id) db.credentials
      → All (IsRefused id) (update_where test set db).credentials
  unfolding update_where
  update_where-IsRefused test set db hit marked =
      All-map _ _ _ (All-weaken (IsRefused id) _ db.credentials branch marked)
    where
      branch : (c : Credential) → IsRefused id c → IsRefused id (if test c then set c else c)
      branch c r = elim (Bool-cases (test c)) [ inl e ↦ rw e (hit c e r) | inr e ↦ rw e r ]

  update-IsRefused :
      (c : Credential) (clock : ℕ) (db : Db)
      → not (c.id == id) ≡ true
      → All (IsRefused id) db.credentials
      → All (IsRefused id) (kept db (update c clock db)).credentials
  unfolding update stored
  update-IsRefused c clock db other marked = elim (Bool-cases (c.id == 0)) [
    | inl e ↦ rw e marked
    | inr e ↦
        rw e
          (elim (Bool-cases (is_some (find_first (is_row c.endpoint_name c.id) db.credentials))) [
            | inl f ↦ rw f (
                update_where-IsRefused _ _ db
                  (λ d _ _ same_id. absurd (ground (arith, other, same_id))) marked)
            | inr f ↦ rw f marked
          ])
  ]

  delete-IsRefused :
      (name : Text) (i : ℕ) (db : Db)
      → All (IsRefused id) db.credentials
      → All (IsRefused id) (delete name i db).1.credentials
  unfolding delete
  delete-IsRefused name i db marked =
      elim (Bool-cases (is_some (find_first (is_row name i) db.credentials))) [
        | inl e ↦ rw e (All-keep_if _ _ db.credentials marked)
        | inr e ↦ rw e marked
      ]

  claim-IsRefused :
      (name : Text) (now clock : ℕ) (db : Db)
      → All (IsRefused id) db.credentials
      → All (IsRefused id) (claim name now clock db).1.credentials
  unfolding claim
  claim-IsRefused name now clock db marked =
      elim (Option-cases (find_first (λ c. is_usable c now) (query name clock db))) [
        | inl e ↦ rw (claim, e) marked
        | inr (c, e) ↦ rw (claim, e) (update_where-IsRefused _ _ db (λ r _ k. k) marked)
      ]

  failed-IsRefused :
      (i code : ℕ) (msg : Text) (now clock : ℕ) (c : Credential)
      → not (i == id && code == 429) ≡ true
      → has_id i c ≡ true
      → IsRefused id c
      → IsRefused id (failed code msg now clock c)
  unfolding failed has_id
  failed-IsRefused i code msg now clock c h hit r same_id = ground (arith, h, hit, r, same_id)

  stays_given : (call : Call) (db : Db) → id < db.next_id → id < (step call db).next_id
  unfolding step save update delete set_enabled mark_success mark_failure mark_usage_limit claim
      update_where rename_references delete_pool
  stays_given (saves c clock) db given = omega (arith, given)
  stays_given (updates c clock) db given = elim (Bool-cases (c.id == 0)) [
    | inl e ↦ rw e given
    | inr e ↦
        rw e
          (elim (Bool-cases (is_some (find_first (is_row c.endpoint_name c.id) db.credentials))) [
            | inl f ↦ rw f given
            | inr f ↦ rw f given
          ])
  ]
  stays_given (deletes name i) db given = ground (arith, given)
  stays_given (enables name i b clock) db given = given
  stays_given (succeeds i now clock) db given = given
  stays_given (fails i code msg now clock) db given = given
  stays_given (hits_limit i msg until now clock) db given = given
  stays_given (claims name now clock) db given =
      elim (Option-cases (find_first (λ c. is_usable c now) (query name clock db))) [
        | inl e ↦ rw (step, claim, e) given
        | inr (c, e) ↦ rw (step, claim, e) given
      ]
  stays_given (renames old new clock) db given = given
  stays_given (removes name) db given = given

  -- One call.
  step-IsRefused :
      (call : Call) (db : Db)
      → keeps_refusal id call ≡ true
      → id < db.next_id
      → All (IsRefused id) db.credentials
      → All (IsRefused id) (step call db).credentials
  unfolding step keeps_refusal save set_enabled mark_success mark_failure mark_usage_limit has_id
      succeeded limited rename_references delete_pool
  step-IsRefused (saves c clock) db h given marked =
      All-append _ db.credentials _ marked ((λ e. absurd (omega (arith, e, given))), tt)
  step-IsRefused (updates c clock) db h given marked = update-IsRefused c clock db h marked
  step-IsRefused (deletes name i) db h given marked = delete-IsRefused name i db marked
  step-IsRefused (enables name i b clock) db h given marked =
      update_where-IsRefused _ _ db (λ c _ r. r) marked
  step-IsRefused (succeeds i now clock) db h given marked =
      update_where-IsRefused _ _ db (λ c hit _ e. absurd (ground (arith, h, hit, e))) marked
  step-IsRefused (fails i code msg now clock) db h given marked =
      update_where-IsRefused _ _ db (λ c hit r. failed-IsRefused i code msg now clock c h hit r)
        marked
  step-IsRefused (hits_limit i msg until now clock) db h given marked =
      update_where-IsRefused _ _ db (λ c hit _ e. absurd (ground (arith, h, hit, e))) marked
  step-IsRefused (claims name now clock) db h given marked =
      claim-IsRefused name now clock db marked
  step-IsRefused (renames old new clock) db h given marked =
      update_where-IsRefused _ _ _ (λ c _ r. r) marked
  step-IsRefused (removes name) db h given marked = All-keep_if _ _ db.credentials marked

  run-IsRefused :
      (calls : List Call) (db : Db)
      → All (λ call. keeps_refusal id call ≡ true) calls
      → id < db.next_id
      → All (IsRefused id) db.credentials
      → All (IsRefused id) (run calls db).credentials
  unfolding run
  run-IsRefused [] db h given marked = marked
  run-IsRefused (call ∷ calls) db h given marked =
      run-IsRefused calls (step call db) h.1 (stays_given call db given)
        (step-IsRefused call db h.0 given marked)

mark_failure-IsRefused :
    (id code : ℕ) (msg : Text) (now clock : ℕ) (db : Db)
    → (code ≡ 401) ⊎ (code ≡ 403)
    → All (IsRefused id) (mark_failure id code msg now clock db).credentials
unfolding mark_failure failed
mark_failure-IsRefused id code msg now clock db h =
    update_where-All _ _ db (IsRefused id) (λ r _ _. ground (arith, h))
      (λ r miss e. absurd (has_id-false id r miss e))

in_cooldown-before :
    (until : Option ℕ) (now clock : ℕ)
    → now ≤ clock
    → in_cooldown until clock ≡ true
    → in_cooldown until now ≡ true
unfolding in_cooldown
in_cooldown-before none now clock later h = h
in_cooldown-before (some u) now clock later h = ground (arith, later, h)

-- A token marked as invalid is not usable at `now` with the status that a query derives at `clock`, if it does
-- not expire in between.
invalid-unusable :
    (c : Credential) (now clock : ℕ)
    → now ≤ clock
    → c.status ≡ invalid
    → (has_expired c.expires_at clock ≡ true → has_expired c.expires_at now ≡ true)
    → is_usable (record c { status = derive_status c clock }) now ≡ false
unfolding is_usable derive_status
invalid-unusable c now clock later h lasting =
    let off : is_invalid c.status ≡ true = ap is_invalid h in
    let cooling = in_cooldown-before c.cooldown_until now clock later in
    ground (arith, off, lasting, cooling)

-- What no row in a query's result may serve as is not claimed.
claim-avoids_between :
    (name : Text) (id now clock : ℕ) (db db' : Db) (c : Credential)
    → All
        (λ r. r.id ≡ id → is_usable (record r { status = derive_status r clock }) now ≡ false)
        db.credentials
    → claim name now clock db ≡ (some c, db')
    → c.id ≢ id
unfolding query of_endpoint
claim-avoids_between name id now clock db db' c stopped h =
    elim (Option-cases (find_first (λ c. is_usable c now) (query name clock db))) [
      | inl e ↦
          let nothing : claim name now clock db ≡ (none, db) = unfold claim in rw (claim, e) refl in
          absurd (cc (h, nothing))
      | inr (q, e) ↦
          let found : claim name now clock db ≡ (
            some (record q { status = derive_status q now; last_used_at = some now }),
            update_where (has_id q.id) (λ r. record r { last_used_at = some now }) db,
          ) =
            unfold claim in rw (claim, e) refl in
          let avoided =
            find_first-All (λ r. r.id ≡ id → is_usable r now ≡ false) (λ r. is_usable r now)
              (query name clock db)
              (All-map _ _ _ (sort-All _ _ _ (All-keep_if _ _ db.credentials stopped))) e in
          let handed : q.id ≡ c.id =
            ap (λ (r : Option Credential × Db). elim r.0 [ none ↦ id | some x ↦ x.id ])
              (sym found ∙ h) in
          λ same_id. absurd (
            cc (
              find_first_sound (λ r. is_usable r now) (query name clock db) e,
              avoided (handed ∙ same_id),
            ))
    ]

-- A token that is refused with 401 or 403 is not handed out by any later claim, whatever calls of the store
-- come between, as long as none of them updates that token, marks a success or a usage limit of it, or a
-- failure of it with 429: not after other failures of it, saves of new tokens, switching it off and on,
-- claims, renaming or removing endpoints. The claim's query reads the clock at or after the time that the
-- claim is given, and the token does not expire between these two.
pub refusal_lasts :
    (name : Text) (id code : ℕ) (msg : Text) (at clock t query_clock : ℕ) (calls : List Call)
    (db db' : Db) (c : Credential)
    → (code ≡ 401) ⊎ (code ≡ 403)
    → id < db.next_id
    → All (λ call. keeps_refusal id call ≡ true) calls
    → t ≤ query_clock
    → All
        (λ r.
          r.id ≡ id
          → has_expired r.expires_at query_clock ≡ true
          → has_expired r.expires_at t ≡ true)
        (run calls (mark_failure id code msg at clock db)).credentials
    → claim name t query_clock (run calls (mark_failure id code msg at clock db)) ≡ (some c, db')
    → c.id ≢ id
refusal_lasts name id code msg at clock t query_clock calls db db' c h given quiet later lasting =
    let marked : Db = mark_failure id code msg at clock db in
    let still_given : id < marked.next_id = unfold mark_failure update_where in given in
    claim-avoids_between name id t query_clock (run calls marked) db' c (
      All-weaken _ _ (run calls marked).credentials
        (λ r k e. invalid-unusable r t query_clock later (k.0 e) (k.1 e))
        (All-both _ _ (run calls marked).credentials
          (run-IsRefused id calls marked quiet still_given
            (mark_failure-IsRefused id code msg at clock db h))
          lasting))
