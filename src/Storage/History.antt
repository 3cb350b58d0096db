-- ===== src/Storage/History.antt =====
-- Any sequence of the store's operations.
use osante_ai_proxy.Base.{
  ℕ, ◌<◌, ◌≡◌, refl, Bool, true, List, [], ◌∷◌, arith, All-append, All-map, All-weaken, All-keep_if,
  Text, inl, inr, Bool-cases, Option-cases, if◌then◌else◌, find_first, is_some, ◌==◌,
}
use osante_ai_proxy.Storage.Credential.{Credential, is_usable}
use osante_ai_proxy.Storage.Pool.{
  Db, Result, ok, err, save, update, delete, set_enabled, mark_success, mark_failure,
  mark_usage_limit, claim, update_where, succeeded, failed, limited, is_row, stored, query,
}
use osante_ai_proxy.Storage.Cascade.{rename_references, delete_pool}
use osante_ai_proxy.Storage.Keys.{IsKeyed, map-Distinct, keep_if-Distinct, snoc-Distinct}

pub data Call : Type 0 where
  saves updates : Credential → ℕ → Call
  deletes : Text → ℕ → Call
  enables : Text → ℕ → Bool → ℕ → Call
  succeeds : ℕ → ℕ → ℕ → Call
  fails : ℕ → ℕ → Text → ℕ → ℕ → Call
  hits_limit : ℕ → Text → ℕ → ℕ → ℕ → Call
  claims : Text → ℕ → ℕ → Call
  renames : Text → Text → ℕ → Call
  removes : Text → Call

abbrev pub kept : Db → Result Db → Db
kept db (ok db') = db'
kept db (err e) = db

-- A call that fails leaves the tables as they were, but for `delete`, which has its own result.
unfoldable pub step : Call → Db → Db
step (saves c clock) db = (save c clock db).0
step (updates c clock) db = kept db (update c clock db)
step (deletes name id) db = (delete name id db).1
step (enables name id b clock) db = set_enabled name id b clock db
step (succeeds id now clock) db = mark_success id now clock db
step (fails id code msg now clock) db = mark_failure id code msg now clock db
step (hits_limit id msg until now clock) db = mark_usage_limit id msg until now clock db
step (claims name now clock) db = (claim name now clock db).1
step (renames old new clock) db = rename_references old new clock db
step (removes name) db = delete_pool name db

unfoldable pub run : List Call → Db → Db
unfolding step
run [] db = db
run (c ∷ cs) db = run cs (step c db)

update_where-IsKeyed :
    (test : Credential → Bool) (set : Credential → Credential) (db : Db)
    → ((c : Credential) → test c ≡ true → (set c).id ≡ c.id)
    → IsKeyed db
    → IsKeyed (update_where test set db)
unfolding update_where
update_where-IsKeyed test set db same_id k = record {
  distinct = map-Distinct (λ c. if test c then set c else c) branch db.credentials k.distinct;
  fresh =
      All-map _ _ _
        (All-weaken (λ c. c.id < db.next_id) _ db.credentials (λ c l. rw (branch c) l) k.fresh);
}
  where
    branch : (c : Credential) → (if test c then set c else c).id ≡ c.id
    branch c = ground (arith, same_id c)

save-IsKeyed : (c : Credential) (clock : ℕ) (db : Db) → IsKeyed db → IsKeyed (save c clock db).0
unfolding save
save-IsKeyed c clock db k = record {
  distinct =
      snoc-Distinct db.credentials _ k.distinct
        (All-weaken (λ d. d.id < db.next_id) _ db.credentials (λ d l. omega arith) k.fresh);
  fresh =
      All-append _ db.credentials _
        (All-weaken (λ d. d.id < db.next_id) _ db.credentials (λ d l. omega arith) k.fresh)
        (omega arith, tt);
}

delete-IsKeyed : (name : Text) (id : ℕ) (db : Db) → IsKeyed db → IsKeyed (delete name id db).1
unfolding delete
delete-IsKeyed name id db k =
    elim (Bool-cases (is_some (find_first (is_row name id) db.credentials))) [
      | inl e ↦ rw e (record {
        distinct = keep_if-Distinct _ db.credentials k.distinct;
        fresh = All-keep_if _ _ db.credentials k.fresh;
      })
      | inr e ↦ rw e (record { distinct = k.distinct; fresh = k.fresh })
    ]

update-IsKeyed :
    (c : Credential) (clock : ℕ) (db : Db) → IsKeyed db → IsKeyed (kept db (update c clock db))
unfolding update is_row stored
update-IsKeyed c clock db k = elim (Bool-cases (c.id == 0)) [
  | inl zero_id ↦ rw (zero_id) k
  | inr e ↦
      rw e (elim (Bool-cases (is_some (find_first (is_row c.endpoint_name c.id) db.credentials))) [
        | inl f ↦ rw f (update_where-IsKeyed _ _ db same_id k)
        | inr f ↦ rw f k
      ])
]
  where
    same_id : (d : Credential) → is_row c.endpoint_name c.id d ≡ true → c.id ≡ d.id
    same_id d h = ground (arith, h)

claim-IsKeyed :
    (name : Text) (now clock : ℕ) (db : Db) → IsKeyed db → IsKeyed (claim name now clock db).1
unfolding claim
claim-IsKeyed name now clock db k =
    elim (Option-cases (find_first (λ c. is_usable c now) (query name clock db))) [
      | inl e ↦ rw (claim, e) k
      | inr (c, e) ↦ rw (claim, e) (update_where-IsKeyed _ _ db (λ r _. refl) k)
    ]

rename_references-IsKeyed :
    (old new : Text) (clock : ℕ) (db : Db)
    → IsKeyed db
    → IsKeyed (rename_references old new clock db)
unfolding rename_references
rename_references-IsKeyed old new clock db k =
    update_where-IsKeyed _ _ _ (λ c _. refl) (record { distinct = k.distinct; fresh = k.fresh })

delete_pool-IsKeyed : (name : Text) (db : Db) → IsKeyed db → IsKeyed (delete_pool name db)
unfolding delete_pool
delete_pool-IsKeyed name db k = record {
  distinct = keep_if-Distinct _ db.credentials k.distinct;
  fresh = All-keep_if _ _ db.credentials k.fresh;
}

-- Every operation of the store keeps the ids of the credentials distinct and below the counter.
step-IsKeyed : (call : Call) (db : Db) → IsKeyed db → IsKeyed (step call db)
unfolding step set_enabled mark_success mark_failure mark_usage_limit succeeded limited failed
step-IsKeyed (saves c clock) db k = save-IsKeyed c clock db k
step-IsKeyed (updates c clock) db k = update-IsKeyed c clock db k
step-IsKeyed (deletes name id) db k = delete-IsKeyed name id db k
step-IsKeyed (enables name id b clock) db k = update_where-IsKeyed _ _ db (λ c _. refl) k
step-IsKeyed (succeeds id now clock) db k = update_where-IsKeyed _ _ db (λ c _. refl) k
step-IsKeyed (fails id code msg now clock) db k =
    update_where-IsKeyed _ _ db (λ c _. ground arith) k
step-IsKeyed (hits_limit id msg until now clock) db k = update_where-IsKeyed _ _ db (λ c _. refl) k
step-IsKeyed (claims name now clock) db k = claim-IsKeyed name now clock db k
step-IsKeyed (renames old new clock) db k = rename_references-IsKeyed old new clock db k
step-IsKeyed (removes name) db k = delete_pool-IsKeyed name db k

-- Any sequence of the store's operations keeps the ids of the credentials distinct and below the
-- counter.
run-IsKeyed : (calls : List Call) (db : Db) → IsKeyed db → IsKeyed (run calls db)
unfolding run
run-IsKeyed [] db k = k
run-IsKeyed (c ∷ cs) db k = run-IsKeyed cs (step c db) (step-IsKeyed c db k)
