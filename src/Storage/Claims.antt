-- ===== src/Storage/Claims.antt =====
-- Which token `GetUsableEndpointCredential` hands out, and what the claim does to the pool.
use osante_ai_proxy.Base.{
  refl, ℕ, ◌≡◌, ap, ◌∙◌, Bool, Option, none, some, arith, find_first, Text, find_first-map, All,
  All-keep_if, Option-cases, same, ◌↔◌, false, find_first-All, inl, true, inr, keep_if-All, ◌≢◌,
  find_first-none, ◌≤◌, find_first_sound, ◌<◌, All-map, if◌then◌else◌, All-weaken, ◌==◌,
  keep_if-All_iff,
}
use mathlib.Core.Path.{fun_ext, subst₂}
use osante_ai_proxy.Storage.Keys.{IsKeyed, row, Distinct, Distinct-rows, row-map, map-Distinct}
use osante_ai_proxy.Storage.Order.{
  sort, All-sort, sort-All, precedes, first_is_least, sort-IsSorted,
}
use osante_ai_proxy.Storage.Credential.{Credential, derive_status, is_usable, in_cooldown}
use osante_ai_proxy.Storage.Status.{is_usable-derived, Serves, is_usable_iff}
use osante_ai_proxy.Storage.Pool.{
  Db, query, claim, of_endpoint, pool_order, update_where, has_id, coalesce,
}

abbrev pub pick : Text → ℕ → Db → Option Credential
pick name now db = find_first (λ c. is_usable c now) (sort (pool_order now) (of_endpoint name db))

abbrev pub claimed : ℕ → Credential → Credential
claimed now r = record r { status = derive_status r now; last_used_at = some now }

abbrev pub touch : ℕ → ℕ → Db → Db
touch id now = update_where (has_id id) (λ r. record r { last_used_at = some now })

derive_status-derived :
    (c : Credential) (now : ℕ)
    → derive_status (record c { status = derive_status c now }) now ≡ derive_status c now
unfolding derive_status
derive_status-derived c now = ground arith

find-query :
    (name : Text) (now : ℕ) (db : Db)
    → find_first (λ c. is_usable c now) (query name now db) ≡ elim (pick name now db) [
      | none ↦ none
      | some r ↦ some (record r { status = derive_status r now })
    ]
unfolding query
find-query name now db =
    find_first-map (λ c. is_usable c now) (λ c. record c { status = derive_status c now }) _
    ∙ ap
        (λ (p : Credential → Bool).
          let found : Option Credential =
            elim (find_first p (sort (pool_order now) (of_endpoint name db))) [
              | none ↦ none
              | some r ↦ some (record r { status = derive_status r now })
            ] in
          found)
        (fun_ext (λ c. is_usable-derived c now))

-- The claim in terms of the stored rows.
pub claim-none :
    (name : Text) (now : ℕ) (db : Db) → pick name now db ≡ none → claim name now now db ≡ (none, db)
unfolding claim
claim-none name now db e = rw (claim, find-query name now db, e)

pub claim-some :
    (name : Text) (now : ℕ) (db : Db) {r : Credential}
    → pick name now db ≡ some r
    → claim name now now db ≡ (some (claimed now r), touch r.id now db)
unfolding claim
claim-some name now db {r} e = rw (claim, find-query name now db, e, derive_status-derived r now)

pick-of :
    (name : Text) (now : ℕ) (db : Db) {r : Credential} (P : Credential → Type 0)
    → All P (of_endpoint name db)
    → pick name now db ≡ some r
    → P r
pick-of name now db P h e = find_first-All P (λ c. is_usable c now) _ (sort-All _ P _ h) e

-- A claim finds no token, and then the table is unchanged, exactly when no token of the endpoint
-- is usable.
pub claim-none_iff :
    (name : Text) (now : ℕ) (db : Db)
    → (claim name now now db ≡ (none, db))
      ↔ All (λ c. is_usable c now ≡ false) (of_endpoint name db)
claim-none_iff name now db = (forth, back)
  where
    forth :
        claim name now now db ≡ (none, db)
        → All (λ c. is_usable c now ≡ false) (of_endpoint name db)
    forth h = elim (Option-cases (pick name now db)) [
      | inl e ↦ All-sort _ _ _ ((find_first-none _ _).0 e)
      | inr (r, e) ↦ absurd (cc (h, claim-some name now db e))
    ]

    back :
        All (λ c. is_usable c now ≡ false) (of_endpoint name db)
        → claim name now now db ≡ (none, db)
    back h = claim-none name now db ((find_first-none _ _).1 (sort-All _ _ _ h))

-- A claimed token is a row of the endpoint that may serve, none of the endpoint's tokens that may
-- serve comes before it in the pool's order, and the claim stamps its time of use and changes no
-- other row.
pub record Claims (name : Text) (now : ℕ) (db : Db) (c : Credential) (db' : Db) : Type 0 where
  pub source : Credential
  pub is_row : row source.id db.credentials ≡ some source
  pub endpoint : same source.endpoint_name name ≡ true
  pub serves : Serves source now
  pub handed_out : c ≡ claimed now source
  pub first :
      All
        (λ d. is_usable d now ≡ true → precedes (pool_order now) d source ≡ false)
        (of_endpoint name db)
  pub stamped : db' ≡ touch source.id now db

pub picked-Claims :
    (name : Text) (now : ℕ) (db : Db) {r : Credential}
    → Distinct db.credentials
    → pick name now db ≡ some r
    → Claims name now db (claimed now r) (touch r.id now db)
unfolding of_endpoint
picked-Claims name now db {r} k e = record {
  source = r;
  is_row =
      pick-of name now db (λ c. row c.id db.credentials ≡ some c)
        (All-keep_if _ _ _ (Distinct-rows db.credentials k)) e;
  endpoint =
      pick-of name now db (λ c. same c.endpoint_name name ≡ true)
        (keep_if-All (λ (c : Credential). same c.endpoint_name name) db.credentials) e;
  serves = (is_usable_iff r now).0 (find_first_sound (λ c. is_usable c now) _ e);
  handed_out = refl;
  first =
      All-sort _ _ _
        (first_is_least (pool_order now) (λ c. is_usable c now) _ r (sort-IsSorted _ _) e);
  stamped = refl;
}

-- A claim that succeeds, in a table whose ids are distinct, hands out a row of the endpoint that
-- may serve at `now`, with its derived status and the new time of use; no usable row of the
-- endpoint comes before it in the pool's order; and the table changes only in that row's time of
-- use.
pub claim-Claims :
    (name : Text) (now : ℕ) (db : Db) {c : Credential} {db' : Db}
    → IsKeyed db
    → claim name now now db ≡ (some c, db')
    → Claims name now db c db'
claim-Claims name now db {c} {db'} k h = elim (Option-cases (pick name now db)) [
  | inl e ↦ absurd (cc (h, claim-none name now db e))
  | inr (r, e) ↦
      let handed : claimed now r ≡ c = ground (arith, claim-some name now db e, h) in
      let stamp : touch r.id now db ≡ db' = ground (arith, claim-some name now db e, h) in
      subst₂ (Claims name now db) handed stamp (picked-Claims name now db k.distinct e)
]

-- A ready token that was used less recently, and has failed no more often, comes first.
pub least_used_precedes :
    (now : ℕ) (d r : Credential)
    → d.enabled ≡ true
    → r.enabled ≡ true
    → d.cooldown_until ≡ none
    → r.cooldown_until ≡ none
    → d.failure_count ≤ r.failure_count
    → coalesce d.last_used_at d.created_at < coalesce r.last_used_at r.created_at
    → precedes (pool_order now) d r ≡ true
unfolding precedes in_cooldown
least_used_precedes now d r ed er cd cr f u = rw (ed, er, cd, cr) (ground arith)

unfoldable pub touch_row : ℕ → ℕ → Credential → Credential
touch_row id now r = if r.id == id then record r { last_used_at = some now } else r

pub row-touch :
    (id now k : ℕ) (db : Db)
    → row k (touch id now db).credentials
      ≡ elim (row k db.credentials) [ none ↦ none | some c ↦ some (touch_row id now c) ]
unfolding update_where has_id touch_row
row-touch id now k db = row-map (touch_row id now) (λ c. ground arith) k db.credentials

pub touch-IsKeyed : (id now : ℕ) (db : Db) → IsKeyed db → IsKeyed (touch id now db)
unfolding update_where has_id
touch-IsKeyed id now db k = record {
  distinct = map-Distinct _ (λ c. ground arith) db.credentials k.distinct;
  fresh =
      All-map _ _ _
        (All-weaken (λ c. c.id < db.next_id) _ db.credentials (λ c l. ground arith) k.fresh);
}

module _ {name : Text} {now later : ℕ} {db db' db'' : Db} {c c' : Credential}
    (one : Claims name now db c db') (two : Claims name later db' c' db'') where
  -- The second claim's source is the stamped row, if it has the first claim's id.
  source_again : c'.id ≡ c.id → two.source ≡ record one.source { last_used_at = some now }
  unfolding touch_row
  source_again e = ground (
    arith,
    row-touch one.source.id now one.source.id db,
    one.is_row,
    two.is_row,
    one.stamped,
    two.handed_out,
    one.handed_out,
  )

  unchanged_row :
      (d : Credential)
      → row d.id db.credentials ≡ some d
      → d.id ≢ c.id
      → row d.id db'.credentials ≡ some d
  unfolding touch_row
  unchanged_row d e other =
      ground (arith, row-touch one.source.id now d.id db, one.stamped, one.handed_out)

  not_before :
      (d : Credential)
      → row d.id db'.credentials ≡ some d
      → same d.endpoint_name name ≡ true
      → Serves d later
      → precedes (pool_order later) d two.source ≡ false
  unfolding of_endpoint
  not_before d e mine s =
      find_first-All
        (λ x.
          same x.endpoint_name name ≡ true
          → is_usable x later ≡ true
          → precedes (pool_order later) x two.source ≡ false)
        (λ x. x.id == d.id) db'.credentials (keep_if-All_iff _ _ _ two.first) e mine
        ((is_usable_iff d later).1 s)

  never_repeats :
      (d : Credential)
      → row d.id db.credentials ≡ some d
      → same d.endpoint_name name ≡ true
      → d.id ≢ c.id
      → Serves d later
      → d.cooldown_until ≡ none
      → c.cooldown_until ≡ none
      → d.failure_count ≤ c.failure_count
      → coalesce d.last_used_at d.created_at < now
      → c'.id ≢ c.id
  never_repeats d in_pool mine other s cd cr fails used e =
      let again = source_again e in
      let at_rest : two.source.cooldown_until ≡ none = ground (arith, again, one.handed_out) in
      let failures : d.failure_count ≤ two.source.failure_count =
        ground (arith, again, one.handed_out) in
      let older : coalesce d.last_used_at d.created_at
          < coalesce two.source.last_used_at two.source.created_at =
        ground (arith, again) in
      cc (
        not_before d (unchanged_row d in_pool other) mine s,
        least_used_precedes later d two.source s.is_on two.serves.is_on cd at_rest failures older,
      )

-- Rotation: a token that was claimed at `now` is passed over by the next claim while another token
-- of the endpoint may serve that has failed no more often and was last used before `now`, if neither
-- of the two rows has an end of a cooldown stored, be it over or not.
pub claim_rotates :
    (name : Text) (now later : ℕ) (db db' db'' : Db) (c c' d : Credential)
    → IsKeyed db
    → claim name now now db ≡ (some c, db')
    → claim name later later db' ≡ (some c', db'')
    → row d.id db.credentials ≡ some d
    → same d.endpoint_name name ≡ true
    → d.id ≢ c.id
    → Serves d later
    → d.cooldown_until ≡ none
    → c.cooldown_until ≡ none
    → d.failure_count ≤ c.failure_count
    → coalesce d.last_used_at d.created_at < now
    → c'.id ≢ c.id
claim_rotates name now later db db' db'' c c' d k h h' =
    let one = claim-Claims name now db k h in
    let k' : IsKeyed db' = rw one.stamped (touch-IsKeyed one.source.id now db k) in
    never_repeats one (claim-Claims name later db' k' h') d

-- A token none of whose rows may serve is not handed out.
pub claim-avoids :
    (name : Text) (id now : ℕ) (db db' : Db) (c : Credential)
    → All (λ r. r.id ≡ id → is_usable r now ≡ false) db.credentials
    → claim name now now db ≡ (some c, db')
    → c.id ≢ id
unfolding of_endpoint
claim-avoids name id now db db' c stopped h e = elim (Option-cases (pick name now db)) [
  | inl p ↦ cc (h, claim-none name now db p)
  | inr (r, p) ↦ cc (
    find_first_sound (λ x. is_usable x now) _ p,
    pick-of name now db (λ x. x.id ≡ id → is_usable x now ≡ false) (All-keep_if _ _ _ stopped) p
        (ground (arith, e, h, claim-some name now db p)),
  )
]
