-- ===== src/Storage/Fairness.antt =====
-- That `GetUsableEndpointCredential` hands out every token of a level pool in turn.
use osante_ai_proxy.Base.{
  ℕ, suc, ◌≤◌, ◌<◌, ◌≡◌, refl, ap, ◌≢◌, Bool, true, false, none, some, List, [], ◌∷◌, Text, same,
  length, length-keep_if, count_if, count_if-map, find_first, find_first-All, All, All-map,
  All-weaken, keep_if-All_iff, arith, leb, ◌==◌, ==_iff, ◌&&◌, &&_true, Bool-cases, Option-cases,
  inl, inr,
}
use osante_ai_proxy.Storage.Keys.{IsKeyed, row}
use osante_ai_proxy.Storage.Credential.{Credential, is_usable, invalid}
use osante_ai_proxy.Storage.Status.{Serves, is_usable_iff}
use osante_ai_proxy.Storage.Order.{precedes}
use osante_ai_proxy.Storage.Pool.{
  Db, claim, of_endpoint, coalesce, pool_order, update_where, has_id,
}
use osante_ai_proxy.Storage.Claims.{
  pick, claimed, touch, claim-none_iff, claim-none, claim-some, Claims, picked-Claims,
  least_used_precedes, touch-IsKeyed, touch_row, row-touch,
}

-- The time that the order of the pool goes by.
abbrev pub used : Credential → ℕ
used c = coalesce c.last_used_at c.created_at

-- A token of the endpoint that may serve at any time, whose row stores no end of a cooldown, with a
-- number of failures that is the pool's, and was last used before `t`.
pub record IsLevel (fails t : ℕ) (c : Credential) : Type 0 where
  pub is_on : c.enabled ≡ true
  pub at_rest : c.cooldown_until ≡ none
  pub lasting : c.expires_at ≡ none
  pub trusted : c.status ≢ invalid
  pub same_fails : c.failure_count ≡ fails
  pub before : used c < t

abbrev pub IsLevelPool : Text → ℕ → ℕ → Db → Type 0
IsLevelPool name fails t db =
    All (λ c. same c.endpoint_name name ≡ true → IsLevel fails t c) db.credentials

-- Times of claims, each after the one before and none before `t`.
abbrev pub Rising : ℕ → List ℕ → Type 0
Rising t [] = Unit
Rising t (now ∷ times) = (t ≤ now) × Rising (suc now) times

-- The ids of the tokens that claims at these times hand out.
unfoldable pub claimed_ids : Text → List ℕ → Db → List ℕ
claimed_ids name [] db = []
claimed_ids name (now ∷ times) db =
    let r = claim name now now db in
    elim r.0 [ none ↦ claimed_ids name times r.1 | some c ↦ c.id ∷ claimed_ids name times r.1 ]

-- The tokens of the endpoint that may be claimed before `d`, and `d`.
abbrev due : Text → Credential → Credential → Bool
due name d x = same x.endpoint_name name && leb (used x) (used d)

count_if_mono :
    (p q : Credential → Bool) (cs : List Credential)
    → ((x : Credential) → p x ≡ true → q x ≡ true)
    → count_if p cs ≤ count_if q cs
count_if_mono p q [] h = omega arith
count_if_mono p q (x ∷ cs) h = ground (arith, h x, count_if_mono p q cs h)

count_if-drops :
    (p q : Credential → Bool) (cs : List Credential) (s : Credential)
    → ((x : Credential) → p x ≡ true → q x ≡ true)
    → row s.id cs ≡ some s
    → p s ≡ false
    → q s ≡ true
    → count_if p cs < count_if q cs
count_if-drops p q [] s h e np nq = absurd (cc)
count_if-drops p q (x ∷ cs) s h e np nq = elim (Bool-cases (x.id == s.id)) [
  | inl hit ↦
      let here : x ≡ s = ground (arith, hit, e) in
      ground (arith, ap p here, ap q here, np, nq, count_if_mono p q cs h)
  | inr miss ↦
      let ih = count_if-drops p q cs s h (ground (arith, miss, e)) np nq in ground (arith, h x, ih)
]

IsLevel-Serves : (fails t now : ℕ) (c : Credential) → IsLevel fails t c → Serves c now
IsLevel-Serves fails t now c l = record {
  is_on = l.is_on;
  unexpired = λ u e. absurd (cc (l.lasting, e));
  rested = λ u e. absurd (cc (l.at_rest, e));
  trusted = l.trusted;
}

module _ (name : Text) (fails t now : ℕ) (db : Db) (k : IsKeyed db)
    (level : IsLevelPool name fails t db) (late : t ≤ now) (d : Credential)
    (mine : same d.endpoint_name name ≡ true) (in_pool : row d.id db.credentials ≡ some d) where
  IsLevel-d : IsLevel fails t d
  IsLevel-d =
      find_first-All (λ c. same c.endpoint_name name ≡ true → IsLevel fails t c) (λ c. c.id == d.id)
        db.credentials level in_pool mine

  touched-IsLevel :
      (id : ℕ) (c : Credential)
      → (same c.endpoint_name name ≡ true → IsLevel fails t c)
      → same (touch_row id now c).endpoint_name name ≡ true
      → IsLevel fails (suc now) (touch_row id now c)
  unfolding touch_row
  touched-IsLevel id c l = elim (Bool-cases (c.id == id)) [
    | inl hit ↦ rw hit (λ m.
        let old = l m in
        record {
          is_on = old.is_on;
          at_rest = old.at_rest;
          lasting = old.lasting;
          trusted = old.trusted;
          same_fails = old.same_fails;
          before = omega arith;
        })
    | inr miss ↦ rw miss (λ m.
        let old = l m in
        record {
          is_on = old.is_on;
          at_rest = old.at_rest;
          lasting = old.lasting;
          trusted = old.trusted;
          same_fails = old.same_fails;
          before = omega (arith, old.before, late);
        })
  ]

  -- Some token is claimed.
  finds_one : (r : Credential) × (pick name now db ≡ some r)
  unfolding of_endpoint
  finds_one = elim (Option-cases (pick name now db)) [
    | inl e ↦
        let none_usable = (claim-none_iff name now db).0 (claim-none name now db e) in
        let idle =
          find_first-All (λ c. same c.endpoint_name name ≡ true → is_usable c now ≡ false)
            (λ c. c.id == d.id) db.credentials
            (keep_if-All_iff (λ c. is_usable c now ≡ false)
              (λ (c : Credential). same c.endpoint_name name) db.credentials none_usable)
            in_pool mine in
        absurd (cc (idle, (is_usable_iff d now).1 (IsLevel-Serves fails t now d IsLevel-d)))
    | inr found ↦ found
  ]

  due_source :
      (c : Credential) (db' : Db) (one : Claims name now db c db') → due name d one.source ≡ true
  unfolding of_endpoint
  due_source c db' one =
      let r = one.source in
      let level_r : IsLevel fails t r =
        find_first-All (λ c. same c.endpoint_name name ≡ true → IsLevel fails t c)
          (λ c. c.id == r.id) db.credentials level one.is_row one.endpoint in
      let not_before : precedes (pool_order now) d r ≡ false =
        find_first-All
          (λ c.
            same c.endpoint_name name ≡ true
            → is_usable c now ≡ true
            → precedes (pool_order now) c r ≡ false)
          (λ c. c.id == d.id) db.credentials
          (keep_if-All_iff (λ c. is_usable c now ≡ true → precedes (pool_order now) c r ≡ false)
            (λ (c : Credential). same c.endpoint_name name) db.credentials one.first)
          in_pool mine ((is_usable_iff d now).1 (IsLevel-Serves fails t now d IsLevel-d)) in
      elim (Bool-cases (leb (used r) (used d))) [
        | inl ahead ↦ rw (one.endpoint, ahead) refl
        | inr behind ↦ absurd (
            cc (
              not_before,
              least_used_precedes now d r IsLevel-d.is_on level_r.is_on IsLevel-d.at_rest
                  level_r.at_rest (omega (arith, IsLevel-d.same_fails, level_r.same_fails))
                  (ground (arith, behind)),
            ))
      ]

  -- A token that was just claimed is not due before `d`.
  claimed_later :
      (id : ℕ) (x : Credential) → due name d (touch_row id now x) ≡ true → due name d x ≡ true
  unfolding touch_row
  claimed_later id x h = ground (arith, IsLevel-d.before, late)

  claimed_not_due : (r : Credential) → due name d (touch_row r.id now r) ≡ false
  unfolding touch_row
  claimed_not_due r = ground (arith, IsLevel-d.before, late)

  touch_drops :
      (s : Credential)
      → row s.id db.credentials ≡ some s
      → due name d s ≡ true
      → count_if (due name d) (touch s.id now db).credentials < count_if (due name d) db.credentials
  unfolding update_where has_id touch_row
  touch_drops s e h = omega (
    arith,
    count_if-drops (λ x. due name d (touch_row s.id now x)) (due name d) db.credentials s
        (claimed_later s.id) e (claimed_not_due s) h,
    count_if-map (due name d) (touch_row s.id now) db.credentials,
  )

  fewer_due :
      (r : Credential)
      → pick name now db ≡ some r
      → count_if (due name d) (touch r.id now db).credentials < count_if (due name d) db.credentials
  fewer_due r e =
      let one = picked-Claims name now db k.distinct e in
      rw one.stamped
        (touch_drops one.source one.is_row (due_source (claimed now r) (touch r.id now db) one))

  still_level : (id : ℕ) → IsLevelPool name fails (suc now) (touch id now db)
  unfolding update_where has_id touch_row
  still_level id =
      All-map (λ c. same c.endpoint_name name ≡ true → IsLevel fails (suc now) c) (touch_row id now)
        db.credentials
        (All-weaken (λ c. same c.endpoint_name name ≡ true → IsLevel fails t c)
          (λ c.
            same (touch_row id now c).endpoint_name name ≡ true
            → IsLevel fails (suc now) (touch_row id now c))
          db.credentials (λ c l. touched-IsLevel id c l) level)

  still_there : (id : ℕ) → id ≢ d.id → row d.id (touch id now db).credentials ≡ some d
  unfolding touch_row
  still_there id other = ground (arith, row-touch id now d.id db, in_pool)

due_itself : (name : Text) (d : Credential) → same d.endpoint_name name ≡ true → due name d d ≡ true
due_itself name d mine = rw mine (ground arith)

next_id :
    (name : Text) (now : ℕ) (times : List ℕ) (db : Db) (r : Credential)
    → claim name now now db ≡ (some (claimed now r), touch r.id now db)
    → claimed_ids name (now ∷ times) db ≡ r.id ∷ claimed_ids name times (touch r.id now db)
unfolding claimed_ids
next_id name now times db r e = rw (claimed_ids, e) (ap (λ x. r.id ∷ claimed_ids name times x.1) e)

-- The claims at rising times, with a token due among them.
claims_within :
    (name : Text) (fails t : ℕ) (times : List ℕ) (db : Db) (d : Credential)
    → IsKeyed db
    → IsLevelPool name fails t db
    → Rising t times
    → same d.endpoint_name name ≡ true
    → row d.id db.credentials ≡ some d
    → count_if (due name d) db.credentials ≤ length times
    → find_first (λ id. id == d.id) (claimed_ids name times db) ≡ some d.id
claims_within name fails t [] db d k level rising mine in_pool enough = absurd (
    omega (
      arith,
      enough,
      count_if-drops (λ x. false) (due name d) db.credentials d (λ x h. absurd (cc)) in_pool refl
          (due_itself name d mine),
    ))
claims_within name fails t (now ∷ times) db d k level rising mine in_pool enough =
    let found = finds_one name fails t now db k level rising.0 d mine in_pool in
    let r = found.0 in
    let step : claimed_ids name (now ∷ times) db
        ≡ r.id ∷ claimed_ids name times (touch r.id now db) =
      next_id name now times db r (claim-some name now db found.1) in
    rw step (elim (Bool-cases (r.id == d.id)) [
      | inl hit ↦ rw hit (ap some ((==_iff r.id d.id).0 hit))
      | inr miss ↦
          let other : r.id ≢ d.id = λ e. cc (miss, (==_iff r.id d.id).1 e) in
          rw miss (
            claims_within name fails (suc now) times (touch r.id now db) d
              (touch-IsKeyed r.id now db k)
              (still_level name fails t now db k level rising.0 d mine in_pool r.id) rising.1 mine
              (still_there name fails t now db k level rising.0 d mine in_pool r.id other)
              (omega (
                arith,
                enough,
                fewer_due name fails t now db k level rising.0 d mine in_pool r found.1,
              )))
    ])

-- Fairness: in a pool whose tokens are all enabled, not marked invalid, unexpiring and equally often
-- failed, whose rows store no end of a cooldown, be it over or not, with distinct ids, as many claims as
-- the pool has tokens, at rising times from one after their last uses on, hand every token of the pool
-- out at least once.
pub claimed_ids-all :
    (name : Text) (fails t : ℕ) (times : List ℕ) (db : Db) (d : Credential)
    → IsKeyed db
    → IsLevelPool name fails t db
    → Rising t times
    → length (of_endpoint name db) ≤ length times
    → same d.endpoint_name name ≡ true
    → row d.id db.credentials ≡ some d
    → find_first (λ id. id == d.id) (claimed_ids name times db) ≡ some d.id
unfolding of_endpoint
claimed_ids-all name fails t times db d k level rising enough mine in_pool =
    claims_within name fails t times db d k level rising mine in_pool (
      omega (
        arith,
        enough,
        length-keep_if (λ (c : Credential). same c.endpoint_name name) db.credentials,
        count_if_mono (due name d) (λ c. same c.endpoint_name name) db.credentials
            (λ x h. (&&_true (same x.endpoint_name name) (leb (used x) (used d)) h).0),
      ))
