-- ===== src/Storage/Cooldowns.antt =====
-- What the marks on a token and the pool's earliest cooldown mean for the claims that follow.
use osante_ai_proxy.Base.{
  ℕ, ◌≤◌, ◌<◌, ◌≡◌, refl, ◌≢◌, ◌↔◌, Bool, true, false, some, List, [], ◌∷◌, arith, inl, inr, map,
  All, Text, All-map, if◌then◌else◌, ◌⊎◌, All-intro, Bool-cases,
}
use osante_ai_proxy.Storage.Credential.{Credential, derive_status, is_usable, has_expired}
use osante_ai_proxy.Storage.Pool.{
  Db, claim, update_where, has_id, mark_failure, failed, mark_usage_limit, limited,
}
use osante_ai_proxy.Storage.Claims.{claim-avoids}

module _ (test : Credential → Bool) (set : Credential → Credential) (db : Db) where
  pub update_where-All :
      (P : Credential → Type 0)
      → ((c : Credential) → test c ≡ true → P (set c))
      → ((c : Credential) → test c ≡ false → P c)
      → All P (update_where test set db).credentials
  unfolding update_where
  update_where-All P hit miss =
      All-map P _ db.credentials (All-intro _ db.credentials λ c. branch c (Bool-cases (test c)))
    where
      branch :
          (c : Credential) → (test c ≡ true) ⊎ (test c ≡ false) → P (if test c then set c else c)
      branch c (inl e) = rw e (hit c e)
      branch c (inr e) = rw e (miss c e)

  update_where-keeps :
      {B : Type 0} (g : Credential → B)
      → ((c : Credential) → g (set c) ≡ g c)
      → map g (update_where test set db).credentials ≡ map g db.credentials
  unfolding update_where
  update_where-keeps {B} g same_value = go db.credentials
    where
      go : (cs : List Credential) → map g (map (λ c. if test c then set c else c) cs) ≡ map g cs
      go [] = refl
      go (c ∷ cs) = ground (arith, same_value c, go cs)

-- The token fails the test of `has_id` and has the id: no such row.
pub has_id-false : (id : ℕ) (c : Credential) → has_id id c ≡ false → c.id ≢ id
unfolding has_id
has_id-false id c h = ground arith

derive_status-failed :
    (code : ℕ) (msg : Text) (now clock t : ℕ) (c : Credential)
    → code ≢ 401
    → code ≢ 403
    → code ≢ 429
    → derive_status (failed code msg now clock c) t ≡ derive_status c t
unfolding failed derive_status
derive_status-failed code msg now clock t c h k l = ground arith

-- A failure with any code but 401, 403 and 429, such as the 0 of a transport error, changes no
-- token's derived status, at any time: in particular it does not bring an invalid token back.
pub mark_failure_keeps_statuses :
    (id code : ℕ) (msg : Text) (now clock t : ℕ) (db : Db)
    → code ≢ 401
    → code ≢ 403
    → code ≢ 429
    → map (λ c. derive_status c t) (mark_failure id code msg now clock db).credentials
      ≡ map (λ c. derive_status c t) db.credentials
unfolding mark_failure
mark_failure_keeps_statuses id code msg now clock t db h k l =
    update_where-keeps (has_id id) (failed code msg now clock) db (λ c. derive_status c t)
      (λ c. derive_status-failed code msg now clock t c h k l)

limited-unusable :
    (msg : Text) (until now clock t : ℕ) (c : Credential)
    → t < until
    → is_usable (limited msg until now clock c) t ≡ false
unfolding limited is_usable
limited-unusable msg until now clock t c h = ground arith

-- The mark of a usage limit keeps its token from the next claim, if that is before the limit's
-- reset time.
pub limited_token_not_claimed :
    (name : Text) (id : ℕ) (msg : Text) (until now clock t : ℕ) (db db' : Db) (c : Credential)
    → t < until
    → claim name t t (mark_usage_limit id msg until now clock db) ≡ (some c, db')
    → c.id ≢ id
unfolding mark_usage_limit
limited_token_not_claimed name id msg until now clock t db db' c h =
    claim-avoids name id t _ db' c (
      update_where-All _ _ db (λ r. r.id ≡ id → is_usable r t ≡ false)
        (λ r _ _. limited-unusable msg until now clock t r h)
        (λ r miss e. absurd (has_id-false id r miss e)))

-- After its reset time a token that hit its usage limit may serve again, exactly if it is enabled
-- and has not expired, whatever its status was before.
pub limited_token_returns :
    (msg : Text) (until now clock t : ℕ) (c : Credential)
    → until ≤ t
    → (is_usable (limited msg until now clock c) t ≡ true)
      ↔ ((c.enabled ≡ true) × (has_expired c.expires_at t ≡ false))
unfolding limited is_usable
limited_token_returns msg until now clock t c h =
    (λ e. (ground arith, ground arith), λ e. ground arith)
