-- ===== src/Storage/Status.antt =====
-- What the derived status of a credential says, and how the counters follow it.
use osante_ai_proxy.Base.{
  ℕ, ◌+◌, ◌≤◌, ◌<◌, ◌≡◌, refl, ◌≢◌, ◌↔◌, Bool, true, false, Option, none, some, List, [], ◌∷◌,
  length, count_if, arith, if◌then◌else◌,
}
use osante_ai_proxy.Storage.Credential.{
  Status, active, invalid, other, Credential, derive_status, expiry_status, has_expired,
  in_cooldown, is_invalid, is_usable, is_usable_status, TokenPoolStats, add_status, classify,
}
use osante_ai_proxy.Storage.Pool.{classify_all}

-- The conditions on a token that may serve a request at `now`.
pub record Serves (c : Credential) (now : ℕ) : Type 0 where
  pub is_on : c.enabled ≡ true
  pub unexpired : (t : ℕ) → c.expires_at ≡ some t → now < t
  pub rested : (t : ℕ) → c.cooldown_until ≡ some t → t ≤ now
  pub trusted : c.status ≢ invalid

has_expired_iff :
    (o : Option ℕ) (now : ℕ) → (has_expired o now ≡ false) ↔ ((t : ℕ) → o ≡ some t → now < t)
unfolding has_expired
has_expired_iff none now = (λ _ t e. cc, λ _. refl)
has_expired_iff (some t) now = (λ h s e. ground arith, λ h. ground (arith, h t refl))

in_cooldown_iff :
    (o : Option ℕ) (now : ℕ) → (in_cooldown o now ≡ false) ↔ ((t : ℕ) → o ≡ some t → t ≤ now)
unfolding in_cooldown
in_cooldown_iff none now = (λ _ t e. cc, λ _. refl)
in_cooldown_iff (some t) now = (λ h s e. ground arith, λ h. ground (arith, h t refl))

is_invalid_iff : (s : Status) → (is_invalid s ≡ false) ↔ (s ≢ invalid)
unfolding is_invalid
is_invalid_iff invalid = (λ h. cc, λ h. absurd (h refl))
is_invalid_iff active = (λ _ e. cc, λ _. refl)
is_invalid_iff _ = (λ _ e. cc, λ _. refl)

expiry_status-usable :
    (o : Option ℕ) (b : Bool) (now : ℕ) → is_usable_status (expiry_status o b now) ≡ true
unfolding expiry_status is_usable_status
expiry_status-usable none b now = refl
expiry_status-usable (some t) b now = ground arith

abbrev is_other : Status → Bool
is_other (other t) = true
is_other _ = false

-- The four tests that stop a token, in one equation.
pub is_usable_lem :
    (c : Credential) (now : ℕ)
    → (is_usable c now ≡ true) ↔ (
        (c.enabled ≡ true)
        × (has_expired c.expires_at now ≡ false)
        × (in_cooldown c.cooldown_until now ≡ false)
        × (is_invalid c.status ≡ false))
unfolding is_usable
is_usable_lem c now =
    (λ h. (ground arith, ground arith, ground arith, ground arith), λ h. ground arith)

-- A token is usable exactly when it is enabled, not past its expiry, not in cooldown, and not marked
-- invalid.
pub is_usable_iff : (c : Credential) (now : ℕ) → (is_usable c now ≡ true) ↔ Serves c now
is_usable_iff c now = (forth, back)
  where
    forth : is_usable c now ≡ true → Serves c now
    forth h =
        let p = (is_usable_lem c now).0 h in
        record {
          is_on = p.0;
          unexpired = (has_expired_iff c.expires_at now).0 p.1;
          rested = (in_cooldown_iff c.cooldown_until now).0 p.2;
          trusted = (is_invalid_iff c.status).0 p.3;
        }

    back : Serves c now → is_usable c now ≡ true
    back s = (is_usable_lem c now).1 (
      s.is_on,
      (has_expired_iff c.expires_at now).1 s.unexpired,
      (in_cooldown_iff c.cooldown_until now).1 s.rested,
      (is_invalid_iff c.status).1 s.trusted,
    )

-- A row with its derived status in the status column, as the query returns it, is usable at that
-- instant exactly when the row was.
pub is_usable-derived :
    (c : Credential) (now : ℕ)
    → is_usable (record c { status = derive_status c now }) now ≡ is_usable c now
unfolding is_usable
is_usable-derived c now = ground arith

abbrev pub sum_of : TokenPoolStats → ℕ
sum_of s = s.active + s.expiring + s.expired + s.invalid + s.cooldown + s.disabled + s.need_refresh

abbrev pub usable_of : TokenPoolStats → ℕ
usable_of s = s.active + s.expiring + s.need_refresh

add_status-counts :
    (st : Status) (s : TokenPoolStats)
    → is_other st ≡ false
    → (sum_of (add_status st s) ≡ sum_of s + 1)
      × (usable_of (add_status st s) ≡ usable_of s + (if is_usable_status st then 1 else 0))
      × ((add_status st s).total ≡ s.total)
unfolding add_status is_usable_status
add_status-counts active s h = omega arith
add_status-counts _ s h = ground arith

derive_status-known : (c : Credential) (now : ℕ) → is_other (derive_status c now) ≡ false
unfolding derive_status
derive_status-known c now = ground arith

-- One credential is counted once in the total and once in the category of its status.
classify-counts :
    (s : TokenPoolStats) (c : Credential) (now : ℕ)
    → (sum_of (classify s c now) ≡ sum_of s + 1)
      × (usable_of (classify s c now) ≡ usable_of s + (if is_usable c now then 1 else 0))
      × ((classify s c now).total ≡ s.total + 1)
unfolding classify is_usable
classify-counts s c now = add_status-counts (derive_status c now) _ (derive_status-known c now)

pub classify_all-counts :
    (now : ℕ) (s : TokenPoolStats) (cs : List Credential)
    → (sum_of (classify_all now s cs) ≡ sum_of s + length cs)
      × (usable_of (classify_all now s cs) ≡ usable_of s + count_if (λ c. is_usable c now) cs)
      × ((classify_all now s cs).total ≡ s.total + length cs)
unfolding classify_all
classify_all-counts now s [] = omega arith
classify_all-counts now s (c ∷ cs) =
    omega (arith, classify-counts s c now, classify_all-counts now (classify s c now) cs)
