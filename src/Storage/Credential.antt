-- ===== src/Storage/Credential.antt =====
-- internal/storage: one row of the token pool (interface.go) and its derived status
-- (credentials.go). Instants are nanoseconds since the epoch.
use osante_ai_proxy.Base.{
  ℕ, ◌+◌, ◌-◌, ◌*◌, Bool, true, false, Option, none, some, Text, ltb, leb, ◌&&◌, if◌then◌else◌, not,
  is_empty,
}

-- The status constants. `other` is any text that is none of them; the column is free text.
pub data Status : Type 0 where
  active expiring expired invalid cooldown disabled need_refresh : Status
  other : Text → Status

pub record Credential : Type 0 where
  pub id : ℕ
  pub endpoint_name : Text
  pub provider_type : Text
  pub account_id : Text
  pub email : Text
  pub access_token : Text
  pub refresh_token : Text
  pub id_token : Text
  pub last_refresh : Option ℕ
  pub expires_at : Option ℕ
  pub status : Status
  pub enabled : Bool
  pub failure_count : ℕ
  pub cooldown_until : Option ℕ
  pub last_checked_at : Option ℕ
  pub last_used_at : Option ℕ
  pub last_error : Text
  pub remark : Text
  pub created_at : ℕ
  pub updated_at : ℕ

abbrev pub second : ℕ
second = 1_000_000_000

abbrev pub minute : ℕ
minute = 60 * second

abbrev pub hour : ℕ
hour = 60 * minute

abbrev pub expiring_threshold : ℕ
expiring_threshold = 24 * hour

abbrev pub need_refresh_threshold : ℕ
need_refresh_threshold = 30 * minute

abbrev pub default_cooldown : ℕ
default_cooldown = 5 * minute

-- `cred.ExpiresAt != nil && !now.Before(*cred.ExpiresAt)`
unfoldable pub has_expired : Option ℕ → ℕ → Bool
has_expired none now = false
has_expired (some t) now = not (ltb now t)

-- `cred.CooldownUntil != nil && now.Before(*cred.CooldownUntil)`
unfoldable pub in_cooldown : Option ℕ → ℕ → Bool
in_cooldown none now = false
in_cooldown (some t) now = ltb now t

unfoldable pub is_invalid : Status → Bool
is_invalid invalid = true
is_invalid _ = false

-- The last test of `deriveCredentialStatus`, on a token that has not expired: `remaining` is
-- `t - now`, which is positive there.
unfoldable pub expiry_status : Option ℕ → Bool → ℕ → Status
expiry_status none refreshable now = active
expiry_status (some t) refreshable now =
    if leb (t - now) need_refresh_threshold && refreshable
    then need_refresh
    else if leb (t - now) expiring_threshold
    then expiring
    else active

-- `deriveCredentialStatus`
unfoldable pub derive_status : Credential → ℕ → Status
unfolding has_expired in_cooldown is_invalid expiry_status
derive_status c now =
    if not c.enabled
    then disabled
    else if has_expired c.expires_at now
    then expired
    else if in_cooldown c.cooldown_until now
    then cooldown
    else if is_invalid c.status
    then invalid
    else expiry_status c.expires_at (not (is_empty c.refresh_token)) now

-- The three statuses that `GetUsableEndpointCredential` accepts.
unfoldable pub is_usable_status : Status → Bool
is_usable_status active = true
is_usable_status expiring = true
is_usable_status need_refresh = true
is_usable_status _ = false

unfoldable pub is_usable : Credential → ℕ → Bool
unfolding is_usable_status derive_status
is_usable c now = is_usable_status (derive_status c now)

pub record TokenPoolStats : Type 0 where
  pub total : ℕ
  pub active : ℕ
  pub expiring : ℕ
  pub expired : ℕ
  pub invalid : ℕ
  pub cooldown : ℕ
  pub disabled : ℕ
  pub need_refresh : ℕ

abbrev pub no_stats : TokenPoolStats
no_stats = record {
  total = 0;
  active = 0;
  expiring = 0;
  expired = 0;
  invalid = 0;
  cooldown = 0;
  disabled = 0;
  need_refresh = 0;
}

unfoldable pub add_status : Status → TokenPoolStats → TokenPoolStats
add_status Status.disabled s = record s { disabled = s.disabled + 1 }
add_status Status.expired s = record s { expired = s.expired + 1 }
add_status Status.invalid s = record s { invalid = s.invalid + 1 }
add_status Status.cooldown s = record s { cooldown = s.cooldown + 1 }
add_status Status.need_refresh s = record s { need_refresh = s.need_refresh + 1 }
add_status Status.expiring s = record s { expiring = s.expiring + 1 }
add_status Status.active s = record s { active = s.active + 1 }
add_status (Status.other t) s = record s { active = s.active + 1 }

-- `classifyCredentialForStats`
unfoldable pub classify : TokenPoolStats → Credential → ℕ → TokenPoolStats
unfolding add_status derive_status
classify s c now = add_status (derive_status c now) (record s { total = s.total + 1 })
