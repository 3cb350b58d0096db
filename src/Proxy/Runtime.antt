-- ===== src/Proxy/Runtime.antt =====
-- internal/proxy/usage_limit.go: the runtime state of the endpoints (cooldown, last error). The zero
-- `time.Time` is `none`; `now` is what `time.Now` shows during the call.
use osante_ai_proxy.Base.{
  ℕ, ◌+◌, Bool, true, false, Option, none, some, [], ◌∷◌, Text, Table, lookup, insert, erase,
  text_eq, ltb, if◌then◌else◌, is_some, ◌||◌,
}

-- `endpointRuntimeState`
pub record RuntimeState : Type 0 where
  pub cooldown_until : Option ℕ
  pub cooldown_reason : Text
  pub last_error : Text
  pub last_error_at : Option ℕ
  pub has_error : Bool

abbrev pub States : Type 0
States = Table Text RuntimeState

abbrev pub new_state : RuntimeState
new_state = record {
  cooldown_until = none;
  cooldown_reason = [];
  last_error = [];
  last_error_at = none;
  has_error = false;
}

-- `stateForEndpoint`: an entry is made on first use.
unfoldable pub state_for : Text → States → RuntimeState
state_for name m = elim (lookup name m) [ none ↦ new_state | some st ↦ st ]

-- `setEndpointCooldown`
unfoldable pub set_cooldown : Text → Option ℕ → Text → States → States
set_cooldown name until reason m =
    insert name (record (state_for name m) { cooldown_until = until; cooldown_reason = reason }) m

-- `recordEndpointError`
unfoldable pub record_error : Text → Text → ℕ → States → States
record_error name msg now m =
    insert name
      (record (state_for name m) { last_error = msg; last_error_at = some now; has_error = true }) m

-- `clearEndpointError`: an endpoint with no entry gets none.
unfoldable pub clear_error : Text → States → States
clear_error name m = elim (lookup name m) [
  | none ↦ m
  | some st ↦ insert name (record st { has_error = false }) m
]

-- `endpointInCooldown`: an expired cooldown is cleared on the way.
unfoldable pub check_cooldown : Text → ℕ → States → Bool × States
check_cooldown name now m = elim (lookup name m) [
  | none ↦ (false, m)
  | some st ↦ elim st.cooldown_until [
    | none ↦ (false, m)
    | some until ↦
        if ltb now until
        then (true, m)
        else (false, insert name (record st { cooldown_until = none; cooldown_reason = [] }) m)
  ]
]

-- `ForgetEndpointState`
unfoldable pub forget : Text → States → States
forget name m = erase name m

unfoldable pub is_marked : RuntimeState → Bool
is_marked st = is_some st.cooldown_until || st.has_error

unfoldable pub wiped : RuntimeState → RuntimeState
wiped st = record st {
  cooldown_until = none;
  cooldown_reason = [];
  has_error = false;
  last_error = [];
}

-- `ClearAllCooldowns`: the number of entries that were marked, and the wiped map.
unfoldable pub clear_all : States → ℕ × States
unfolding is_marked wiped
clear_all [] = (0, [])
clear_all ((name, st) ∷ m) =
    let (n, m') = clear_all m in ((if is_marked st then 1 else 0) + n, (name, wiped st) ∷ m')

unfoldable pub cooling_at : ℕ → Option RuntimeState → Bool
cooling_at now none = false
cooling_at now (some st) = elim st.cooldown_until [ none ↦ false | some until ↦ ltb now until ]

-- Whether an endpoint is in cooldown at `now`: a view of the map that changes nothing.
abbrev pub is_cooling : Text → ℕ → States → Bool
is_cooling name now m = cooling_at now (lookup name m)
