-- ===== src/Proxy/UsageLimit.antt =====
-- internal/proxy/usage_limit.go: until when a reached usage limit holds. The groups that the regular
-- expression finds in the body, and the instant that `time.Date` gives for an hour and a minute of the
-- present day of a time zone, are parameters.
use osante_ai_proxy.Base.{
  ℕ, ◌+◌, ◌*◌, Bool, Option, none, some, Text, text, to_lower, contains, same, ltb, leb, ◌==◌, ◌&&◌,
  ◌||◌, not, if◌then◌else◌,
}
use osante_ai_proxy.Storage.Credential.{minute}

abbrev pub hour_ns : ℕ
hour_ns = 60 * minute

abbrev pub day_ns : ℕ
day_ns = 24 * hour_ns

-- The groups of `usageLimitResetRe`: the offset has its sign, true for plus.
pub record Match : Type 0 where
  pub day_word : Text
  pub hour : ℕ
  pub minute_of : ℕ
  pub am_pm : Text
  pub offset : Option (Bool × ℕ)

-- The hour on the 24-hour clock.
unfoldable pub hour24 : Match → ℕ
hour24 m =
    if same (to_lower m.am_pm) (text "pm") && ltb m.hour 12
    then m.hour + 12
    else if same (to_lower m.am_pm) (text "am") && m.hour == 12
    then 0
    else m.hour

-- The zone: UTC (`none`), unless the offset has at most 14 hours.
unfoldable pub zone : Match → Option (Bool × ℕ)
zone m = elim m.offset [
  | none ↦ none
  | some (sign, hours) ↦ if leb hours 14 then some (sign, hours) else none
]

abbrev pub Date : Type 0
Date = Option (Bool × ℕ) → ℕ → ℕ → ℕ → ℕ

-- The reset that a match tells, before it is checked.
unfoldable pub reset_of : Date → Match → ℕ → ℕ
reset_of date m now =
    let reset = date (zone m) now (hour24 m) m.minute_of in
    if same (to_lower m.day_word) (text "tomorrow")
    then reset + day_ns
    else if ltb now reset
    then reset
    else reset + day_ns

-- `parseUsageLimitCooldown`
unfoldable pub parse_cooldown : (Text → Option Match) → Date → Text → ℕ → ℕ
parse_cooldown find date body now =
    let fallback = now + 5 * hour_ns in
    if not (contains (to_lower body) (text "will reset")) then fallback else elim (find body) [
      | none ↦ fallback
      | some m ↦
          let until = reset_of date m now in
          if ltb 23 (hour24 m) || ltb 59 m.minute_of
          then fallback
          else if ltb now until && leb until (now + day_ns)
          then until
          else fallback
    ]
