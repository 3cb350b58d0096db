-- ===== src/Proxy/Resets.antt =====
-- The end of a usage-limit cooldown.
use osante_ai_proxy.Base.{
  ℕ, ◌+◌, ◌*◌, ◌<◌, ◌≤◌, ◌≡◌, refl, true, false, Option, some, Text, text, to_lower, contains, same,
  ltb, leb, arith, Bool-cases, Option-cases, inl, inr, ◌||◌, ◌&&◌, ◌⊎◌, if◌then◌else◌,
}
use osante_ai_proxy.Proxy.UsageLimit.{
  Match, Date, hour_ns, day_ns, hour24, zone, reset_of, parse_cooldown,
}

-- Whatever the body says, a cooldown ends after the present, and within a day of it.
pub parse_cooldown-bounds :
    (find : Text → Option Match) (date : Date) (body : Text) (now : ℕ)
    → (now < parse_cooldown find date body now) × (parse_cooldown find date body now ≤ now + day_ns)
unfolding parse_cooldown
parse_cooldown-bounds find date body now =
    elim (Bool-cases (contains (to_lower body) (text "will reset"))) [
      | inr e ↦ simp (parse_cooldown, e) (omega arith, omega arith)
      | inl e ↦ elim (Option-cases (find body)) [
        | inl f ↦ simp (parse_cooldown, e, f) (omega arith, omega arith)
        | inr (m, f) ↦ elim (Bool-cases (ltb 23 (hour24 m) || ltb 59 m.minute_of)) [
          | inl g ↦ simp (parse_cooldown, e, f, g) (omega arith, omega arith)
          | inr g ↦ simp (parse_cooldown, e, f, g) (within (reset_of date m now) (Bool-cases _))
        ]
      ]
    ]
  where
    within :
        (until : ℕ)
        → ((ltb now until && leb until (now + day_ns)) ≡ true)
          ⊎ ((ltb now until && leb until (now + day_ns)) ≡ false)
        → let r = if ltb now until && leb until (now + day_ns) then until else now + 5 * hour_ns in
          (now < r) × (r ≤ now + day_ns)
    within until (inl e) = rw e (ground (arith, e))
    within until (inr e) = rw e (omega arith, omega arith)

next_time :
    (reset now : ℕ)
    → now < reset + day_ns
    → reset ≤ now + day_ns
    → let until = if ltb now reset then reset else reset + day_ns in
      let r = if ltb now until && leb until (now + day_ns) then until else now + 5 * hour_ns in
      (now < r) × (((reset ≤ now) × (r ≡ reset + day_ns)) ⊎ ((now < reset) × (r ≡ reset)))
next_time reset now lo hi = elim (Bool-cases (ltb now reset)) [
  | inl e ↦
      let good : (ltb now reset && leb reset (now + day_ns)) ≡ true = ground (arith, e, hi) in
      rw e (rw good (ground (arith, e), inr (ground (arith, e), refl)))
  | inr e ↦
      let good : (ltb now (reset + day_ns) && leb (reset + day_ns) (now + day_ns)) ≡ true =
        ground (arith, e, lo) in
      rw e (rw good (lo, inl (ground (arith, e), refl)))
]

-- If the body names a time of day, which the present day of its zone has at most a day ahead and
-- less than a day ago, and does not say tomorrow, then the cooldown ends when the clock next shows
-- that time.
pub parse_cooldown-next :
    (find : Text → Option Match) (date : Date) (body : Text) (now : ℕ) (m : Match)
    → contains (to_lower body) (text "will reset") ≡ true
    → find body ≡ some m
    → same (to_lower m.day_word) (text "tomorrow") ≡ false
    → hour24 m < 24
    → m.minute_of < 60
    → now < date (zone m) now (hour24 m) m.minute_of + day_ns
    → date (zone m) now (hour24 m) m.minute_of ≤ now + day_ns
    → let reset = date (zone m) now (hour24 m) m.minute_of in
      let until = parse_cooldown find date body now in
      (now < until)
      × (((reset ≤ now) × (until ≡ reset + day_ns)) ⊎ ((now < reset) × (until ≡ reset)))
unfolding parse_cooldown reset_of
parse_cooldown-next find date body now m c f t h k lo hi =
    let late : (ltb 23 (hour24 m) || ltb 59 m.minute_of) ≡ false = ground (arith, h, k) in
    simp (parse_cooldown, c, f, late, t, reset_of)
      (next_time (date (zone m) now (hour24 m) m.minute_of) now lo hi)
