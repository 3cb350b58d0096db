-- ===== src/Proxy/TableTests.antt =====
-- The proxy's tables, the resolver and the usage limits on small inputs.
use osante_ai_proxy.Base.{
  ◌+◌, ◌≡◌, ◌≤◌, ◌<◌, ◌≢◌, refl, Bool, true, false, none, some, List, [], ◌∷◌, Text, text, arith,
  same, ◌⊎◌, length, ◌*◌, to_lower, contains, drop, take, ltb, ◌-◌, ◌==◌, ◌||◌, if◌then◌else◌,
  lookup, insert, erase, ℕ, text_eq,
}
use osante_ai_proxy.Proxy.Trace.{push, push_all, collect, snapshot}
use osante_ai_proxy.Proxy.Traces.{newest_first, snapshot-push_all}
use osante_ai_proxy.Proxy.Endpoint.{Endpoint, enabled_endpoints}
use osante_ai_proxy.Proxy.Runtime.{States, is_cooling, check_cooldown, set_cooldown}
use osante_ai_proxy.Proxy.Rotation.{position, endpoint_at, set_current, current_endpoint}
use osante_ai_proxy.Proxy.Selection.{set_current-current}
use osante_ai_proxy.Proxy.Cooling.{check_cooldown-view}
use osante_ai_proxy.Proxy.Stats.{StatCall, record_error, record_success, get_stats, or_none}
use osante_ai_proxy.Proxy.Sums.{perform_all, successes, expected, counted, get_stats-calls}
use osante_ai_proxy.Proxy.Renames.{shown, after_rename, get_stats-rename_stats}
use osante_ai_proxy.Proxy.Stats.{rename_stats}
use osante_ai_proxy.Proxy.Dedup.{Registry, answer, new_registry, acquire, publish, await}
use osante_ai_proxy.Proxy.Leaders.{
  Flight, Step, joins, leads, publishes, Reachable, start, next, Inv, Reachable-Inv,
}
use osante_ai_proxy.Proxy.Waiters.{no_step, after_that, result_stays}
use osante_ai_proxy.Proxy.UsageLimit.{Match, Date, hour_ns, day_ns, hour24, zone, parse_cooldown}
use osante_ai_proxy.Proxy.Resets.{parse_cooldown-bounds, parse_cooldown-next}
use osante_ai_proxy.Proxy.Resolver.{Wish, resolve}
use osante_ai_proxy.Proxy.Wishes.{Sound, resolve-Sound}

abbrev endpoint : Text → Bool → Endpoint
endpoint name enabled = record {
  name = name;
  api_url = [];
  api_key = [];
  auth_mode = [];
  enabled = enabled;
  transformer = [];
  model = [];
  remark = [];
}

abbrev three : List Endpoint
three = endpoint (text "a") true ∷ endpoint (text "b") false ∷ endpoint (text "c") true ∷ []

abbrev cooled : States
cooled = set_cooldown (text "a") (some 50) [] []

check_cooldown-view_example :
    is_cooling (text "c") 80 (check_cooldown (text "a") 60 cooled).1
    ≡ is_cooling (text "c") 80 cooled
check_cooldown-view_example = check_cooldown-view (text "a") (text "c") 60 80 cooled (omega arith)

switched : set_current three (text "c") 0 ≡ some (1, some (text "a"))
unfolding set_current enabled_endpoints position same text endpoint_at
switched = refl

set_current_example :
    ((current_endpoint three 1).name ≡ text "c")
    × ((old : Text)
        → some (text "a") ≡ some old
        → (old ≡ (current_endpoint three 0).name) × (old ≢ text "c"))
set_current_example = set_current-current three (text "c") 0 1 (some (text "a")) switched

abbrev led : Registry
led = record { calls = (text "key", 0) ∷ []; results = []; made = 1 }

abbrev flown : Registry
flown = publish (text "key") 0 (answer (text "hi")) led

leader : acquire (text "key") new_registry ≡ (0, true, led)
unfolding acquire lookup insert
leader = refl

waiter : acquire (text "key") led ≡ (0, false, led)
unfolding acquire lookup same text
waiter = refl

abbrev in_the_air : Flight
in_the_air = record { registry = led; leaders = (text "key", 0) ∷ [] }

abbrev landed : Flight
landed = record { registry = flown; leaders = [] }

air-Reachable : Reachable in_the_air
air-Reachable =
    next (next start (leads (text "key") 0 new_registry led [] leader))
      (joins (text "key") 0 led led ((text "key", 0) ∷ []) waiter)

landing : Step in_the_air landed
landing = publishes (text "key") 0 (answer (text "hi")) led [] []

Reachable-Inv_example : Inv in_the_air
Reachable-Inv_example = Reachable-Inv air-Reachable

abbrev led_again : Registry
led_again = (acquire (text "key") flown).2

leader_again : acquire (text "key") flown ≡ (1, true, led_again)
unfolding acquire lookup publish erase same text
leader_again = refl

landed_answer : await 0 flown ≡ some (answer (text "hi"))
unfolding await lookup publish insert
landed_answer = refl

result_stays_example : await 0 led_again ≡ some (answer (text "hi"))
result_stays_example =
    result_stays 0 (answer (text "hi")) (next air-Reachable landing)
      (after_that no_step (leads (text "key") 1 flown led_again [] leader_again)) landed_answer

-- "will reset today at 3:30 pm", with the day from midnight on as the present day.
abbrev found : Match
found = record {
  day_word = text "today";
  hour = 3;
  minute_of = 30;
  am_pm = text "pm";
  offset = none;
}

abbrev midnight : Date
midnight z t hour minute = hour * hour_ns + minute * 60_000_000_000

abbrev body : Text
body = text "Usage limit reached, will reset today at 3:30 pm"

parse_cooldown-bounds_example :
    (7 < parse_cooldown (λ b. some found) midnight body 7)
    × (parse_cooldown (λ b. some found) midnight body 7 ≤ 7 + day_ns)
parse_cooldown-bounds_example = parse_cooldown-bounds (λ b. some found) midnight body 7

tells_reset : contains (to_lower body) (text "will reset") ≡ true
unfolding contains to_lower text
tells_reset = refl

not_tomorrow : same (to_lower (text "today")) (text "tomorrow") ≡ false
unfolding same to_lower text
not_tomorrow = refl

afternoon : hour24 found ≡ 15
unfolding hour24 same to_lower text
afternoon = refl

parse_cooldown-next_example :
    let reset = midnight (zone found) 7 (hour24 found) 30 in
    let until = parse_cooldown (λ b. some found) midnight body 7 in
    (7 < until) × (((reset ≤ 7) × (until ≡ reset + day_ns)) ⊎ ((7 < reset) × (until ≡ reset)))
parse_cooldown-next_example =
    parse_cooldown-next (λ b. some found) midnight body 7 found tells_reset refl not_tomorrow
      (omega (arith, afternoon)) (omega arith) (omega (arith, afternoon)) (omega (arith, afternoon))

abbrev wish : Wish
wish = record {
  ccn_header = [];
  name_header = [];
  model = text "@C/gpt";
  endpoint_query = [];
  ep_query = [];
}

resolve-Sound_example : Sound (λ ep. ep.api_key ≡ []) three wish (resolve wish three)
resolve-Sound_example = resolve-Sound (λ ep. ep.api_key ≡ []) three (refl, (refl, (refl, tt))) wish

abbrev shots : List ℕ
shots = 7 ∷ 8 ∷ 9 ∷ []

snapshot-push_all_example :
    let kept = newest_first (drop (length shots - 2) shots) in
    snapshot (push_all 2 shots []) 1
    ≡ take (if 1 == 0 || ltb (length kept) 1 then length kept else 1) kept
snapshot-push_all_example = snapshot-push_all 2 1 shots (omega arith)

last_traces : snapshot (push_all 2 shots []) 0 ≡ 9 ∷ 8 ∷ []
unfolding snapshot push_all push collect
last_traces = refl

-- Two days of one endpoint, a failed statement and an error of another endpoint.
abbrev calls : List StatCall
calls =
    record_success false (text "a") (text "2026-01-01") 10 20
    ∷ record_success false (text "a") (text "2026-01-02") 1 2
    ∷ record_error false (text "b") (text "2026-01-02")
    ∷ record_success true (text "a") (text "2026-01-02") 5 5
    ∷ record_success false (text "a") (text "2026-01-02") 3 4
    ∷ []

get_stats-calls_example :
    ((get_stats false (perform_all (text "pc") calls [])).0 ≡ successes calls)
    × (or_none (lookup (text "a") (get_stats false (perform_all (text "pc") calls [])).1)
        ≡ expected (text "a") calls)
get_stats-calls_example = get_stats-calls (text "pc") (text "a") calls

expected_calls :
    expected (text "a") calls
    ≡ record { requests = 3; errors = 0; input_tokens = 14; output_tokens = 26 }
unfolding expected counted same text
expected_calls = refl

get_stats-rename_stats_example :
    ((get_stats false (rename_stats (text "a") (text "b") (perform_all (text "pc") calls []))).0
      ≡ (get_stats false (perform_all (text "pc") calls [])).0)
    × (shown (text "b") (rename_stats (text "a") (text "b") (perform_all (text "pc") calls []))
        ≡ after_rename (text "a") (text "b") (text "b") (perform_all (text "pc") calls []))
unfolding same text
get_stats-rename_stats_example =
    get_stats-rename_stats (text "a") (text "b") (text "b") (perform_all (text "pc") calls []) refl
