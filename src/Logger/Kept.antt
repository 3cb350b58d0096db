-- ===== src/Logger/Kept.antt =====
-- What the ring and a subscriber hold after a sequence of entries.
use osante_ai_proxy.Base.{
  ℕ, zero, suc, ◌+◌, ◌-◌, ◌≤◌, ◌≡◌, refl, sym, ◌∙◌, ap, true, false, none, some, List, [], ◌∷◌,
  ◌++◌, append_assoc, append-nil, map, ltb, leb, not, length, length-append, length-drop, drop,
  take, keep_if, Table, insert, lookup, lookup-insert, nat_eq, ◌==◌, ==_iff, arith, Bool-cases, inl,
  inr, if◌then◌else◌,
}
use osante_ai_proxy.Logger.{LogEntry, Channel, Logger, log, offer, add_entry, subscribe}

-- A sequence of calls of `Log`.
unfoldable pub log_all : List LogEntry → Logger → Logger
unfolding log
log_all [] l = l
log_all (e ∷ es) l = log_all es (log e l)

-- The entries at or above a level.
abbrev pub accepted : ℕ → List LogEntry → List LogEntry
accepted level es = keep_if (λ e. not (ltb e.level level)) es

-- The latest `n` elements.
abbrev pub latest : ℕ → List LogEntry → List LogEntry
latest n xs = drop (length xs - n) xs

drop-append_le :
    (k : ℕ) (xs ys : List LogEntry) → k ≤ length xs → drop k (xs ++ ys) ≡ drop k xs ++ ys
drop-append_le zero xs ys h = refl
drop-append_le (suc k) [] ys h = absurd (omega (arith, h))
drop-append_le (suc k) (x ∷ xs) ys h = drop-append_le k xs ys (omega (arith, h))

drop-drop_add : (j k : ℕ) (xs : List LogEntry) → drop j (drop k xs) ≡ drop (k + j) xs
drop-drop_add j zero xs = let e : 0 + j ≡ j = omega arith in rw e refl
drop-drop_add zero (suc k) [] = let e : suc k + 0 ≡ suc (k + 0) = omega arith in rw e refl
drop-drop_add (suc j) (suc k) [] =
    let e : suc k + suc j ≡ suc (k + suc j) = omega arith in rw e refl
drop-drop_add j (suc k) (x ∷ xs) =
    let e : suc k + j ≡ suc (k + j) = omega arith in rw e (drop-drop_add j k xs)

add_entry-latest :
    (n : ℕ) (e : LogEntry) (xs : List LogEntry) → add_entry n e xs ≡ latest n (xs ++ e ∷ [])
unfolding add_entry
add_entry-latest n e xs = elim (Bool-cases (ltb n (length (xs ++ e ∷ [])))) [
  | inl over ↦ rw over refl
  | inr fits ↦
      let none_lost : length (xs ++ e ∷ []) - n ≡ 0 = ground (arith, fits) in
      rw (fits, none_lost) refl
]

-- The latest of a list whose front was already cut.
latest-latest : (n : ℕ) (xs ys : List LogEntry) → latest n (latest n xs ++ ys) ≡ latest n (xs ++ ys)
latest-latest n xs ys =
    let k = length xs - n in
    let front : latest n xs ++ ys ≡ drop k (xs ++ ys) =
      sym (drop-append_le k xs ys (omega arith)) in
    ap (latest n) front
    ∙ drop-drop_add (length (drop k (xs ++ ys)) - n) k (xs ++ ys)
    ∙ ap (λ m. drop m (xs ++ ys)) (omega (arith, length-drop k (xs ++ ys), length-append xs ys))

-- An entry at or above the level.
recorded : LogEntry → Logger → Logger
recorded e l = record l {
  entries = add_entry l.max_size e l.entries;
  subs = map (λ (s : ℕ × Channel). (s.0, offer e s.1)) l.subs;
  console = if leb l.console_level e.level then l.console ++ e ∷ [] else l.console;
}

log-above : (e : LogEntry) (l : Logger) → ltb e.level l.min_level ≡ false → log e l ≡ recorded e l
unfolding log recorded
log-above e l h = rw h refl

log-below : (e : LogEntry) (l : Logger) → ltb e.level l.min_level ≡ true → log e l ≡ l
unfolding log
log-below e l h = rw h refl

-- The ring after a sequence of entries.
log_all-entries :
    (es : List LogEntry) (l : Logger)
    → length l.entries ≤ l.max_size
    → (log_all es l).entries ≡ latest l.max_size (l.entries ++ accepted l.min_level es)
unfolding log_all recorded
log_all-entries [] l h =
    let none_lost : length l.entries - l.max_size ≡ 0 = omega (arith, h) in
    rw (append-nil l.entries, none_lost) refl
log_all-entries (e ∷ es) l h = elim (Bool-cases (ltb e.level l.min_level)) [
  | inl below ↦
      rw below (ap (λ m. (log_all es m).entries) (log-below e l below) ∙ log_all-entries es l h)
  | inr above ↦
      let n = l.max_size in
      let cut = add_entry-latest n e l.entries in
      let fits : length (add_entry n e l.entries) ≤ n =
        rw cut
          (omega (arith, length-drop (length (l.entries ++ e ∷ []) - n) (l.entries ++ e ∷ []))) in
      let rest = accepted l.min_level es in
      rw above (
        ap (λ m. (log_all es m).entries) (log-above e l above)
        ∙ log_all-entries es (recorded e l) fits
        ∙ ap (λ r. latest n (r ++ rest)) cut
        ∙ latest-latest n (l.entries ++ e ∷ []) rest
        ∙ ap (latest n) (append_assoc l.entries (e ∷ []) rest))
]

lookup-map :
    (k : ℕ) (f : Channel → Channel) (m : Table ℕ Channel) {ch : Channel}
    → lookup k m ≡ some ch
    → lookup k (map (λ (s : ℕ × Channel). (s.0, f s.1)) m) ≡ some (f ch)
unfolding lookup
lookup-map k f [] e = absurd (cc)
lookup-map k f ((j, c) ∷ m) {ch = ch} e = elim (Bool-cases (j == k)) [
  | inl hit ↦ rw hit (ap (λ o. elim o [ none ↦ none | some x ↦ some (f x) ]) (rw hit at e))
  | inr miss ↦ rw miss (lookup-map k f m (rw miss at e))
]

take-append_full : (n : ℕ) (xs ys : List LogEntry) → length xs ≡ n → take n (xs ++ ys) ≡ xs
take-append_full zero [] ys e = refl
take-append_full (suc n) [] ys e = absurd (omega (arith, e))
take-append_full zero (x ∷ xs) ys e = absurd (omega (arith, e))
take-append_full (suc n) (x ∷ xs) ys e =
    ap (λ r. x ∷ r) (take-append_full n xs ys (omega (arith, e)))

take_fits : (n : ℕ) (xs : List LogEntry) → length xs ≤ n → take n xs ≡ xs
take_fits zero [] h = refl
take_fits (suc n) [] h = refl
take_fits zero (x ∷ xs) h = absurd (omega (arith, h))
take_fits (suc n) (x ∷ xs) h = ap (λ r. x ∷ r) (take_fits n xs (omega (arith, h)))

-- A channel after more entries.
abbrev holding : List LogEntry → Channel → Channel
holding es ch = record ch { queue = take ch.buffer (ch.queue ++ es) }

holding-offer :
    (e : LogEntry) (es : List LogEntry) (ch : Channel)
    → length ch.queue ≤ ch.buffer
    → holding es (offer e ch) ≡ holding (e ∷ es) ch
unfolding offer
holding-offer e es ch h = elim (Bool-cases (ltb (length ch.queue) ch.buffer)) [
  | inl room ↦
      simp room
        (ap (λ r. record ch { queue = take ch.buffer r }) (append_assoc ch.queue (e ∷ []) es))
  | inr full ↦
      let at_end : length ch.queue ≡ ch.buffer = ground (arith, full, h) in
      simp full (
        ap (λ r. record ch { queue = r })
          (take-append_full ch.buffer ch.queue es at_end
            ∙ sym (take-append_full ch.buffer ch.queue (e ∷ es) at_end)))
]

offer_fits :
    (e : LogEntry) (ch : Channel)
    → length ch.queue ≤ ch.buffer
    → length (offer e ch).queue ≤ (offer e ch).buffer
unfolding offer
offer_fits e ch h = ground (arith, h, length-append ch.queue (e ∷ []))

log_all-subs :
    (es : List LogEntry) (l : Logger) (id : ℕ) (ch : Channel)
    → lookup id l.subs ≡ some ch
    → length ch.queue ≤ ch.buffer
    → lookup id (log_all es l).subs ≡ some (holding (accepted l.min_level es) ch)
unfolding log_all recorded
log_all-subs [] l id ch e h =
    e
    ∙ ap (λ r. some (record ch { queue = r }))
        (sym (take_fits ch.buffer ch.queue h) ∙ ap (take ch.buffer) (sym (append-nil ch.queue)))
log_all-subs (e ∷ es) l id ch here h = elim (Bool-cases (ltb e.level l.min_level)) [
  | inl below ↦ rw below (
      ap (λ m. lookup id (log_all es m).subs) (log-below e l below)
      ∙ log_all-subs es l id ch here h)
  | inr above ↦ rw above (
      ap (λ m. lookup id (log_all es m).subs) (log-above e l above)
      ∙ log_all-subs es (recorded e l) id (offer e ch) (lookup-map id (offer e) l.subs here)
          (offer_fits e ch h)
      ∙ ap some (holding-offer e (accepted l.min_level es) ch h))
]

-- After a subscription and any sequence of calls of Log, on a log that is not over its size: the log holds
-- the latest entries, as many as its size, of those it had and those since at or above the minimum level,
-- in order; and the subscriber's channel, while nothing is read from it, holds the first of the entries
-- since at or above that level, as many as its buffer, which is 64 when less than 1 was asked for.
pub log_all-subscribe :
    (es : List LogEntry) (buffer : ℕ) (l : Logger)
    → length l.entries ≤ l.max_size
    → ((log_all es (subscribe buffer l).1).entries
        ≡ latest l.max_size (l.entries ++ accepted l.min_level es))
      × (lookup (subscribe buffer l).0 (log_all es (subscribe buffer l).1).subs
          ≡ some (record {
            buffer = (if ltb buffer 1 then 64 else buffer);
            queue = take (if ltb buffer 1 then 64 else buffer) (accepted l.min_level es);
          }))
unfolding subscribe
log_all-subscribe es buffer l h =
    let size = if ltb buffer 1 then 64 else buffer in
    let id = l.next_sub_id + 1 in
    let ch : Channel = record { buffer = size; queue = [] } in
    let l1 = record l { next_sub_id = id; subs = insert id ch l.subs } in
    (
      log_all-entries es l1 h,
      log_all-subs es l1 id ch (lookup-insert id id ch l.subs ∙ rw ((==_iff id id).1 refl) refl)
          (omega arith),
    )
