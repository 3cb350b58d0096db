-- ===== src/Logger/Tests.antt =====
-- A run of the logger.
use osante_ai_proxy.Base.{
  ℕ, ◌≡◌, refl, some, List, [], ◌∷◌, ◌++◌, text, take, lookup, nat_eq, arith,
}
use osante_ai_proxy.Logger.{LogEntry, Logger, new_logger, set_min_level, subscribe}
use osante_ai_proxy.Logger.Kept.{log_all, latest, accepted, log_all-subscribe}

abbrev entry : ℕ → ℕ → LogEntry
entry t level = record { timestamp = t; level = level; message = text "m" }

abbrev small : Logger
small = set_min_level 1 (new_logger 2)

abbrev calls : List LogEntry
calls = entry 1 2 ∷ entry 2 0 ∷ entry 3 1 ∷ entry 4 3 ∷ []

log_all-subscribe_example :
    ((log_all calls (subscribe 1 small).1).entries
      ≡ latest small.max_size (small.entries ++ accepted small.min_level calls))
    × (lookup (subscribe 1 small).0 (log_all calls (subscribe 1 small).1).subs
        ≡ some (record { buffer = 1; queue = take 1 (accepted small.min_level calls) }))
unfolding new_logger set_min_level
log_all-subscribe_example = log_all-subscribe calls 1 small (omega arith)

latest_two : (log_all calls small).entries ≡ entry 3 1 ∷ entry 4 3 ∷ []
unfolding log_all new_logger set_min_level
latest_two = refl
