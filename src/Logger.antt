-- ===== src/Logger.antt =====
-- The logger (internal/logger/logger.go): a ring of the latest entries and subscribers with bounded
-- channels. An entry's icon and level name follow from its level and are left out, like the debug file.
mod Kept
mod Tests
use osante_ai_proxy.Base.{
  ℕ, suc, ◌+◌, ◌-◌, Bool, true, false, Option, none, some, List, [], ◌∷◌, ◌++◌, map, Text, ltb, leb,
  length, drop, keep_if, Table, insert, erase, lookup, nat_eq, if◌then◌else◌,
}

-- A level is DEBUG, INFO, WARN or ERROR by its number.
abbrev pub debug_level : ℕ
debug_level = 0

abbrev pub info_level : ℕ
info_level = 1

-- `LogEntry`
pub record LogEntry : Type 0 where
  pub timestamp : ℕ
  pub level : ℕ
  pub message : Text

-- A buffered channel of Go.
pub record Channel : Type 0 where
  pub buffer : ℕ
  pub queue : List LogEntry

pub record Logger : Type 0 where
  pub entries : List LogEntry
  pub max_size : ℕ
  pub min_level : ℕ
  pub console_level : ℕ
  pub subs : Table ℕ Channel
  pub next_sub_id : ℕ
  -- What was printed to the console.
  pub console : List LogEntry

-- `NewLogger`
unfoldable pub new_logger : ℕ → Logger
new_logger max_size = record {
  entries = [];
  max_size = if ltb max_size 1 then 1000 else max_size;
  min_level = debug_level;
  console_level = info_level;
  subs = [];
  next_sub_id = 0;
  console = [];
}

-- `SetMinLevel`
unfoldable pub set_min_level : ℕ → Logger → Logger
set_min_level level l = record l { min_level = level }

-- `SetConsoleLevel`
unfoldable pub set_console_level : ℕ → Logger → Logger
set_console_level level l = record l { console_level = level }

-- `select { case ch <- entry: default: }`
unfoldable pub offer : LogEntry → Channel → Channel
offer e ch =
    if ltb (length ch.queue) ch.buffer then record ch { queue = ch.queue ++ e ∷ [] } else ch

-- The entries after one more: the oldest go when there are too many.
unfoldable pub add_entry : ℕ → LogEntry → List LogEntry → List LogEntry
add_entry max_size e entries =
    let all = entries ++ e ∷ [] in
    if ltb max_size (length all) then drop (length all - max_size) all else all

-- `Log`, with the formatted message and the time.
unfoldable pub log : LogEntry → Logger → Logger
unfolding offer add_entry
log e l = if ltb e.level l.min_level then l else record l {
  entries = add_entry l.max_size e l.entries;
  subs = map (λ (s : ℕ × Channel). (s.0, offer e s.1)) l.subs;
  console = if leb l.console_level e.level then l.console ++ e ∷ [] else l.console;
}

-- `Subscribe`
unfoldable pub subscribe : ℕ → Logger → ℕ × Logger
unfolding insert
subscribe buffer l =
    let id = l.next_sub_id + 1 in
    let ch : Channel = record { buffer = (if ltb buffer 1 then 64 else buffer); queue = [] } in
    (id, record l { next_sub_id = id; subs = insert id ch l.subs })

-- `Unsubscribe`
unfoldable pub unsubscribe : ℕ → Logger → Logger
unfolding erase
unsubscribe id l = record l { subs = erase id l.subs }

-- `GetLogsByLevel`
unfoldable pub logs_by_level : ℕ → Logger → List LogEntry
logs_by_level level l = keep_if (λ e. leb level e.level) l.entries

-- `Clear`
unfoldable pub clear : Logger → Logger
clear l = record l { entries = [] }
