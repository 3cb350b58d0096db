-- ===== src/Proxy/Dedup.antt =====
-- internal/proxy/gitlabduo_dedup.go: one workflow for identical GitLab Duo requests in flight. An
-- entry (`*duoInflight`) is its place in the order of creation; a key is what
-- `computeInflightKey` gives. The requests that hold an entry run in any order: `run` takes the
-- calls of `acquire` and `publish` in the order in which they take the mutex.
use osante_ai_proxy.Base.{
  ℕ, ◌+◌, Bool, true, false, Option, none, some, [], Text, Table, lookup, insert, erase, text_eq,
  nat_eq,
}

-- `duoInflightResult`
pub data Result : Type 0 where
  answer failure : Text → Result

-- `duoInflightRegistry`, with the entries made so far and the results that their channels were closed
-- with.
pub record Registry : Type 0 where
  pub calls : Table Text ℕ
  pub results : Table ℕ Result
  pub made : ℕ

abbrev pub new_registry : Registry
new_registry = record { calls = []; results = []; made = 0 }

-- `acquire`: the entry, whether the caller is the leader, and the registry.
unfoldable pub acquire : Text → Registry → ℕ × Bool × Registry
acquire key r = elim (lookup key r.calls) [
  | some id ↦ (id, false, r)
  | none ↦ (r.made, true, record r { calls = insert key r.made r.calls; made = r.made + 1 })
]

-- `publish`
unfoldable pub publish : Text → ℕ → Result → Registry → Registry
publish key id result r = record r {
  calls = erase key r.calls;
  results = insert id result r.results;
}

-- What a request that waits on an entry reads, once the channel is closed.
unfoldable pub await : ℕ → Registry → Option Result
await id r = lookup id r.results
