-- ===== src/Proxy/Trace.antt =====
-- internal/proxy/trace.go: the ring of the last request traces. What a record holds does not matter to
-- the ring.
use osante_ai_proxy.Base.{
  ℕ, zero, suc, none, some, List, [], ◌∷◌, ◌++◌, length, get_elem?, drop, ltb, leb, ◌==◌, ◌||◌,
  if◌then◌else◌,
}

module _ {ℓ} {A : Type ℓ} where
  -- `push`
  unfoldable pub push : ℕ → A → List A → List A
  push size rec records =
      (if leb size (length records) then drop 1 records else records) ++ rec ∷ []

  -- `NewTraceRing` and then a `push` for each record, in their order.
  unfoldable pub push_all : ℕ → List A → List A → List A
  push_all size [] records = records
  push_all size (rec ∷ recs) records = push_all size recs (push size rec records)

  -- The loop of `Snapshot`, from index `i - 1` down.
  unfoldable pub collect : List A → ℕ → ℕ → List A → List A
  collect records zero limit out = out
  collect records (suc i) limit out =
      if ltb (length out) limit
      then elim (get_elem? records i) [
        | none ↦ out
        | some rec ↦ collect records i limit (out ++ rec ∷ [])
      ]
      else out

  -- `Snapshot`
  unfoldable pub snapshot : List A → ℕ → List A
  snapshot records limit =
      let n = length records in
      collect records n (if limit == 0 || ltb n limit then n else limit) []
