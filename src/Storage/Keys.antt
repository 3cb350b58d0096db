-- ===== src/Storage/Keys.antt =====
-- Row ids are a primary key: distinct, and below the counter.
use osante_ai_proxy.Base.{
  ℕ, ◌<◌, ◌≡◌, refl, ◌≢◌, Bool, Option, none, some, List, [], ◌∷◌, ◌++◌, arith, inl, inr,
  Bool-cases, find_first, All, All-append, All-map, All-keep_if, All-weaken, keep_if, map, ◌==◌,
}
use osante_ai_proxy.Storage.Credential.{Credential}
use osante_ai_proxy.Storage.Pool.{Db}

abbrev pub Distinct : List Credential → Type 0
Distinct [] = Unit
Distinct (c ∷ cs) = All (λ d. d.id ≢ c.id) cs × Distinct cs

pub record IsKeyed (db : Db) : Type 0 where
  pub distinct : Distinct db.credentials
  pub fresh : All (λ c. c.id < db.next_id) db.credentials

-- The row with an id.
abbrev pub row : ℕ → List Credential → Option Credential
row id = find_first (λ c. c.id == id)

row-none : (id : ℕ) (cs : List Credential) → All (λ d. d.id ≢ id) cs → row id cs ≡ none
row-none id [] h = refl
row-none id (c ∷ cs) h = ground (arith, row-none id cs h.1)

-- Every row is the one with its id.
pub Distinct-rows : (cs : List Credential) → Distinct cs → All (λ c. row c.id cs ≡ some c) cs
Distinct-rows [] h = tt
Distinct-rows (c ∷ cs) h = (ground arith, ahead cs h.0 (Distinct-rows cs h.1))
  where
    ahead :
        (ds : List Credential)
        → All (λ d. d.id ≢ c.id) ds
        → All (λ d. row d.id cs ≡ some d) ds
        → All (λ d. row d.id (c ∷ cs) ≡ some d) ds
    ahead [] k l = tt
    ahead (d ∷ ds) k l = (ground arith, ahead ds k.1 l.1)

-- Any row with the id of a row is that row.
pub row_unique :
    (id : ℕ) (cs : List Credential) (r : Credential)
    → Distinct cs
    → row id cs ≡ some r
    → All (λ c. c.id ≡ id → c ≡ r) cs
row_unique id [] r h e = tt
row_unique id (c ∷ cs) r h e = elim (Bool-cases (c.id == id)) [
  | inl hit ↦ (
    (λ _. ground arith),
    All-weaken (λ d. d.id ≢ c.id) (λ d. d.id ≡ id → d ≡ r) cs (λ d k e'. absurd (ground arith)) h.0,
  )
  | inr miss ↦ ((λ k. absurd (ground arith)), row_unique id cs r h.1 (ground arith))
]

-- A change of rows that leaves their ids alone.
module _ (f : Credential → Credential) (same_id : (c : Credential) → (f c).id ≡ c.id) where
  pub map-Distinct : (cs : List Credential) → Distinct cs → Distinct (map f cs)
  map-Distinct [] h = tt
  map-Distinct (c ∷ cs) h = (
    All-map (λ d. d.id ≢ (f c).id) f cs
        (All-weaken (λ d. d.id ≢ c.id) (λ d. (f d).id ≢ (f c).id) cs
          (λ d k. ground (arith, same_id c, same_id d)) h.0),
    map-Distinct cs h.1,
  )

  pub row-map :
      (id : ℕ) (cs : List Credential)
      → row id (map f cs) ≡ elim (row id cs) [ none ↦ none | some c ↦ some (f c) ]
  row-map id [] = refl
  row-map id (c ∷ cs) = ground (arith, same_id c, row-map id cs)

pub keep_if-Distinct :
    (p : Credential → Bool) (cs : List Credential) → Distinct cs → Distinct (keep_if p cs)
keep_if-Distinct p [] h = tt
keep_if-Distinct p (c ∷ cs) h = elim (Bool-cases (p c)) [
  | inl hit ↦ rw hit (All-keep_if _ p cs h.0, keep_if-Distinct p cs h.1)
  | inr miss ↦ rw miss (keep_if-Distinct p cs h.1)
]

pub snoc-Distinct :
    (cs : List Credential) (x : Credential)
    → Distinct cs
    → All (λ d. d.id ≢ x.id) cs
    → Distinct (cs ++ x ∷ [])
snoc-Distinct [] x h k = (tt, tt)
snoc-Distinct (c ∷ cs) x h k =
    (All-append (λ d. d.id ≢ c.id) cs (x ∷ []) h.0 (ground arith, tt), snoc-Distinct cs x h.1 k.1)
