-- ===== src/Storage/Totals.antt =====
-- The counters of `GetTokenPoolStats` against the pool.
use osante_ai_proxy.Base.{
  ℕ, ◌+◌, ◌≡◌, refl, Bool, List, [], ◌∷◌, arith, length, count_if, Text, length-map, count_if-map,
  ap, ◌∙◌,
}
use mathlib.Core.Path.{fun_ext}
use osante_ai_proxy.Storage.Order.{Term, sort, put}
use osante_ai_proxy.Storage.Credential.{is_usable, derive_status, no_stats}
use osante_ai_proxy.Storage.Status.{is_usable-derived, classify_all-counts, sum_of, usable_of}
use osante_ai_proxy.Storage.Pool.{Db, of_endpoint, pool_order, query, pool_stats}

module _ {A : Type 0} (ts : List (Term A)) where
  length-put : (x : A) (ys : List A) → length (put ts x ys) ≡ length ys + 1
  unfolding put
  length-put x [] = omega arith
  length-put x (y ∷ ys) = ground (arith, length-put x ys)

  length-sort : (xs : List A) → length (sort ts xs) ≡ length xs
  unfolding sort
  length-sort [] = refl
  length-sort (x ∷ xs) = omega (arith, length-put x (sort ts xs), length-sort xs)

  count_if-put :
      (p : A → Bool) (x : A) (ys : List A) → count_if p (put ts x ys) ≡ count_if p (x ∷ ys)
  unfolding put
  count_if-put p x [] = refl
  count_if-put p x (y ∷ ys) = ground (arith, count_if-put p x ys)

  count_if-sort : (p : A → Bool) (xs : List A) → count_if p (sort ts xs) ≡ count_if p xs
  unfolding sort
  count_if-sort p [] = refl
  count_if-sort p (x ∷ xs) = omega (arith, count_if-put p x (sort ts xs), count_if-sort p xs)

count-query :
    (name : Text) (now : ℕ) (db : Db)
    → count_if (λ c. is_usable c now) (query name now db)
      ≡ count_if (λ c. is_usable c now) (of_endpoint name db)
unfolding query
count-query name now db =
    count_if-map (λ c. is_usable c now) (λ c. record c { status = derive_status c now }) _
    ∙ ap (λ p. count_if p (sort (pool_order now) (of_endpoint name db)))
        (fun_ext (λ c. is_usable-derived c now))
    ∙ count_if-sort (pool_order now) (λ c. is_usable c now) (of_endpoint name db)

length-query :
    (name : Text) (now : ℕ) (db : Db) → length (query name now db) ≡ length (of_endpoint name db)
unfolding query
length-query name now db = length-map _ _ ∙ length-sort (pool_order now) (of_endpoint name db)

-- The pool's counters are a partition of the endpoint's tokens: the total is their number and the
-- sum of the seven categories, and active, expiring and need_refresh together count the tokens that
-- a claim would accept.
pub pool_stats_partition :
    (name : Text) (now : ℕ) (db : Db)
    → ((pool_stats name now now db).total ≡ length (of_endpoint name db))
      × (sum_of (pool_stats name now now db) ≡ length (of_endpoint name db))
      × (usable_of (pool_stats name now now db)
          ≡ count_if (λ c. is_usable c now) (of_endpoint name db))
unfolding pool_stats
pool_stats_partition name now db = omega (
  arith,
  classify_all-counts now no_stats (query name now db),
  length-query name now db,
  count-query name now db,
)
