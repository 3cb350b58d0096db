-- ===== src/Storage/Tests.antt =====
-- The store on a small pool.
use osante_ai_proxy.Base.{
  ℕ, ◌≡◌, ◌<◌, ◌≢◌, refl, true, false, Option, none, some, List, [], ◌∷◌, Text, text, arith, All,
  same, inr, map, ◌↔◌, length, count_if, find_first, ◌==◌,
}
use osante_ai_proxy.Storage.Credential.{
  has_expired, Credential, Status, active, invalid, cooldown, is_usable, has_expired, derive_status,
}
use osante_ai_proxy.Storage.Pool.{
  is_row, stored, save, set_enabled, Db, claim, mark_failure, mark_usage_limit, limited,
  earliest_cooldown, of_endpoint, pool_stats,
}
use osante_ai_proxy.Storage.Order.{sort, precedes}
use osante_ai_proxy.Storage.Credential.{in_cooldown, has_expired}
use osante_ai_proxy.Storage.Pool.{query, update_where, has_id, failed, earliest_in}
use osante_ai_proxy.Storage.Keys.{IsKeyed}
use osante_ai_proxy.Storage.Status.{Serves, is_usable_iff, sum_of, usable_of}
use osante_ai_proxy.Storage.Claims.{Claims, claim_rotates, claim-Claims, claim-none_iff}
use osante_ai_proxy.Storage.Cooldowns.{
  limited_token_not_claimed, limited_token_returns, mark_failure_keeps_statuses,
}
use osante_ai_proxy.Storage.Reactivation.{exhausted_until}
use osante_ai_proxy.Storage.Totals.{pool_stats_partition}
use osante_ai_proxy.Storage.Fairness.{IsLevel, IsLevelPool, used, claimed_ids, claimed_ids-all}
use osante_ai_proxy.Storage.History.{Call, saves, fails, enables, claims, run, step}
use osante_ai_proxy.Storage.Refusals.{keeps_refusal, refusal_lasts}

abbrev main : Text
main = text "main"

abbrev token : ℕ → Status → Option ℕ → Option ℕ → Credential
token id status until used = record {
  id = id;
  endpoint_name = main;
  provider_type = [];
  account_id = [];
  email = [];
  access_token = text "key";
  refresh_token = [];
  id_token = [];
  last_refresh = none;
  expires_at = none;
  status = status;
  enabled = true;
  failure_count = 0;
  cooldown_until = until;
  last_checked_at = none;
  last_used_at = used;
  last_error = [];
  remark = [];
  created_at = id;
  updated_at = id;
}

abbrev pool_of : List Credential → Db
pool_of cs = record { credentials = cs; usage = []; rate_limits = []; next_id = 10 }

abbrev resting : Credential
resting = token 3 cooldown (some 900) none

abbrev pool : Db
pool = pool_of (token 1 active none none ∷ token 2 active none none ∷ resting ∷ [])

abbrev pool_after : Db
pool_after = pool_of (token 1 active none (some 100) ∷ token 2 active none none ∷ resting ∷ [])

abbrev pool_later : Db
pool_later =
    pool_of (token 1 active none (some 100) ∷ token 2 active none (some 200) ∷ resting ∷ [])

pool-IsKeyed : IsKeyed pool
pool-IsKeyed = record { distinct = ground arith; fresh = ground arith }

first_claim : claim main 100 100 pool ≡ (some (token 1 active none (some 100)), pool_after)
unfolding claim query sort of_endpoint same text precedes in_cooldown is_usable update_where has_id
first_claim = refl

second_claim : claim main 200 200 pool_after ≡ (some (token 2 active none (some 200)), pool_later)
unfolding claim query sort of_endpoint same text precedes in_cooldown is_usable update_where has_id
second_claim = refl

Serves-second : Serves (token 2 active none none) 200
Serves-second = record {
  is_on = refl;
  unexpired = λ t e. absurd (cc);
  rested = λ t e. absurd (cc);
  trusted = λ e. absurd (cc);
}

claim_rotates_example : (token 2 active none (some 200)).id ≢ (token 1 active none (some 100)).id
unfolding same text
claim_rotates_example =
    claim_rotates main 100 200 pool pool_after pool_later (token 1 active none (some 100))
      (token 2 active none (some 200)) (token 2 active none none) pool-IsKeyed first_claim
      second_claim refl refl (ground arith) Serves-second refl refl (ground arith) (ground arith)

claim-Claims_example : Claims main 100 pool (token 1 active none (some 100)) pool_after
claim-Claims_example = claim-Claims main 100 pool pool-IsKeyed first_claim

abbrev drained : Db
drained = pool_of (resting ∷ [])

claim-none_iff_example :
    (claim main 100 100 drained ≡ (none, drained))
    ↔ All (λ c. is_usable c 100 ≡ false) (of_endpoint main drained)
claim-none_iff_example = claim-none_iff main 100 drained

drained-claim : claim main 100 100 drained ≡ (none, drained)
unfolding claim query sort of_endpoint same text precedes in_cooldown is_usable update_where has_id
drained-claim = refl

drained_until : earliest_cooldown main 100 100 drained ≡ some 900
unfolding earliest_cooldown earliest_in query sort of_endpoint same text
drained_until = refl

exhausted_until_example : claim main 500 500 drained ≡ (none, drained)
exhausted_until_example =
    exhausted_until main 100 100 900 500 drained drained-claim drained_until (omega arith)
      (omega arith)

-- Nothing of these brings a refused token back.
abbrev quiet_calls : List Call
quiet_calls =
    saves (token 7 active none none) 50
    ∷ fails 1 0 [] 150 150
    ∷ enables main 1 true 160
    ∷ claims (text "b") 170 170
    ∷ []

abbrev refused : Db
refused = run quiet_calls (mark_failure 1 403 [] 100 100 pool)

claim_after_refusal :
    claim main 200 203 refused
    ≡ (some (token 2 active none (some 200)), (claim main 200 203 refused).1)
unfolding claim query sort of_endpoint same text precedes in_cooldown is_usable update_where has_id
    mark_failure failed run step save set_enabled is_row stored
claim_after_refusal = refl

no_expiry :
    All
      (λ r. r.id ≡ 1 → has_expired r.expires_at 203 ≡ true → has_expired r.expires_at 200 ≡ true)
      refused.credentials
unfolding run step save set_enabled claim mark_failure update_where has_id failed has_expired query
    of_endpoint same text is_usable sort precedes is_row stored in_cooldown
no_expiry = (
  (λ _ e. absurd (cc (e))),
  ((λ _ e. absurd (cc (e))), ((λ _ e. absurd (cc (e))), ((λ _ e. absurd (cc (e))), tt))),
)

refusal_lasts_example : (token 2 active none (some 200)).id ≢ 1
unfolding keeps_refusal
refusal_lasts_example =
    refusal_lasts main 1 403 [] 100 100 200 203 quiet_calls pool (claim main 200 203 refused).1
      (token 2 active none (some 200)) (inr refl) (omega arith) (refl, (refl, (refl, (refl, tt))))
      (omega arith) no_expiry claim_after_refusal

abbrev limit_hit : Db
limit_hit = mark_usage_limit 1 [] 5000 100 100 pool

claim_after_limit :
    claim main 200 200 limit_hit
    ≡ (some (token 2 active none (some 200)), (claim main 200 200 limit_hit).1)
unfolding claim query sort of_endpoint same text precedes in_cooldown is_usable update_where has_id
    mark_usage_limit limited
claim_after_limit = refl

limited_token_example : (token 2 active none (some 200)).id ≢ 1
limited_token_example =
    limited_token_not_claimed main 1 [] 5000 100 100 200 pool (claim main 200 200 limit_hit).1
      (token 2 active none (some 200)) (omega arith) claim_after_limit

limited_token_returns_example :
    (is_usable (limited [] 5000 100 100 (token 1 invalid none none)) 5000 ≡ true)
    ↔ ((true ≡ true) × (has_expired none 5000 ≡ false))
limited_token_returns_example =
    limited_token_returns [] 5000 100 100 5000 (token 1 invalid none none) (omega arith)

mark_failure_keeps_example :
    map (λ c. derive_status c 300) (mark_failure 1 0 [] 100 100 pool).credentials
    ≡ map (λ c. derive_status c 300) pool.credentials
mark_failure_keeps_example =
    mark_failure_keeps_statuses 1 0 [] 100 100 300 pool (ground arith) (ground arith) (ground arith)

pool_stats_example :
    ((pool_stats main 100 100 pool).total ≡ length (of_endpoint main pool))
    × (sum_of (pool_stats main 100 100 pool) ≡ length (of_endpoint main pool))
    × (usable_of (pool_stats main 100 100 pool)
        ≡ count_if (λ c. is_usable c 100) (of_endpoint main pool))
pool_stats_example = pool_stats_partition main 100 pool

is_usable_example : (is_usable resting 1000 ≡ true) ↔ Serves resting 1000
is_usable_example = is_usable_iff resting 1000

-- A token whose cooldown is over comes after one that stores none and was used later.
past_cooldown_last :
    (claim main 200 200 (
      pool_of (
        record (token 1 active none none) { cooldown_until = some 50 }
        ∷ token 2 active none (some 150)
        ∷ []))).0
    ≡ some (token 2 active none (some 200))
unfolding claim query sort of_endpoint same text precedes in_cooldown is_usable
past_cooldown_last = refl

abbrev level_pool : Db
level_pool =
    pool_of (
      token 1 active none none ∷ token 2 active none (some 50) ∷ token 3 active none (some 20) ∷ [])

level_pool-IsKeyed : IsKeyed level_pool
level_pool-IsKeyed = record { distinct = ground arith; fresh = ground arith }

IsLevel-token :
    (id : ℕ) (u : Option ℕ)
    → used (token id active none u) < 100
    → IsLevel 0 100 (token id active none u)
IsLevel-token id u h = record {
  is_on = refl;
  at_rest = refl;
  lasting = refl;
  trusted = λ e. absurd (cc);
  same_fails = refl;
  before = h;
}

level_pool-IsLevel : IsLevelPool main 0 100 level_pool
level_pool-IsLevel = (
  (λ _. IsLevel-token 1 none (omega arith)),
  (
    (λ _. IsLevel-token 2 (some 50) (omega arith)),
    ((λ _. IsLevel-token 3 (some 20) (omega arith)), tt),
  ),
)

claimed_ids-all_example :
    find_first (λ id. id == 2) (claimed_ids main (100 ∷ 130 ∷ 160 ∷ []) level_pool) ≡ some 2
unfolding of_endpoint same text
claimed_ids-all_example =
    claimed_ids-all main 0 100 (100 ∷ 130 ∷ 160 ∷ []) level_pool (token 2 active none (some 50))
      level_pool-IsKeyed level_pool-IsLevel (ground arith) (ground arith) refl refl

claims_in_turn : claimed_ids main (100 ∷ 130 ∷ 160 ∷ []) level_pool ≡ 1 ∷ 3 ∷ 2 ∷ []
unfolding claimed_ids claim query sort of_endpoint same text precedes in_cooldown is_usable
    update_where has_id
claims_in_turn = refl
