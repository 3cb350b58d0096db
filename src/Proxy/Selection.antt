-- ===== src/Proxy/Selection.antt =====
-- The endpoint that a request gets, and the moves of the current index.
use osante_ai_proxy.Base.{
  ℕ, zero, suc, ◌+◌, ◌%◌, ◌<◌, ◌≡◌, refl, ◌≢◌, Bool, true, false, Option, none, some, List, [], ◌∷◌,
  Text, arith, length, ◌==◌, Bool-cases, ◌∙◌, ap, inl, inr, sym, Option-cases, same, same_iff,
}
use native.Mathlib.Nat.{mod-add-mod, mod-eq_of_lt}
use osante_ai_proxy.Proxy.Endpoint.{Endpoint, no_endpoint, enabled_endpoints}
use osante_ai_proxy.Proxy.Runtime.{States, check_cooldown, is_cooling}
use osante_ai_proxy.Proxy.Rotation.{
  endpoint_at, current_endpoint, search_from, request_endpoint, rotate, set_current, position,
}
use osante_ai_proxy.Proxy.Cooling.{check_cooldown-answer, check_cooldown-view}

module _ (eps : List Endpoint) (now : ℕ) where
  -- The endpoint `k` places after `idx`, round the list.
  abbrev pub at_turn : ℕ → ℕ → Endpoint
  at_turn idx k = endpoint_at eps ((idx + k) % length eps)

  abbrev pub cools : States → ℕ → ℕ → Bool
  cools m idx k = is_cooling (at_turn idx k).name now m

  -- What the search of `n` rounds from `idx` found: the first endpoint round the list that is not in
  -- cooldown, or that all of them are.
  pub data Found (m : States) (idx n : ℕ) (r : Option (ℕ × Endpoint)) : Type 0 where
    hit :
        (k : ℕ)
        → k < n
        → cools m idx k ≡ false
        → ((j : ℕ) → j < k → cools m idx j ≡ true)
        → r ≡ some ((idx + k) % length eps, at_turn idx k)
        → Found m idx n r
    miss : ((j : ℕ) → j < n → cools m idx j ≡ true) → r ≡ none → Found m idx n r

  cools_first :
      (m : States) (idx : ℕ)
      → (check_cooldown (endpoint_at eps (idx % length eps)).name now m).0 ≡ cools m idx 0
  cools_first m idx =
      check_cooldown-answer _ now m
      ∙ ap (λ (i : ℕ). is_cooling (endpoint_at eps (i % length eps)).name now m) (omega arith)

  pub search_from-view :
      (n idx : ℕ) (m : States) (other : Text)
      → is_cooling other now (search_from eps now n idx m).1 ≡ is_cooling other now m
  unfolding search_from
  search_from-view zero idx m other = refl
  search_from-view (suc n) idx m other =
      let name = (endpoint_at eps (idx % length eps)).name in
      let checked = check_cooldown name now m in
      elim (Bool-cases checked.0) [
        | inl e ↦ rw e (
            search_from-view n (idx + 1) checked.1 other
            ∙ check_cooldown-view name other now now m (omega arith))
        | inr e ↦ rw e (check_cooldown-view name other now now m (omega arith))
      ]

  later_turn :
      (idx k : ℕ) (m : States) (name : Text)
      → cools (check_cooldown name now m).1 (idx + 1) k ≡ cools m idx (suc k)
  later_turn idx k m name =
      check_cooldown-view name (at_turn (idx + 1) k).name now now m (omega arith)
      ∙ ap (λ (i : ℕ). is_cooling (endpoint_at eps (i % length eps)).name now m) (omega arith)

  all_turns :
      (m m' : States) (idx n : ℕ)
      → ((k : ℕ) → cools m' (idx + 1) k ≡ cools m idx (suc k))
      → cools m idx 0 ≡ true
      → ((j : ℕ) → j < n → cools m' (idx + 1) j ≡ true)
      → (j : ℕ) → j < suc n
      → cools m idx j ≡ true
  all_turns m m' idx n shift e h zero l = e
  all_turns m m' idx n shift e h (suc j) l = sym (shift j) ∙ h j (omega arith)

  extend :
      (m m' : States) (idx n : ℕ) (r : Option (ℕ × Endpoint))
      → ((k : ℕ) → cools m' (idx + 1) k ≡ cools m idx (suc k))
      → cools m idx 0 ≡ true
      → Found m' (idx + 1) n r
      → Found m idx (suc n) r
  extend m m' idx n r shift e (hit k l c before found) =
      hit (suc k) (omega arith) (sym (shift k) ∙ c) (all_turns m m' idx k shift e before) (
        found
        ∙ ap
            (λ (i : ℕ).
              let at : Option (ℕ × Endpoint) =
                some (i % length eps, endpoint_at eps (i % length eps)) in
              at)
            (omega arith))
  extend m m' idx n r shift e (miss all none_left) =
      miss (all_turns m m' idx n shift e all) none_left

  pub search_from-Found : (n idx : ℕ) (m : States) → Found m idx n (search_from eps now n idx m).0
  unfolding search_from
  search_from-Found zero idx m = miss (λ j h. elim h [ ]) refl
  search_from-Found (suc n) idx m =
      let name = (endpoint_at eps (idx % length eps)).name in
      let checked = check_cooldown name now m in
      elim (Bool-cases checked.0) [
        | inl e ↦ rw e (
            extend m checked.1 idx n _ (λ k. later_turn idx k m name) (sym (cools_first m idx) ∙ e)
              (search_from-Found n (idx + 1) checked.1))
        | inr e ↦ rw e (
            hit 0 (omega arith) (sym (cools_first m idx) ∙ e) (λ j l. elim l [ ])
              (ap
                (λ (i : ℕ).
                  let at : Option (ℕ × Endpoint) =
                    some (i % length eps, endpoint_at eps (i % length eps)) in
                  at)
                (omega arith)))
      ]

-- A request gets the first enabled endpoint, round the list from the current index, that is not in
-- cooldown, and the current index moves to it; when all of them are in cooldown, or none is enabled,
-- it gets no endpoint and the index stays.
pub data Served (eps : List Endpoint) (now index : ℕ) (m : States) (r : Endpoint × ℕ) : Type 0 where
  served :
      (k : ℕ)
      → k < length eps
      → cools eps now m (index % length eps) k ≡ false
      → ((j : ℕ) → j < k → cools eps now m (index % length eps) j ≡ true)
      → r ≡ (at_turn eps now (index % length eps) k, (index % length eps + k) % length eps)
      → Served eps now index m r
  exhausted :
      ((j : ℕ) → j < length eps → cools eps now m (index % length eps) j ≡ true)
      → r ≡ (no_endpoint, index)
      → Served eps now index m r

Found-Served :
    (eps : List Endpoint) (now index : ℕ) (m : States) (o : Option (ℕ × Endpoint))
    → Found eps now m (index % length eps) (length eps) o
    → Served eps now index m (elim o [ none ↦ (no_endpoint, index) | some (i, ep) ↦ (ep, i) ])
Found-Served eps now index m none (hit k l c before e) = absurd (cc)
Found-Served eps now index m (some (i, ep)) (hit k l c before e) =
    served k l c before (ground arith)
Found-Served eps now index m none (miss all e) = exhausted all refl
Found-Served eps now index m (some x) (miss all e) = absurd (cc)

-- A request gets the first enabled endpoint, round the list from the current index, that is not in
-- cooldown, and the current index moves to it; when all of them are in cooldown, or none is
-- enabled, it gets no endpoint and the index stays.
pub request_endpoint-Served :
    (configured : List Endpoint) (now index : ℕ) (m : States)
    → let r = request_endpoint configured now index m in
      Served (enabled_endpoints configured) now index m (r.0, r.1)
unfolding request_endpoint
request_endpoint-Served configured now index m =
    let eps = enabled_endpoints configured in
    let n = length eps in
    let found = search_from-Found eps now n (index % n) m in
    elim (Bool-cases (n == 0)) [
      | inl e ↦ rw e (exhausted (λ j l. absurd (ground arith)) refl)
      | inr e ↦ elim (Option-cases (search_from eps now n (index % n) m).0) [
        | inl f ↦ rw (e, f) (Found-Served eps now index m none (rw f at found))
        | inr ((i, ep), f) ↦ rw (e, f) (Found-Served eps now index m (some (i, ep)) (rw f at found))
      ]
    ]

-- Choosing an endpoint changes no cooldown.
pub request_endpoint-view :
    (configured : List Endpoint) (now index : ℕ) (m : States) (other : Text)
    → is_cooling other now (request_endpoint configured now index m).2 ≡ is_cooling other now m
unfolding request_endpoint
request_endpoint-view configured now index m other =
    let eps = enabled_endpoints configured in
    let n = length eps in
    let same_view = search_from-view eps now n (index % n) m other in
    elim (Bool-cases (n == 0)) [
      | inl e ↦ rw e
      | inr e ↦ elim (Option-cases (search_from eps now n (index % n) m).0) [
        | inl f ↦ rw (e, f) same_view
        | inr (found, f) ↦ rw (e, f) same_view
      ]
    ]

-- `n` rotations in a row.
unfoldable rotations : List Endpoint → ℕ → ℕ → ℕ
rotations configured zero index = index
rotations configured (suc n) index = rotations configured n (rotate configured index).1

turn_sum : (index n len : ℕ) → 0 < len → ((index % len + 1) % len + n) % len ≡ (index + suc n) % len
turn_sum index n len h =
    mod-add-mod (index % len + 1) len n
    ∙ ap (λ (i : ℕ). i % len) (omega arith)
    ∙ mod-add-mod index len (1 + n)
    ∙ ap (λ (i : ℕ). i % len) (omega arith)

-- With endpoints enabled, `n` rotations move the index `n` places on, round the enabled endpoints.
rotations-moves :
    (configured : List Endpoint) (n index : ℕ)
    → 0 < length (enabled_endpoints configured)
    → rotations configured n index % length (enabled_endpoints configured)
      ≡ (index + n) % length (enabled_endpoints configured)
unfolding rotations rotate
rotations-moves configured zero index h = ap (λ (i : ℕ). i % _) (omega arith)
rotations-moves configured (suc n) index h =
    let len = length (enabled_endpoints configured) in
    let moved : (rotate configured index).1 ≡ (index % len + 1) % len = ground arith in
    rotations-moves configured n (rotate configured index).1 h ∙ rw moved (turn_sum index n len h)

position_sound :
    (name : Text) (eps : List Endpoint) (i : ℕ)
    → position name eps ≡ some i
    → (endpoint_at eps i).name ≡ name
unfolding position endpoint_at
position_sound name [] i e = absurd (cc)
position_sound name (ep ∷ eps) zero e = elim (Bool-cases (same ep.name name)) [
  | inl h ↦ (same_iff ep.name name).0 h
  | inr h ↦ absurd (ground (arith, e, h))
]
position_sound name (ep ∷ eps) (suc i) e = position_sound name eps i (ground (arith, e))

position-lt :
    (name : Text) (eps : List Endpoint) (i : ℕ) → position name eps ≡ some i → i < length eps
unfolding position
position-lt name [] i e = absurd (cc)
position-lt name (ep ∷ eps) zero e = omega arith
position-lt name (ep ∷ eps) (suc i) e = omega (arith, position-lt name eps i (ground (arith, e)))

-- A manual switch that succeeds makes an endpoint of the given name current; the endpoint whose
-- requests it cancels is the old one, and only if that has another name.
pub set_current-current :
    (configured : List Endpoint) (target : Text) (index i : ℕ) (cancelled : Option Text)
    → set_current configured target index ≡ some (i, cancelled)
    → ((current_endpoint configured i).name ≡ target)
      × ((old : Text)
          → cancelled ≡ some old
          → (old ≡ (current_endpoint configured index).name) × (old ≢ target))
unfolding set_current current_endpoint
set_current-current configured target index i cancelled e =
    let eps = enabled_endpoints configured in
    let n = length eps in
    let old_name = (endpoint_at eps (index % n)).name in
    elim (Bool-cases (n == 0)) [
      | inl none_enabled ↦ absurd (ground (arith, e, none_enabled))
      | inr some_enabled ↦ elim (Option-cases (position target eps)) [
        | inl missing ↦ absurd (ground (arith, e, some_enabled, missing))
        | inr (j, p) ↦
            let at : position target eps ≡ some i = ground (arith, e, some_enabled, p) in
            (
              rw (some_enabled, mod-eq_of_lt (position-lt target eps i at))
                  (position_sound target eps i at),
              λ old c.
                  rw some_enabled (ground (arith, e, some_enabled, p, c, same_iff old_name target)),
            )
      ]
    ]
