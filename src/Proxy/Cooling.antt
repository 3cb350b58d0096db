-- ===== src/Proxy/Cooling.antt =====
-- The runtime state's map, seen through the cooldowns that it records.
use osante_ai_proxy.Base.{
  ℕ, ◌≡◌, refl, false, Option, none, some, [], ◌∷◌, Text, lookup, insert, text_eq, arith, All,
  count_if, if◌then◌else◌, ltb, same_iff, lookup-insert, lookup-erase, same, ◌≤◌, Option-cases,
  Bool-cases, inl, inr, ◌∙◌, ap, sym,
}
use osante_ai_proxy.Proxy.Runtime.{
  States, RuntimeState, state_for, set_cooldown, record_error, clear_error, check_cooldown, forget,
  clear_all, is_marked, is_cooling, cooling_at,
}

-- A view of the map after one entry is written.
insert-view :
    (name other : Text) (now : ℕ) (st : RuntimeState) (m : States)
    → is_cooling other now (insert name st m)
      ≡ (if same name other then cooling_at now (some st) else is_cooling other now m)
insert-view name other now st m = elim (Bool-cases (same name other)) [
  | inl e ↦ rw (lookup-insert name other, e)
  | inr e ↦ rw (lookup-insert name other, e)
]

-- Writing an entry that cools as the old one did changes no view.
insert-view_same :
    (name other : Text) (now : ℕ) (st : RuntimeState) (m : States)
    → cooling_at now (some st) ≡ is_cooling name now m
    → is_cooling other now (insert name st m) ≡ is_cooling other now m
insert-view_same name other now st m h = elim (Bool-cases (same name other)) [
  | inl e ↦
      rw (insert-view name other, e) (h ∙ ap (λ k. is_cooling k now m) ((same_iff name other).0 e))
  | inr e ↦ rw (insert-view name other, e)
]

-- The test answers whether the endpoint is in cooldown.
pub check_cooldown-answer :
    (name : Text) (now : ℕ) (m : States) → (check_cooldown name now m).0 ≡ is_cooling name now m
unfolding check_cooldown cooling_at
check_cooldown-answer name now m = ground arith

-- Clearing an expired cooldown on the way changes no answer, for any endpoint from then on.
pub check_cooldown-view :
    (name other : Text) (now later : ℕ) (m : States)
    → now ≤ later
    → is_cooling other later (check_cooldown name now m).1 ≡ is_cooling other later m
unfolding check_cooldown cooling_at
check_cooldown-view name other now later m h = by_entry (lookup name m) refl
  where
    unchanged :
        (check_cooldown name now m).1 ≡ m
        → is_cooling other later (check_cooldown name now m).1 ≡ is_cooling other later m
    unchanged e = ap (is_cooling other later) e

    by_end :
        (st : RuntimeState) (o : Option ℕ)
        → lookup name m ≡ some st
        → st.cooldown_until ≡ o
        → is_cooling other later (check_cooldown name now m).1 ≡ is_cooling other later m
    by_end st none e f = unchanged (ground (arith, e, f))
    by_end st (some until) e f = elim (Bool-cases (ltb now until)) [
      | inl ahead ↦ unchanged (ground (arith, e, f))
      | inr past ↦
          let cleared : RuntimeState = record st { cooldown_until = none; cooldown_reason = [] } in
          let entry : (check_cooldown name now m).1 ≡ insert name cleared m =
            ground (arith, e, f) in
          rw entry (insert-view_same name other later cleared m (rw e (ground (arith, f, past))))
    ]

    by_entry :
        (o : Option RuntimeState)
        → lookup name m ≡ o
        → is_cooling other later (check_cooldown name now m).1 ≡ is_cooling other later m
    by_entry none e = unchanged (ground (arith, e))
    by_entry (some st) e = by_end st st.cooldown_until e refl

-- A cooldown holds for its endpoint until its end, and leaves the others as they were.
pub set_cooldown-view :
    (name other reason : Text) (until now : ℕ) (m : States)
    → is_cooling other now (set_cooldown name (some until) reason m)
      ≡ (if same name other then ltb now until else is_cooling other now m)
unfolding set_cooldown cooling_at
set_cooldown-view name other reason until now m = insert-view name other now _ m

state_for-cooling :
    (name : Text) (now : ℕ) (m : States)
    → cooling_at now (some (state_for name m)) ≡ is_cooling name now m
unfolding state_for cooling_at
state_for-cooling name now m = ground arith

-- An error that is recorded changes no cooldown.
pub record_error-view :
    (name other msg : Text) (at now : ℕ) (m : States)
    → is_cooling other now (record_error name msg at m) ≡ is_cooling other now m
unfolding record_error
record_error-view name other msg at now m =
    insert-view_same name other now _ m (unfold cooling_at in (state_for-cooling name now m))

-- Nor does one that is cleared.
pub clear_error-view :
    (name other : Text) (now : ℕ) (m : States)
    → is_cooling other now (clear_error name m) ≡ is_cooling other now m
unfolding clear_error
clear_error-view name other now m = elim (Option-cases (lookup name m)) [
  | inl e ↦ rw (e, clear_error)
  | inr (st, e) ↦
      rw (e, clear_error)
        (insert-view_same name other now _ m (unfold cooling_at in (ap (cooling_at now) (sym e))))
]

pub forget-view :
    (name other : Text) (now : ℕ) (m : States)
    → is_cooling other now (forget name m)
      ≡ (if same name other then false else is_cooling other now m)
unfolding forget cooling_at
forget-view name other now m = elim (Bool-cases (same name other)) [
  | inl e ↦ rw (lookup-erase name other, e)
  | inr e ↦ rw (lookup-erase name other, e)
]

-- Wiping counts the endpoints that were in cooldown or in error, and leaves none so.
clear_all_lem :
    (m : States)
    → ((clear_all m).0 ≡ count_if (λ e. is_marked e.1) m)
      × All (λ e. is_marked e.1 ≡ false) (clear_all m).1
unfolding clear_all
clear_all_lem [] = (refl, tt)
clear_all_lem ((name, st) ∷ m) = ground (arith, clear_all_lem m)
