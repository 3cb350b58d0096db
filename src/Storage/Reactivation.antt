-- ===== src/Storage/Reactivation.antt =====
-- The instant until which an exhausted endpoint is put into cooldown (EarliestTokenCooldown).
use osante_ai_proxy.Base.{
  ℕ, ◌≤◌, ◌<◌, ◌≡◌, refl, Bool, true, false, Option, none, some, List, [], ◌∷◌, arith, inl, inr,
  map, All, Text, All-weaken, subst, min, ◌⊎◌, Bool-cases, if◌then◌else◌, ltb, ltb→lt,
}
use osante_ai_proxy.Storage.Order.{All-sort}
use osante_ai_proxy.Storage.Credential.{Credential, is_usable}
use osante_ai_proxy.Storage.Pool.{
  Db, claim, of_endpoint, pool_order, earliest_in, earlier, earliest_cooldown, query,
}
use osante_ai_proxy.Storage.Status.{Serves, is_usable_iff}
use osante_ai_proxy.Storage.Claims.{claim-none_iff}

-- `u` is at most the end of the cooldown of every enabled token that is in one at `now`.
abbrev Bounds : ℕ → ℕ → Credential → Type 0
Bounds now u c = c.enabled ≡ true → (v : ℕ) → c.cooldown_until ≡ some v → now < v → u ≤ v

earlier-some :
    (now t : ℕ) (c : Credential)
    → (v : ℕ) × (earlier now (some t) c ≡ some v) × (v ≤ t) × Bounds now v c
unfolding earlier
earlier-some now t c = step c.enabled c.cooldown_until refl refl
  where
    step :
        (b : Bool) (o : Option ℕ)
        → c.enabled ≡ b
        → c.cooldown_until ≡ o
        → (v : ℕ) × (earlier now (some t) c ≡ some v) × (v ≤ t) × Bounds now v c
    step false o e k = (t, ground arith, ground arith, λ h. cc)
    step true none e k = (t, ground arith, ground arith, λ h v f. cc)
    step true (some w) e k =
        (min (if ltb now w then w else t) t, ground arith, ground arith, λ h v f g. ground arith)

earlier-none :
    (now : ℕ) (c : Credential)
    → ((earlier now none c ≡ none) × ((u : ℕ) → Bounds now u c))
      ⊎ ((v : ℕ) × (earlier now none c ≡ some v) × Bounds now v c)
unfolding earlier
earlier-none now c = step c.enabled c.cooldown_until refl refl
  where
    step :
        (b : Bool) (o : Option ℕ)
        → c.enabled ≡ b
        → c.cooldown_until ≡ o
        → ((earlier now none c ≡ none) × ((u : ℕ) → Bounds now u c))
          ⊎ ((v : ℕ) × (earlier now none c ≡ some v) × Bounds now v c)
    step false o e k = inl (ground arith, λ u h. cc)
    step true none e k = inl (ground arith, λ u h v f. cc)
    step true (some w) e k = elim (Bool-cases (ltb now w)) [
      | inl ahead ↦ inr (w, ground arith, λ h v f g. ground arith)
      | inr past ↦ inl (ground arith, λ u h v f g. absurd (ground arith))
    ]

Bounds-weaken : (now u v : ℕ) (c : Credential) → u ≤ v → Bounds now v c → Bounds now u c
Bounds-weaken now u v c l h e w k g = omega (arith, h e w k g)

earliest_in-some :
    (now t : ℕ) (cs : List Credential)
    → (u : ℕ) × (earliest_in now (some t) cs ≡ some u) × (u ≤ t) × All (Bounds now u) cs
unfolding earliest_in
earliest_in-some now t [] = (t, refl, omega arith, tt)
earliest_in-some now t (c ∷ cs) =
    let (v, e, l, b) = earlier-some now t c in
    let (u, f, m, bs) = earliest_in-some now v cs in
    (u, rw e f, omega arith, (Bounds-weaken now u v c m b, bs))

-- The loop's result bounds every cooldown, if there is one; with none, so does every instant.
earliest_in-Bounds :
    (now u : ℕ) (cs : List Credential) → earliest_in now none cs ≡ some u → All (Bounds now u) cs
unfolding earliest_in
earliest_in-Bounds now u [] e = tt
earliest_in-Bounds now u (c ∷ cs) e = elim (earlier-none now c) [
  | inl (k, b) ↦ (b u, earliest_in-Bounds now u cs (rw k at e))
  | inr (v, k, b) ↦
      let (w, f, m, bs) = earliest_in-some now v cs in
      let same_end : w ≡ u = ground (arith, f, rw k at e) in
      subst (λ z. Bounds now z c × All (Bounds now z) cs) same_end (Bounds-weaken now w v c m b, bs)
]

Serves-before :
    (now u t : ℕ) (c : Credential) → now ≤ t → t < u → Bounds now u c → Serves c t → Serves c now
Serves-before now u t c h k b s = record {
  is_on = s.is_on;
  unexpired = λ v e. omega (arith, s.unexpired v e);
  rested = λ v e. elim (Bool-cases (ltb now v)) [
    | inl ahead ↦ absurd (omega (arith, s.rested v e, b s.is_on v e (ltb→lt now v ahead)))
    | inr past ↦ ground arith
  ];
  trusted = s.trusted;
}

stays_unusable :
    (now u t : ℕ) (c : Credential)
    → now ≤ t
    → t < u
    → Bounds now u c × (is_usable c now ≡ false)
    → is_usable c t ≡ false
stays_unusable now u t c h k (b, e) = elim (Bool-cases (is_usable c t)) [
  | inl up ↦
      absurd
        (cc (e, (is_usable_iff c now).1 (Serves-before now u t c h k b ((is_usable_iff c t).0 up))))
  | inr down ↦ down
]

All-unmap :
    {A B : Type 0} (P : B → Type 0) (f : A → B) (xs : List A)
    → All P (map f xs)
    → All (λ a. P (f a)) xs
All-unmap P f [] h = tt
All-unmap P f (x ∷ xs) h = (h.0, All-unmap P f xs h.1)

All-both :
    {A : Type 0} (P Q : A → Type 0) (xs : List A) → All P xs → All Q xs → All (λ a. P a × Q a) xs
All-both P Q [] h k = tt
All-both P Q (x ∷ xs) h k = ((h.0, k.0), All-both P Q xs h.1 k.1)

earliest_cooldown-Bounds :
    (name : Text) (now clock u : ℕ) (db : Db)
    → earliest_cooldown name now clock db ≡ some u
    → All (Bounds now u) (of_endpoint name db)
unfolding earliest_cooldown query
earliest_cooldown-Bounds name now clock u db e =
    All-sort (pool_order clock) (Bounds now u) _
      (All-unmap (Bounds now u) _ _ (earliest_in-Bounds now u _ e))

-- When a claim at `now` finds no token and the earliest cooldown of the endpoint's tokens ends at
-- `u`, no claim on the same table from `now` on and before `u` finds one.
pub exhausted_until :
    (name : Text) (now clock u t : ℕ) (db : Db)
    → claim name now now db ≡ (none, db)
    → earliest_cooldown name now clock db ≡ some u
    → now ≤ t
    → t < u
    → claim name t t db ≡ (none, db)
exhausted_until name now clock u t db h e l k = (claim-none_iff name t db).1 (
    All-weaken (λ c. Bounds now u c × (is_usable c now ≡ false)) (λ c. is_usable c t ≡ false) _
      (λ c. stays_unusable now u t c l k)
      (All-both _ _ _ (earliest_cooldown-Bounds name now clock u db e)
        ((claim-none_iff name now db).0 h)))

-- The earliest cooldown ends after `now`.
earlier_ahead :
    (now : ℕ) (o : Option ℕ) (c : Credential)
    → ((t : ℕ) → o ≡ some t → now < t)
    → (t : ℕ) → earlier now o c ≡ some t
    → now < t
unfolding earlier
earlier_ahead now none c h t e = ground arith
earlier_ahead now (some v) c h t e = ground (arith, h v refl)

earliest_in_ahead :
    (now : ℕ) (o : Option ℕ) (cs : List Credential)
    → ((t : ℕ) → o ≡ some t → now < t)
    → (t : ℕ) → earliest_in now o cs ≡ some t
    → now < t
unfolding earliest_in
earliest_in_ahead now o [] h t e = h t e
earliest_in_ahead now o (c ∷ cs) h t e =
    earliest_in_ahead now (earlier now o c) cs (earlier_ahead now o c h) t e

-- The earliest cooldown of an endpoint's tokens, if there is one, ends after the present.
earliest_cooldown_ahead :
    (name : Text) (now clock u : ℕ) (db : Db)
    → earliest_cooldown name now clock db ≡ some u
    → now < u
unfolding earliest_cooldown
earliest_cooldown_ahead name now clock u db = earliest_in_ahead now none _ (λ t e. cc) u
