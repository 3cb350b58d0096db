-- ===== src/Proxy/InFlight.antt =====
-- The counters of the requests in flight.
use osante_ai_proxy.Base.{
  ℕ, ◌+◌, ◌-◌, ◌≤◌, ◌≡◌, true, none, some, Text, arith, lookup, insert, erase, text_eq, same,
  same_iff, lookup-insert, lookup-erase, Bool-cases, if◌then◌else◌, ap, inl, inr, ◌∙◌, leb, sym,
  Option-cases, leb→le,
}
use osante_ai_proxy.Proxy.Rotation.{Active, in_flight, mark_active, mark_inactive, count_of}

in_flight-insert :
    (name other : Text) (n : ℕ) (m : Active)
    → in_flight other (insert name n m) ≡ (if same name other then n else in_flight other m)
unfolding count_of
in_flight-insert name other n m = elim (Bool-cases (same name other)) [
  | inl e ↦ rw (lookup-insert name other, e)
  | inr e ↦ rw (lookup-insert name other, e)
]

in_flight-erase :
    (name other : Text) (m : Active)
    → in_flight other (erase name m) ≡ (if same name other then 0 else in_flight other m)
unfolding count_of
in_flight-erase name other m = elim (Bool-cases (same name other)) [
  | inl e ↦ rw (lookup-erase name other, e)
  | inr e ↦ rw (lookup-erase name other, e)
]

-- A new request adds one to its endpoint's counter and leaves the others alone.
pub in_flight-mark_active :
    (name other : Text) (m : Active)
    → in_flight other (mark_active name m)
      ≡ (if same name other then in_flight other m + 1 else in_flight other m)
unfolding mark_active
in_flight-mark_active name other m = elim (Bool-cases (same name other)) [
  | inl e ↦
      rw (in_flight-insert name other, e) (ap (λ k. in_flight k m + 1) ((same_iff name other).0 e))
  | inr e ↦ rw (in_flight-insert name other, e)
]

-- A finished request takes one from its endpoint's counter, which stops at zero, and leaves the
-- others alone.
pub in_flight-mark_inactive :
    (name other : Text) (m : Active)
    → in_flight other (mark_inactive name m)
      ≡ (if same name other then in_flight other m - 1 else in_flight other m)
unfolding mark_inactive count_of
in_flight-mark_inactive name other m = elim (Option-cases (lookup name m)) [
  | inl e ↦ elim (Bool-cases (same name other)) [
    | inl f ↦
        let gone : lookup other m ≡ none =
          ap (λ k. lookup k m) (sym ((same_iff name other).0 f)) ∙ e in
        rw (e, mark_inactive, f, gone)
    | inr f ↦ rw (e, mark_inactive, f)
  ]
  | inr (c, e) ↦ elim (Bool-cases (leb c 1)) [
    | inl small ↦
        rw (e, mark_inactive, small, in_flight-erase name other m) (at_name c e (leb→le c 1 small))
    | inr big ↦ rw (e, mark_inactive, big, in_flight-insert name other (c - 1) m) (at_name' c e)
  ]
]
  where
    here : (c : ℕ) → lookup name m ≡ some c → same name other ≡ true → in_flight other m ≡ c
    here c e f = ap (λ k. in_flight k m) (sym ((same_iff name other).0 f)) ∙ ap count_of e

    at_name :
        (c : ℕ)
        → lookup name m ≡ some c
        → c ≤ 1
        → (if same name other then 0 else in_flight other m)
          ≡ (if same name other then in_flight other m - 1 else in_flight other m)
    at_name c e l = elim (Bool-cases (same name other)) [
      | inl f ↦ rw f (omega (arith, here c e f))
      | inr f ↦ rw f
    ]

    at_name' :
        (c : ℕ)
        → lookup name m ≡ some c
        → (if same name other then c - 1 else in_flight other m)
          ≡ (if same name other then in_flight other m - 1 else in_flight other m)
    at_name' c e = elim (Bool-cases (same name other)) [
      | inl f ↦ rw f (omega (arith, here c e f))
      | inr f ↦ rw f
    ]

-- The end of a request undoes its start, in every endpoint's counter.
pub mark_inactive-mark_active :
    (name other : Text) (m : Active)
    → in_flight other (mark_inactive name (mark_active name m)) ≡ in_flight other m
mark_inactive-mark_active name other m = elim (Bool-cases (same name other)) [
  | inl e ↦
      rw (in_flight-mark_inactive name other, in_flight-mark_active name other, e) (omega arith)
  | inr e ↦ rw (in_flight-mark_inactive name other, in_flight-mark_active name other, e)
]
