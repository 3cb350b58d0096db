-- ===== src/Proxy/Leaders.antt =====
-- The leaders and the waiters of identical GitLab Duo requests, in any interleaving.
use osante_ai_proxy.Base.{
  ℕ, ◌+◌, ◌<◌, ◌≤◌, ◌≡◌, ◌≢◌, refl, ◌∙◌, subst, sym, ap, Bool, true, false, none, some, List, [],
  ◌∷◌, ◌++◌, Text, lookup, insert, erase, text_eq, nat_eq, lookup-insert, lookup-erase,
  Option-cases, Bool-cases, inl, inr, arith, same, same_refl, same_iff, All, All-weaken,
}
use osante_ai_proxy.Proxy.Dedup.{Registry, Result, new_registry, acquire, publish, await}

-- A registry together with the leaders that have not published yet: key and entry.
pub record Flight : Type 0 where
  pub registry : Registry
  pub leaders : List (Text × ℕ)

-- A step of some request: it acquires its key, or, as a leader, publishes its result.
pub data Step : Flight → Flight → Type 0 where
  joins :
      (key : Text) (id : ℕ) (r r' : Registry) (ls : List (Text × ℕ))
      → acquire key r ≡ (id, false, r')
      → Step (record { registry = r; leaders = ls }) (record { registry = r'; leaders = ls })
  leads :
      (key : Text) (id : ℕ) (r r' : Registry) (ls : List (Text × ℕ))
      → acquire key r ≡ (id, true, r')
      → Step
          (record { registry = r; leaders = ls })
          (record { registry = r'; leaders = (key, id) ∷ ls })
  publishes :
      (key : Text) (id : ℕ) (result : Result) (r : Registry) (before after : List (Text × ℕ))
      → Step
          (record { registry = r; leaders = before ++ (key, id) ∷ after })
          (record { registry = publish key id result r; leaders = before ++ after })

pub data Reachable : Flight → Type 0 where
  start : Reachable (record { registry = new_registry; leaders = [] })
  next : {f g : Flight} → Reachable f → Step f g → Reachable g

abbrev Apart : Text × ℕ → Text × ℕ → Type 0
Apart l m = (m.0 ≢ l.0) × (m.1 ≢ l.1)

abbrev pub AllApart : List (Text × ℕ) → Type 0
AllApart [] = Unit
AllApart (l ∷ ls) = All (Apart l) ls × AllApart ls

-- A leader that runs: its entry is the one that its key finds, and has no result yet.
abbrev pub IsRunning : Registry → Text × ℕ → Type 0
IsRunning r l = (lookup l.0 r.calls ≡ some l.1) × (await l.1 r ≡ none) × (l.1 < r.made)

pub record Inv (f : Flight) : Type 0 where
  pub apart : AllApart f.leaders
  pub running : All (IsRunning f.registry) f.leaders
  pub led :
      (key : Text) (id : ℕ) → lookup key f.registry.calls ≡ some id → lookup key f.leaders ≡ some id
  pub fresh : (id : ℕ) → f.registry.made ≤ id → await id f.registry ≡ none

pub acquire-joins :
    (key : Text) (r : Registry) (id : ℕ)
    → lookup key r.calls ≡ some id
    → acquire key r ≡ (id, false, r)
unfolding acquire
acquire-joins key r id e = rw (acquire, e)

pub acquire-leads :
    (key : Text) (r : Registry)
    → lookup key r.calls ≡ none
    → acquire key r
      ≡ (r.made, true, record r { calls = insert key r.made r.calls; made = r.made + 1 })
unfolding acquire
acquire-leads key r e = rw (acquire, e)

start-Inv : Inv (record { registry = new_registry; leaders = [] })
unfolding await lookup
start-Inv = record { apart = tt; running = tt; led = λ key id e. absurd (cc); fresh = λ id h. refl }

leads-Inv :
    (key : Text) (r : Registry) (ls : List (Text × ℕ))
    → lookup key r.calls ≡ none
    → Inv (record { registry = r; leaders = ls })
    → Inv (record {
      registry = record r { calls = insert key r.made r.calls; made = r.made + 1 };
      leaders = (key, r.made) ∷ ls;
    })
unfolding await lookup
leads-Inv key r ls e i = record {
  apart = (
    All-weaken (IsRunning r) (Apart (key, r.made)) ls
        (λ l h. (
          λ k. absurd (cc (sym (h.0) ∙ ap (λ x. lookup x r.calls) k ∙ e)),
          λ k. omega (arith, h.2, k),
        ))
        i.running,
    i.apart,
  );
  running = (
    (here, i.fresh r.made (omega arith), omega arith),
    All-weaken (IsRunning r) (IsRunning _) ls (λ l h. (keeps l h.0, h.1, omega (arith, h.2)))
        i.running,
  );
  led = λ k id h. found k id h;
  fresh = λ id h. i.fresh id (omega (arith, h));
}
  where
    here : lookup key (insert key r.made r.calls) ≡ some r.made
    here = rw (lookup-insert key key r.made r.calls, same_refl key)

    keeps :
        (l : Text × ℕ)
        → lookup l.0 r.calls ≡ some l.1
        → lookup l.0 (insert key r.made r.calls) ≡ some l.1
    keeps l h = elim (Bool-cases (same key l.0)) [
      | inl f ↦ absurd (cc (sym h ∙ ap (λ x. lookup x r.calls) (sym ((same_iff key l.0).0 f)) ∙ e))
      | inr f ↦ rw (lookup-insert key l.0 r.made r.calls, f) h
    ]

    found :
        (k : Text) (id : ℕ)
        → lookup k (insert key r.made r.calls) ≡ some id
        → lookup k ((key, r.made) ∷ ls) ≡ some id
    found k id h = elim (Bool-cases (same key k)) [
      | inl f ↦ rw f (sym (lookup-insert key k r.made r.calls ∙ rw f) ∙ h)
      | inr f ↦ rw f (i.led k id (sym (lookup-insert key k r.made r.calls ∙ rw f) ∙ h))
    ]

-- Taking one leader out of the list.
module _ (l : Text × ℕ) where
  pub without-All :
      (P : Text × ℕ → Type 0) (before after : List (Text × ℕ))
      → All P (before ++ l ∷ after)
      → All P (before ++ after) × P l
  without-All P [] after h = (h.1, h.0)
  without-All P (m ∷ before) after h =
      let rest = without-All P before after h.1 in ((h.0, rest.0), rest.1)

  others-Apart :
      (before after : List (Text × ℕ))
      → AllApart (before ++ l ∷ after)
      → AllApart (before ++ after) × All (Apart l) (before ++ after)
  others-Apart [] after h = (h.1, h.0)
  others-Apart (m ∷ before) after h =
      let rest = others-Apart before after h.1 in
      let mine = without-All (Apart m) before after h.0 in
      ((mine.0, rest.0), ((λ e. mine.1.0 (sym e), λ e. mine.1.1 (sym e)), rest.1))

  lookup-without :
      (key : Text) (before after : List (Text × ℕ))
      → key ≢ l.0
      → lookup key (before ++ l ∷ after) ≡ lookup key (before ++ after)
  unfolding lookup
  lookup-without key [] after n = elim (Bool-cases (same l.0 key)) [
    | inl f ↦ absurd (n (sym ((same_iff l.0 key).0 f)))
    | inr f ↦ rw f
  ]
  lookup-without key (m ∷ before) after n = rw (lookup-without key before after n)

publishes-Inv :
    (key : Text) (id : ℕ) (result : Result) (r : Registry) (before after : List (Text × ℕ))
    → Inv (record { registry = r; leaders = before ++ (key, id) ∷ after })
    → Inv (record { registry = publish key id result r; leaders = before ++ after })
unfolding publish await
publishes-Inv key id result r before after i =
    let rest = others-Apart (key, id) before after i.apart in
    let ran = without-All (key, id) (IsRunning r) before after i.running in
    record {
      apart = rest.0;
      running = still (before ++ after) ran.0 rest.1;
      led = found;
      fresh = λ j h. no_result j (λ e. omega (arith, ran.1.2, h, e)) (i.fresh j h);
    }
  where
    no_result :
        (j : ℕ) → j ≢ id → lookup j r.results ≡ none → lookup j (insert id result r.results) ≡ none
    no_result j n h = rw (lookup-insert id j result r.results) (ground (arith, n, h))

    others : (k : Text) → k ≢ key → lookup k (erase key r.calls) ≡ lookup k r.calls
    others k n = elim (Bool-cases (same key k)) [
      | inl f ↦ absurd (n (sym ((same_iff key k).0 f)))
      | inr f ↦ rw (lookup-erase key k r.calls, f)
    ]

    still :
        (ls : List (Text × ℕ))
        → All (IsRunning r) ls
        → All (Apart (key, id)) ls
        → All (IsRunning (publish key id result r)) ls
    still [] h k = tt
    still (m ∷ ls) h k =
        ((others m.0 k.0.0 ∙ h.0.0, no_result m.1 k.0.1 h.0.1, h.0.2), still ls h.1 k.1)

    found :
        (k : Text) (j : ℕ)
        → lookup k (erase key r.calls) ≡ some j
        → lookup k (before ++ after) ≡ some j
    found k j h = elim (Bool-cases (same key k)) [
      | inl f ↦
          let gone : lookup k (erase key r.calls) ≡ none = lookup-erase key k r.calls ∙ rw f in
          absurd (cc (gone, h))
      | inr f ↦
          let n : k ≢ key = λ e. absurd (ground (arith, f, same_iff key k, e)) in
          sym (lookup-without (key, id) k before after n) ∙ i.led k j (sym (others k n) ∙ h)
    ]

step-Inv : {f g : Flight} → Step f g → Inv f → Inv g
step-Inv (joins key id r r' ls e) i = elim (Option-cases (lookup key r.calls)) [
  | inl n ↦ absurd (cc (ap (λ (t : ℕ × Bool × Registry). t.1) (sym (acquire-leads key r n) ∙ e)))
  | inr (j, f) ↦
      subst (λ x. Inv (record { registry = x; leaders = ls }))
        (ap (λ (t : ℕ × Bool × Registry). t.2) (sym (acquire-joins key r j f) ∙ e)) i
]
step-Inv (leads key id r r' ls e) i = elim (Option-cases (lookup key r.calls)) [
  | inr (j, f) ↦
      absurd (cc (ap (λ (t : ℕ × Bool × Registry). t.1) (sym (acquire-joins key r j f) ∙ e)))
  | inl n ↦
      subst
        (λ (t : ℕ × Bool × Registry). Inv (record { registry = t.2; leaders = (key, t.0) ∷ ls }))
        (sym (acquire-leads key r n) ∙ e) (leads-Inv key r ls n i)
]
step-Inv (publishes key id result r before after) i = publishes-Inv key id result r before after i

-- In every interleaving, the leaders that have not published have different keys and different
-- entries, the entry of each is the one that its key finds and has no result, and each entry that
-- a key finds has its leader among them; entries that are not made yet have no result.
pub Reachable-Inv : {f : Flight} → Reachable f → Inv f
Reachable-Inv start = start-Inv
Reachable-Inv (next h s) = step-Inv s (Reachable-Inv h)
