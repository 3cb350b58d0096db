-- ===== src/Storage/Order.antt =====
-- The ORDER BY of a query: a list of terms, compared in turn, and a stable sort by them. The SQL
-- engine evaluates the clause; this is what SQL says that it means.
use osante_ai_proxy.Base.{
  ℕ, subst, All-weaken, ◌≡◌, refl, inl, inr, Bool, true, false, some, List, [], ◌∷◌, ltb, ◌==◌,
  ◌&&◌, ◌||◌, if◌then◌else◌, find_first, All, Bool-cases, arith,
}

pub data Term (A : Type 0) : Type 0 where
  asc desc : (A → ℕ) → Term A

module _ {A : Type 0} where
  -- `a` comes strictly before `b`.
  unfoldable pub precedes : List (Term A) → A → A → Bool
  precedes [] a b = false
  precedes (asc f ∷ ts) a b = ltb (f a) (f b) || (f a == f b && precedes ts a b)
  precedes (desc f ∷ ts) a b = ltb (f b) (f a) || (f a == f b && precedes ts a b)

  pub precedes_trans :
      (ts : List (Term A)) (a b c : A)
      → precedes ts b a ≡ false
      → precedes ts c b ≡ false
      → precedes ts c a ≡ false
  unfolding precedes
  precedes_trans [] a b c h k = refl
  precedes_trans (asc f ∷ ts) a b c h k = ground (arith, precedes_trans ts a b c)
  precedes_trans (desc f ∷ ts) a b c h k = ground (arith, precedes_trans ts a b c)

  pub precedes_asymm :
      (ts : List (Term A)) (a b : A) → precedes ts a b ≡ true → precedes ts b a ≡ false
  unfolding precedes
  precedes_asymm [] a b h = refl
  precedes_asymm (asc f ∷ ts) a b h = ground (arith, precedes_asymm ts a b)
  precedes_asymm (desc f ∷ ts) a b h = ground (arith, precedes_asymm ts a b)

module _ {A : Type 0} (ts : List (Term A)) where
  unfoldable pub put : A → List A → List A
  put x [] = x ∷ []
  put x (y ∷ ys) = if precedes ts y x then y ∷ put x ys else x ∷ y ∷ ys

  unfoldable pub sort : List A → List A
  unfolding put
  sort [] = []
  sort (x ∷ xs) = put x (sort xs)

  -- No row stands behind one that it precedes.
  abbrev pub IsSorted : List A → Type 0
  IsSorted [] = Unit
  IsSorted (x ∷ xs) = All (λ y. precedes ts y x ≡ false) xs × IsSorted xs

module _ {A : Type 0} (ts : List (Term A)) (P : A → Type 0) where
  put-All : (x : A) (ys : List A) → P x → All P ys → All P (put ts x ys)
  unfolding put
  put-All x [] p h = (p, tt)
  put-All x (y ∷ ys) p h = ground (arith, put-All x ys p h.1)

  All-put : (x : A) (ys : List A) → All P (put ts x ys) → P x × All P ys
  unfolding put
  All-put x [] h = h
  All-put x (y ∷ ys) h = ground (arith, All-put x ys)

  pub sort-All : (xs : List A) → All P xs → All P (sort ts xs)
  unfolding sort
  sort-All [] h = tt
  sort-All (x ∷ xs) h = put-All x (sort ts xs) h.0 (sort-All xs h.1)

  pub All-sort : (xs : List A) → All P (sort ts xs) → All P xs
  unfolding sort
  All-sort [] h = tt
  All-sort (x ∷ xs) h = let r = All-put x (sort ts xs) h in (r.0, All-sort xs r.1)

module _ {A : Type 0} (ts : List (Term A)) where
  put-IsSorted : (x : A) (ys : List A) → IsSorted ts ys → IsSorted ts (put ts x ys)
  unfolding put
  put-IsSorted x [] h = (tt, tt)
  put-IsSorted x (y ∷ ys) h = elim (Bool-cases (precedes ts y x)) [
    | inl e ↦ rw e (
      put-All ts (λ z. precedes ts z y ≡ false) x ys (precedes_asymm ts y x e) h.0,
      put-IsSorted x ys h.1,
    )
    | inr e ↦ rw e (
      (
        e,
        All-weaken (λ z. precedes ts z y ≡ false) (λ z. precedes ts z x ≡ false) ys
            (λ z k. precedes_trans ts x y z e k) h.0,
      ),
      h,
    )
  ]

  pub sort-IsSorted : (xs : List A) → IsSorted ts (sort ts xs)
  unfolding sort
  sort-IsSorted [] = tt
  sort-IsSorted (x ∷ xs) = put-IsSorted x (sort ts xs) (sort-IsSorted xs)

  precedes_irrefl : (x : A) → precedes ts x x ≡ false
  precedes_irrefl x = elim (Bool-cases (precedes ts x x)) [
    | inl e ↦ precedes_asymm ts x x e
    | inr e ↦ e
  ]

  -- The first row that passes a test precedes, or ties with, every row that passes it.
  pub first_is_least :
      (p : A → Bool) (xs : List A) (a : A)
      → IsSorted ts xs
      → find_first p xs ≡ some a
      → All (λ b. p b ≡ true → precedes ts b a ≡ false) xs
  first_is_least p [] a s e = tt
  first_is_least p (x ∷ xs) a s e = elim (Bool-cases (p x)) [
    | inl hit ↦
        subst (λ z. All (λ b. p b ≡ true → precedes ts b z ≡ false) (x ∷ xs))
          (ground (arith, e, hit))
          (
            (λ _. precedes_irrefl x),
            All-weaken (λ b. precedes ts b x ≡ false) (λ b. p b ≡ true → precedes ts b x ≡ false) xs
                (λ b k _. k) s.0,
          )
    | inr miss ↦ ((λ k. cc), first_is_least p xs a s.1 (ground (arith, e, miss)))
  ]
