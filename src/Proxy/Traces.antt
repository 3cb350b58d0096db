-- ===== src/Proxy/Traces.antt =====
-- What the ring of traces keeps and shows.
use osante_ai_proxy.Base.{
  ℕ, zero, suc, ◌+◌, ◌-◌, ◌≤◌, ◌<◌, ◌≡◌, refl, ◌∙◌, ap, sym, Option, none, some, List, [], ◌∷◌,
  ◌++◌, length, get_elem?, take, drop, ltb, leb, ◌==◌, ◌||◌, if◌then◌else◌, arith, Bool-cases, inl,
  inr, length-append, length-drop,
}
use osante_ai_proxy.Proxy.Trace.{push, push_all, collect, snapshot}

module _ {ℓ} {A : Type ℓ} where
  drop_append : (n : ℕ) (xs ys : List A) → n ≤ length xs → drop n (xs ++ ys) ≡ drop n xs ++ ys
  drop_append zero xs ys h = refl
  drop_append (suc n) [] ys h = absurd (omega (arith, h))
  drop_append (suc n) (x ∷ xs) ys h = drop_append n xs ys (omega (arith, h))

  append_assoc : (xs ys zs : List A) → (xs ++ ys) ++ zs ≡ xs ++ (ys ++ zs)
  append_assoc [] ys zs = refl
  append_assoc (x ∷ xs) ys zs = ap (λ r. x ∷ r) (append_assoc xs ys zs)

  append_nil : (xs : List A) → xs ++ [] ≡ xs
  append_nil [] = refl
  append_nil (x ∷ xs) = ap (λ r. x ∷ r) (append_nil xs)

  drop_one : (n : ℕ) (xs : List A) → drop n (drop 1 xs) ≡ drop (suc n) xs
  drop_one zero xs = refl
  drop_one (suc n) [] = refl
  drop_one n (x ∷ xs) = refl

  push_all-drop :
      (size : ℕ) (recs records : List A)
      → 0 < size
      → length records ≤ size
      → push_all size recs records ≡ drop (length records + length recs - size) (records ++ recs)
  unfolding push_all push
  push_all-drop size [] records c h =
      let none_lost : length records + 0 - size ≡ 0 = omega (arith, h) in
      rw none_lost (sym (append_nil records))
  push_all-drop size (rec ∷ recs) records c h = elim (Bool-cases (leb size (length records))) [
    | inl e ↦
        let full : length records ≡ size = ground (arith, e, h) in
        let kept = drop 1 records ++ rec ∷ [] in
        let same_length : length kept ≡ size =
          omega
            (arith, length-append (drop 1 records) (rec ∷ []), length-drop 1 records, full, c) in
        let lost : length kept + length recs - size ≡ length recs = omega (arith, same_length) in
        let lost' : length records + suc (length recs) - size ≡ suc (length recs) =
          omega (arith, full) in
        rw (e, lost')
          (push_all-drop size recs kept c (omega (arith, same_length))
            ∙ rw lost (
                ap (drop (length recs)) (
                  append_assoc (drop 1 records) (rec ∷ []) recs
                  ∙ sym (drop_append 1 records (rec ∷ recs) (omega (arith, full, c))))
                ∙ drop_one (length recs) (records ++ rec ∷ recs)))
    | inr e ↦
        let kept = records ++ rec ∷ [] in
        let longer : length kept ≡ length records + 1 =
          omega (arith, length-append records (rec ∷ [])) in
        let lost : length kept + length recs - size ≡ length records + suc (length recs) - size =
          omega (arith, longer) in
        rw e (
          push_all-drop size recs kept c (ground (arith, longer, e))
          ∙ rw lost (ap (drop _) (append_assoc records (rec ∷ []) recs)))
  ]

  -- The records of a list, the last one first.
  unfoldable pub newest_first : List A → List A
  newest_first [] = []
  newest_first (x ∷ xs) = newest_first xs ++ x ∷ []

  newest_first-snoc : (xs : List A) (x : A) → newest_first (xs ++ x ∷ []) ≡ x ∷ newest_first xs
  unfolding newest_first
  newest_first-snoc [] x = refl
  newest_first-snoc (y ∷ xs) x = ap (λ r. r ++ y ∷ []) (newest_first-snoc xs x)

  take-at :
      (xs : List A) (i : ℕ) (x : A)
      → get_elem? xs i ≡ some x
      → take (suc i) xs ≡ take i xs ++ x ∷ []
  take-at [] i x e = absurd (cc)
  take-at (y ∷ xs) zero x e = ap (λ (o : Option A). elim o [ none ↦ [] | some z ↦ z ∷ [] ]) e
  take-at (y ∷ xs) (suc i) x e = ap (λ r. y ∷ r) (take-at xs i x e)

  take_nil : (n : ℕ) → take {A = A} n [] ≡ []
  take_nil zero = refl
  take_nil (suc n) = refl

  elem_at : (xs : List A) (i : ℕ) → i < length xs → (x : A) × (get_elem? xs i ≡ some x)
  elem_at [] i h = absurd (omega (arith, h))
  elem_at (x ∷ xs) zero h = (x, refl)
  elem_at (x ∷ xs) (suc i) h = elem_at xs i (omega (arith, h))

  collect-take :
      (records : List A) (i limit : ℕ) (out : List A)
      → i ≤ length records
      → length out ≤ limit
      → collect records i limit out
        ≡ out ++ take (limit - length out) (newest_first (take i records))
  unfolding collect newest_first
  collect-take records zero limit out h k =
      sym (ap (λ r. out ++ r) (take_nil (limit - length out)) ∙ append_nil out)
  collect-take records (suc i) limit out h k = elim (Bool-cases (ltb (length out) limit)) [
    | inl e ↦
        let (rec, f) = elem_at records i (omega (arith, h)) in
        let ns = newest_first (take i records) in
        let longer : length (out ++ rec ∷ []) ≡ length out + 1 =
          omega (arith, length-append out (rec ∷ [])) in
        let room : limit - length out ≡ suc (limit - length (out ++ rec ∷ [])) =
          ground (arith, e, longer) in
        rw (e, f)
          (collect-take records i limit (out ++ rec ∷ []) (omega (arith, h))
              (ground (arith, e, longer))
            ∙ append_assoc out (rec ∷ []) _
            ∙ sym (
                ap (λ r. out ++ take (limit - length out) r)
                  (ap newest_first (take-at records i rec f)
                    ∙ newest_first-snoc (take i records) rec)
                ∙ ap (λ n. out ++ take n (rec ∷ ns)) room))
    | inr e ↦
        let no_room : limit - length out ≡ 0 = ground (arith, e) in
        rw (e, no_room) (sym (append_nil out))
  ]

  take_all : (xs : List A) → take (length xs) xs ≡ xs
  take_all [] = refl
  take_all (x ∷ xs) = ap (λ r. x ∷ r) (take_all xs)

  length-newest_first : (xs : List A) → length (newest_first xs) ≡ length xs
  unfolding newest_first
  length-newest_first [] = refl
  length-newest_first (x ∷ xs) =
      omega (arith, length-append (newest_first xs) (x ∷ []), length-newest_first xs)

  snapshot-take :
      (records : List A) (limit : ℕ)
      → let kept = newest_first records in
        snapshot records limit
        ≡ take (if limit == 0 || ltb (length kept) limit then length kept else limit) kept
  unfolding snapshot
  snapshot-take records limit =
      let n = length records in
      let shown = if limit == 0 || ltb n limit then n else limit in
      collect-take records n shown [] (omega arith) (omega arith)
      ∙ ap (λ r. take (shown - 0) (newest_first r)) (take_all records)
      ∙ rw (length-newest_first records) (ap (λ k. take k (newest_first records)) (omega arith))

  -- After any records are pushed into an empty ring of size above 0, a snapshot shows the last of them
  -- that the ring has room for, newest first: all of these without a limit or with one above their
  -- number, and otherwise the first ones up to the limit.
  pub snapshot-push_all :
      (size limit : ℕ) (recs : List A)
      → 0 < size
      → let kept = newest_first (drop (length recs - size) recs) in
        snapshot (push_all size recs []) limit
        ≡ take (if limit == 0 || ltb (length kept) limit then length kept else limit) kept
  snapshot-push_all size limit recs c =
      let kept : push_all size recs [] ≡ drop (length recs - size) recs =
        push_all-drop size recs [] c (omega arith) ∙ ap (λ n. drop n recs) (omega arith) in
      rw kept (snapshot-take (drop (length recs - size) recs) limit)
