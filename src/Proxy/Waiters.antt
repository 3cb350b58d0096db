-- ===== src/Proxy/Waiters.antt =====
-- What the requests read that wait for an identical GitLab Duo request.
use osante_ai_proxy.Base.{
  ℕ, ◌≡◌, ◌∙◌, sym, ap, Bool, true, false, some, Text, lookup, text_eq, nat_eq, lookup-insert,
  Option-cases, Bool-cases, inl, inr, arith, ◌==◌,
}
use osante_ai_proxy.Proxy.Dedup.{Registry, Result, acquire, publish, await}
use osante_ai_proxy.Proxy.Leaders.{
  Flight, Step, joins, leads, publishes, Reachable, next, Inv, IsRunning, acquire-joins,
  acquire-leads, without-All, Reachable-Inv,
}

same_results :
    (key : Text) (id : ℕ) (b : Bool) (r r' : Registry) (j : ℕ) (result : Result)
    → acquire key r ≡ (id, b, r')
    → await j r ≡ some result
    → await j r' ≡ some result
unfolding await
same_results key id b r r' j result e h = elim (Option-cases (lookup key r.calls)) [
  | inl n ↦
      ap (λ (t : ℕ × Bool × Registry). lookup j t.2.results) (sym e ∙ acquire-leads key r n) ∙ h
  | inr (i, f) ↦
      ap (λ (t : ℕ × Bool × Registry). lookup j t.2.results) (sym e ∙ acquire-joins key r i f) ∙ h
]

result_kept :
    {f g : Flight}
    → Step f g
    → Inv f
    → (j : ℕ) (result : Result) → await j f.registry ≡ some result
    → await j g.registry ≡ some result
unfolding await publish
result_kept (joins key id r r' ls e) i j result h = same_results key id false r r' j result e h
result_kept (leads key id r r' ls e) i j result h = same_results key id true r r' j result e h
result_kept (publishes key id new r before after) i j result h =
    let ran = without-All (key, id) (IsRunning r) before after i.running in
    elim (Bool-cases (id == j)) [
      | inl f ↦ let at : id ≡ j = ground (arith, f) in absurd (cc (ran.1.1, at, h))
      | inr f ↦ rw (lookup-insert id j new r.results, f) h
    ]

-- The steps that follow a flight.
pub data Later (f : Flight) : Flight → Type 0 where
  no_step : Later f f
  after_that : {g h : Flight} → Later f g → Step g h → Later f h

Reachable-Later : {f g : Flight} → Reachable f → Later f g → Reachable g
Reachable-Later r no_step = r
Reachable-Later r (after_that l s) = next (Reachable-Later r l) s

-- A result, once published, is what the requests that wait on the entry read from then on,
-- whatever steps the other requests take.
pub result_stays :
    {f g : Flight} (id : ℕ) (result : Result)
    → Reachable f
    → Later f g
    → await id f.registry ≡ some result
    → await id g.registry ≡ some result
result_stays id result r no_step h = h
result_stays id result r (after_that l s) h =
    result_kept s (Reachable-Inv (Reachable-Later r l)) id result (result_stays id result r l h)
