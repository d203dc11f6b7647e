-- ===== src/Query/Inversion.antt =====
-- What an operation of internal/query that answered without an error went through.
use mathlib.Core.Path.{subst}
use permissions_api.Base.{
  ◌≡◌, ◌≢◌, String, ◌⊎◌, inl, inr, refl, sym, ap, ◌∙◌, none, some, Option, ◌∷◌, arith,
}
use permissions_api.Query.Messages.{Outcome, ok, err, panic, Reply, answer, failure, Error, Filter}
use permissions_api.Query.Engine.{Engine, new_resource_from_id}
use permissions_api.Query.Monad.{
  Backend, State, M, replied, began, committed, commit_failed, removed, note, on_error,
  delete_relationships, bound, cleaned, mapped, attempted, lift, check, call, begin_context,
  commit_context,
}

pub Outcome-cases :
    {A : Type 0} (r : Outcome A)
    → ((a : A) × (r ≡ ok a)) ⊎ (((x : Error) × (r ≡ err x)) ⊎ (r ≡ panic))
Outcome-cases (ok a) = inl (a, refl)
Outcome-cases (err x) = inr (inl (x, refl))
Outcome-cases panic = inr (inr refl)

pub new_resource_from_id-ne-panic :
    (prefix : String → String) (e : Engine) (id : String) → new_resource_from_id prefix e id ≢ panic
unfolding new_resource_from_id
new_resource_from_id-ne-panic prefix e id = ground arith

replied-eq-ok : {A : Type 0} (r : Reply A) {a : A} → replied r ≡ ok a → r ≡ answer a
replied-eq-ok (answer x) h = ground arith
replied-eq-ok (failure e) h = cc

module _ {b : Backend} {A : Type 0} where
  pub bound-eq-ok :
      {B : Type 0} (f : A → M b B) (x : Outcome A × State b) {v : B} {t : State b}
      → bound f x ≡ (ok v, t)
      → (a : A) × (s : State b) × (x ≡ (ok a, s)) × (f a s ≡ (ok v, t))
  bound-eq-ok f (ok a, s) h = (a, s, refl, h)
  bound-eq-ok f (err e, s) h = cc
  bound-eq-ok f (panic, s) h = cc

  pub cleaned-eq-ok :
      (c : M b (Unit {0})) (x : Outcome A × State b) {a : A} {t : State b}
      → cleaned c x ≡ (ok a, t)
      → x ≡ (ok a, t)
  cleaned-eq-ok c (ok a, s) h = h
  cleaned-eq-ok c (err e, s) h = cc
  cleaned-eq-ok c (panic, s) h = cc

  pub mapped-eq-ok :
      (f : Error → Error) (x : Outcome A × State b) {a : A} {t : State b}
      → mapped f x ≡ (ok a, t)
      → x ≡ (ok a, t)
  mapped-eq-ok f (ok a, s) h = h
  mapped-eq-ok f (err e, s) h = cc
  mapped-eq-ok f (panic, s) h = cc

  pub call-eq-ok :
      (f : b.World → Reply A × b.World) (s : State b) {a : A} {t : State b}
      → call f s ≡ (ok a, t)
      → ((f s.world).0 ≡ answer a) × (t.log ≡ s.log)
  call-eq-ok f s h =
      (replied-eq-ok (f s.world).0 (ap (λ r. r.0) h), sym (ap (λ r. State.log r.1) h))

  -- The same for a call in a known world.
  pub call-eq-ok_at :
      (f : b.World → Reply A × b.World) (s : State b) (w : b.World) {a : A} {t : State b}
      → s.world ≡ w
      → call f s ≡ (ok a, t)
      → ((f w).0 ≡ answer a) × (t.world ≡ (f w).1) × (t.log ≡ s.log)
  call-eq-ok_at f s w {a} {t} e h =
      subst (λ w. ((f w).0 ≡ answer a) × (t.world ≡ (f w).1) × (t.log ≡ s.log)) e
        ((call-eq-ok f s h).0, sym (ap (λ r. State.world r.1) h), (call-eq-ok f s h).1)

  pub lift-eq-ok :
      (r : Outcome A) (s : State b) {a : A} {t : State b}
      → lift r s ≡ (ok a, t)
      → (r ≡ ok a) × (t ≡ s)
  lift-eq-ok r s h = (ap (λ x. x.0) h, sym (ap (λ x. x.1) h))

module _ {b : Backend} where
  pub check-eq-ok :
      (o : Option Error) (s : State b) {t : State b} → check o s ≡ (ok tt, t) → (o ≡ none) × (t ≡ s)
  check-eq-ok none s h = (refl, sym (ap (λ x. x.1) h))
  check-eq-ok (some e) s h = cc

  pub attempted-eq-ok :
      (x : Outcome (Unit {0}) × State b) {o : Option Error} {t : State b}
      → attempted x ≡ (ok o, t)
      → ((o ≡ none) × (x ≡ (ok tt, t))) ⊎ ((e : Error) × (o ≡ some e))
  attempted-eq-ok (ok _, s) h = inl (ground arith, ground arith)
  attempted-eq-ok (err e, s) h = inr (e, ground arith)
  attempted-eq-ok (panic, s) h = cc

  pub begin_context-eq-ok :
      (s : State b) {t : State b} → begin_context b s ≡ (ok tt, t) → t.log ≡ began ∷ s.log
  unfolding begin_context
  begin_context-eq-ok s {t} h =
      let (_, s', called, noted) = bound-eq-ok (λ _. note began) (call b.begin_tx s) h in
      let (_, same) = call-eq-ok b.begin_tx s called in
      sym (ap (λ r. State.log r.1) noted) ∙ ap (λ l. began ∷ l) same

  pub begin_context-eq-answer :
      (s : State b) {t : State b}
      → begin_context b s ≡ (ok tt, t)
      → ((b.begin_tx s.world).0 ≡ answer tt) × (t.world ≡ (b.begin_tx s.world).1)
  unfolding begin_context
  begin_context-eq-answer s {t} h =
      let (_, s', called, noted) = bound-eq-ok (λ _. note began) (call b.begin_tx s) h in
      let (a, same, _) = call-eq-ok_at b.begin_tx s s.world refl called in
      (a, sym (ap (λ r. State.world r.1) noted) ∙ same)

  pub commit_context-eq-ok :
      (s : State b) {t : State b} → commit_context b s ≡ (ok tt, t) → t.log ≡ committed ∷ s.log
  unfolding commit_context
  commit_context-eq-ok s {t} h =
      let (_, s', called, noted) =
        bound-eq-ok (λ _. note committed) (on_error (call b.commit_tx) (note commit_failed) s) h in
      let (_, same) = call-eq-ok b.commit_tx s (cleaned-eq-ok (note commit_failed) _ called) in
      sym (ap (λ r. State.log r.1) noted) ∙ ap (λ l. committed ∷ l) same

  pub delete_relationships-eq-ok :
      (f : Filter) (s : State b) {t : State b}
      → delete_relationships b f s ≡ (ok tt, t)
      → t.log ≡ removed f ∷ s.log
  unfolding delete_relationships
  delete_relationships-eq-ok f s {t} h =
      let (_, s', called, noted) =
        bound-eq-ok (λ _. note (removed f)) (call (b.spice_delete f) s) h in
      let (_, same) = call-eq-ok (b.spice_delete f) s called in
      sym (ap (λ r. State.log r.1) noted) ∙ ap (λ l. removed f ∷ l) same
