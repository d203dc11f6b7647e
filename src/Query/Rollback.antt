-- ===== src/Query/Rollback.antt =====
-- What `rollbackUpdates` of internal/query/rolebindings.go undoes. SpiceDB's store is a parameter:
-- what it holds, and what one update does to it, as SpiceDB documents the operations.
use mathlib.Core.List.{foldl-append}
use mathlib.Core.Path.{subst}
use permissions_api.Base.{String, ◌≡◌, ◌↔◌, ◌⊎◌, inl, inr, List, [], ◌∷◌, foldl, eq-cases, sym}
use permissions_api.Query.Messages.{
  Operation, create, touch, delete, unspecified, Relationship, Update,
}
use permissions_api.Query.Updates.{rollbacks}

String-discrete : Discrete String
String-discrete s t = elim (eq-cases s t) [ inl (p, _) ↦ yes p | inr (p, _) ↦ no p ]

Relationship-discrete : Discrete Relationship
Relationship-discrete = hlevel String-discrete

-- Whether a relationship is held after an operation, given whether it is the one operated on and
-- whether it was held before.
abbrev pub HoldsAfter : Operation → Type 0 → Type 0 → Type 0
HoldsAfter create is_it held = is_it ⊎ held
HoldsAfter touch is_it held = is_it ⊎ held
HoldsAfter delete is_it held = (¬ is_it) × held
HoldsAfter unspecified is_it held = held

-- Whether an operation changes anything, given whether its relationship was held before.
abbrev pub Changes : Operation → Type 0 → Type 0
Changes create held = ¬ held
Changes touch held = ¬ held
Changes delete held = held
Changes unspecified held = Unit

module _ {ℓ} (Store : Type ℓ) (holds : Store → Relationship → Type 0)
    (apply : Store → Update → Store) where
  -- Each update changes the store that the ones before it left.
  abbrev pub Effective : List Update → Store → Type 0
  Effective [] s = Unit
  Effective (u ∷ us) s = Changes u.operation (holds s u.relationship) × Effective us (apply s u)

  module _
      (law : (s : Store) (u : Update) (r : Relationship)
        → holds (apply s u) r ↔ HoldsAfter u.operation (r ≡ u.relationship) (holds s r)) where
    -- An operation that cannot take away another relationship, then the one that undoes it.
    undo_write :
        (s t : Store) (op : Operation) (rel : Relationship)
        → ((r : Relationship)
            → holds (apply s (record { operation = op; relationship = rel })) r
              ↔ ((r ≡ rel) ⊎ holds s r))
        → ¬ holds s rel
        → ((r : Relationship)
            → holds t r ↔ holds (apply s (record { operation = op; relationship = rel })) r)
        → (r : Relationship)
        → holds (apply t (record { operation = delete; relationship = rel })) r ↔ holds s r
    undo_write s t op rel written new same r =
        let taken = law t (record { operation = delete; relationship = rel }) r in
        (
          λ x.
              let (n, held) = taken.0 x in
              elim ((written r).0 ((same r).0 held)) [ inl p ↦ absurd (n p) | inr old ↦ old ],
          λ old. taken.1 (λ p. new (subst (holds s) p old), (same r).1 ((written r).1 (inr old))),
        )

    undo_delete :
        (s t : Store) (rel : Relationship)
        → holds s rel
        → ((r : Relationship)
            → holds t r ↔ holds (apply s (record { operation = delete; relationship = rel })) r)
        → (r : Relationship)
        → holds (apply t (record { operation = touch; relationship = rel })) r ↔ holds s r
    undo_delete s t rel old same r =
        let taken = law s (record { operation = delete; relationship = rel }) r in
        let written = law t (record { operation = touch; relationship = rel }) r in
        (
          λ x. elim (written.0 x) [
            | inl p ↦ subst (holds s) (sym p) old
            | inr held ↦ (taken.0 ((same r).0 held)).1
          ],
          λ held. written.1 (elim (Relationship-discrete r rel) [
            | yes p ↦ inl p
            | no n ↦ inr ((same r).1 (taken.1 (n, held)))
          ]),
        )

    undo :
        (s t : Store) (op : Operation) (rel : Relationship)
        → Changes op (holds s rel)
        → ((r : Relationship)
            → holds t r ↔ holds (apply s (record { operation = op; relationship = rel })) r)
        → (r : Relationship)
        → holds (foldl apply t (rollbacks (record { operation = op; relationship = rel } ∷ []))) r
          ↔ holds s r
    unfolding rollbacks
    undo s t create rel h same = undo_write s t create rel (law s _) h same
    undo s t touch rel h same = undo_write s t touch rel (law s _) h same
    undo s t delete rel h same = undo_delete s t rel h same
    undo s t unspecified rel h same = λ r.
        let kept = law s (record { operation = unspecified; relationship = rel }) r in
        (λ x. kept.0 ((same r).0 x), λ held. (same r).1 (kept.1 held))

    -- If each of the updates changes something when they are applied in order, the updates of the
    -- rollback lead back to a store that holds exactly what was held before.
    pub rollbacks_lem :
        (us : List Update) (s : Store)
        → Effective us s
        → (r : Relationship) → holds (foldl apply (foldl apply s us) (rollbacks us)) r ↔ holds s r
    unfolding rollbacks
    rollbacks_lem [] s h r = (λ x. x, λ x. x)
    rollbacks_lem (u ∷ us) s (c, h) r =
        rw (foldl-append apply (foldl apply (apply s u) us) (rollbacks us) (rollbacks (u ∷ []))) (
          undo s (foldl apply (foldl apply (apply s u) us) (rollbacks us)) u.operation
            u.relationship c (rollbacks_lem us (apply s u) h) r)
