-- ===== src/Query/Requests.antt =====
-- What `CreateRelationships` and `DeleteRelationships` of internal/query/relations.go refuse.
use permissions_api.Base.{
  ◌≡◌, refl, ap, List, Option-cases, inl, inr, All, some, first_error, first_error_iff,
}
use permissions_api.Dict.{Runtime}
use permissions_api.Types
use permissions_api.Query.Messages.{touch, delete, err, invalid_relationship}
use permissions_api.Query.Engine.{Engine, validate_relationship}
use permissions_api.Query.Monad.{Backend, State, check, ◌>>◌}
use permissions_api.Query.Permission.{IsAdmitted, validate_relationship_iff}
use permissions_api.Query.Relations.{
  invalid_among, write_updates, create_relationships, remove_relationships,
}

-- If the policy does not admit each of the relationships of a request, neither of the operations
-- calls anything outside, nor changes anything, and both answer that a relationship is invalid.
pub refused :
    (b : Backend) (e : Engine) (g : Runtime) (rels : List Types.Relationship) (s : State b)
    → ¬ All (IsAdmitted e) rels
    → (create_relationships b e g rels s ≡ (err invalid_relationship, s))
      × (remove_relationships b e g rels s ≡ (err invalid_relationship, s))
unfolding create_relationships remove_relationships
refused b e g rels s h = elim (Option-cases (first_error (validate_relationship e) rels)) [
  | inl n ↦ absurd (
      h (
        (first_error_iff (validate_relationship e) (IsAdmitted e) (validate_relationship_iff e)
            rels).0
          n))
  | inr (x, p) ↦
      let q : invalid_among b e rels ≡ some invalid_relationship = rw (p, invalid_among) refl in
      (
        ap (λ o. (check o >> write_updates b e g touch rels) s) q,
        ap (λ o. (check o >> write_updates b e g delete rels) s) q,
      )
]
