-- ===== src/Pubsub/Answers.antt =====
-- When the subscriber of internal/pubsub/subscriber.go can read a message as relationships.
use permissions_api.Base.{
  String, ◌≡◌, ◌≢◌, inl, inr, refl, none, Option-cases, List, [], ◌∷◌, ◌++◌, arith,
}
use permissions_api.Types
use permissions_api.Types.{Resource}
use permissions_api.Query.Messages.{ok}
use permissions_api.Query.Engine.{Engine, new_resource_from_id, get_resource_type}
use permissions_api.Query.Monad.{Backend}
use permissions_api.Query.Inversion.{Outcome-cases, new_resource_from_id-ne-panic}
use permissions_api.Pubsub.{Relation, Message, type_problems, relationships_of}

module _ (b : Backend) (e : Engine) where
  -- The engine knows the identifier and its type.
  abbrev pub IsKnown : String → Resource → Type 0
  IsKnown id res =
      (new_resource_from_id b.prefix e id ≡ ok res) × (get_resource_type e res.type ≢ none)

  -- The relations of a message, read as relationships of a resource.
  abbrev pub IsRead : Resource → List Relation → List Types.Relationship → Type 0
  IsRead resource [] rels = rels ≡ []
  IsRead resource (r ∷ rs) rels =
      (subject : Resource) × (rest : List Types.Relationship) × IsKnown r.subject_id subject
      × IsRead resource rs rest
      × (rels ≡ record { resource = resource; relation = r.relation; subject = subject } ∷ rest)

  -- A message that asks for these relationships.
  abbrev pub IsWellFormed : Message → List Types.Relationship → Type 0
  IsWellFormed msg rels =
      (resource : Resource) × IsKnown msg.object_id resource
      × (msg.validation ≡ [])
      × IsRead resource msg.relations rels

  pub known_type : (name : String) → get_resource_type e name ≢ none → type_problems b e name ≡ []
  unfolding type_problems
  known_type name h = elim (Option-cases (get_resource_type e name)) [
    | inl n ↦ absurd (h n)
    | inr (t, p) ↦ rw (p, type_problems) refl
  ]

  pub relationships_of_lem :
      (resource : Resource) (rs : List Relation) (rels : List Types.Relationship)
      → IsRead resource rs rels
      → relationships_of b e resource rs ≡ (rels, [])
  unfolding relationships_of
  relationships_of_lem resource [] rels h = rw h refl
  relationships_of_lem resource (r ∷ rs) rels (subject, rest, (p, t), h, shape) =
      rw (p, relationships_of_lem resource rs rest h, known_type subject.type t, shape) refl

  pub type_known : (name : String) → type_problems b e name ≡ [] → get_resource_type e name ≢ none
  unfolding type_problems
  type_known name h n = let q = rw (n, type_problems) at h in ground arith

  pub append-eq-nil : {A : Type 0} (xs ys : List A) → xs ++ ys ≡ [] → (xs ≡ []) × (ys ≡ [])
  append-eq-nil [] ys h = (refl, h)
  append-eq-nil (x ∷ xs) ys h = ground arith

  -- Relations without problems are read as relationships.
  pub IsRead-of :
      (resource : Resource) (rs : List Relation)
      → (relationships_of b e resource rs).1 ≡ []
      → IsRead resource rs (relationships_of b e resource rs).0
  unfolding relationships_of
  IsRead-of resource [] h = refl
  IsRead-of resource (r ∷ rs) h =
      elim (Outcome-cases (new_resource_from_id b.prefix e r.subject_id)) [
        | inl (subject, p) ↦
            let (t, rest) = append-eq-nil (type_problems b e subject.type) _ (rw p at h) in
            (
              subject,
              (relationships_of b e resource rs).0,
              (p, type_known subject.type t),
              IsRead-of resource rs rest,
              rw p refl,
            )
        | inr (inl (x, p)) ↦ let q = rw p at h in ground arith
        | inr (inr p) ↦ absurd (new_resource_from_id-ne-panic b.prefix e r.subject_id p)
      ]
