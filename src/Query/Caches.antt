-- ===== src/Query/Caches.antt =====
-- What the caches that `cacheSchemaResources` of internal/query/service.go builds answer.
use mathlib.Core.Option
use permissions_api.Base.{
  foldl_iff, Exists-append, Exists-imp, true, String, ◌≡◌, ◌↔◌, ◌⊎◌, inl, inr, refl, ap, sym, ◌∙◌,
  Bool-cases, eq-cases, ◌==◌, if◌then◌else◌, List, [], ◌∷◌, ◌++◌, foldl, Exists, eq_iff, arith,
  some, none, Option-cases,
}
use permissions_api.Dict.{Dict, has, lookup, insert, lookup-insert}
use permissions_api.Types
use permissions_api.Query.Messages.{ok, err, invalid_namespace}
use permissions_api.Query.Diff.{IsIn}
use permissions_api.Query.Engine.{
  emptied, new_resource_from_id, Engine, add_subject_relation, add_relationship, cache_resource,
  cache_schema_resources,
}

-- The types that have the relation for a type of subjects.
abbrev pub names_for : Dict (Dict (List String)) → String → String → List String
names_for m t relation =
    let relations : Dict (List String) = Option.get_or (lookup t m) [] in
    Option.get_or (lookup relation relations) []

names_for-add_subject_relation :
    (name relation' t relation : String) (m : Dict (Dict (List String))) (target : Types.TargetType)
    → names_for (add_subject_relation name relation' m target) t relation ≡ (
        if target.name == t
        then (if relation' == relation
            then names_for m target.name relation' ++ name ∷ []
            else names_for m target.name relation)
        else names_for m t relation)
unfolding add_subject_relation
names_for-add_subject_relation name relation' t relation m target =
    let relations : Dict (List String) = Option.get_or (lookup target.name m) [] in
    let names = names_for m target.name relation' ++ name ∷ [] in
    rw (lookup-insert target.name t (insert relation' names relations) m)
      (elim (Bool-cases (target.name == t)) [
        | inl p ↦ rw p (
            rw (lookup-insert relation' relation names relations)
              (elim (Bool-cases (relation' == relation)) [ inl q ↦ rw q refl | inr q ↦ rw q refl ]))
        | inr p ↦ rw p refl
      ])

module _ (n t relation : String) where
  -- What one target type adds.
  abbrev Adds : String → String → Types.TargetType → Type 0
  Adds name relation' target = (relation' ≡ relation) × (target.name ≡ t) × (name ≡ n)

  add_iff :
      (name relation' : String) (m : Dict (Dict (List String))) (target : Types.TargetType)
      → IsIn n (names_for (add_subject_relation name relation' m target) t relation)
        ↔ (IsIn n (names_for m t relation) ⊎ Adds name relation' target)
  add_iff name relation' m target =
      rw (names_for-add_subject_relation name relation' t relation m target)
        (elim (eq-cases target.name t) [
          | inl (p, b) ↦ rw b (elim (eq-cases relation' relation) [
            | inl (q, c) ↦ rw c (
                rw (p, q)
                  (ground (arith, Exists-append (λ y. y ≡ n) (names_for m t relation) (name ∷ []))))
            | inr (q, c) ↦ rw c (rw p (ground arith))
          ])
          | inr (p, b) ↦ rw b (ground arith)
        ])

  -- What a relation of a type adds, and what a type adds.
  abbrev AddsRelation : String → Types.ResourceTypeRelationship → Type 0
  AddsRelation name rel = Exists (Adds name rel.relation) rel.types

  abbrev AddsType : Types.ResourceType → Type 0
  AddsType res = Exists (AddsRelation res.name) res.relationships

  relationship_iff :
      (name : String) (m : Dict (Dict (List String))) (rel : Types.ResourceTypeRelationship)
      → IsIn n (names_for (add_relationship name m rel) t relation)
        ↔ (IsIn n (names_for m t relation) ⊎ AddsRelation name rel)
  unfolding add_relationship
  relationship_iff name m rel =
      foldl_iff (λ m. IsIn n (names_for m t relation)) (Adds name rel.relation)
        (add_subject_relation name rel.relation) (add_iff name rel.relation) m rel.types

  resource_iff :
      (e : Engine) (res : Types.ResourceType)
      → IsIn n (names_for (cache_resource e res).schema_subject_relation_map t relation)
        ↔ (IsIn n (names_for e.schema_subject_relation_map t relation) ⊎ AddsType res)
  unfolding cache_resource
  resource_iff e res =
      foldl_iff (λ m. IsIn n (names_for m t relation)) (AddsRelation res.name)
        (add_relationship res.name) (relationship_iff res.name) e.schema_subject_relation_map
        res.relationships

  -- The reverse look-up of the engine gives a name for a type of subjects and a relation exactly if
  -- the schema has a type of that name with that relation for that type of subjects.
  pub cache_schema_resources_iff :
      (e : Engine)
      → IsIn n (names_for (cache_schema_resources e).schema_subject_relation_map t relation)
        ↔ Exists
            (λ res.
              Exists
                (λ rel.
                  Exists
                    (λ target. (rel.relation ≡ relation) × (target.name ≡ t) × (res.name ≡ n))
                    rel.types)
                res.relationships)
            e.schema
  unfolding cache_schema_resources lookup
  cache_schema_resources_iff e =
      let (found, kept) =
        foldl_iff (λ e. IsIn n (names_for e.schema_subject_relation_map t relation)) AddsType
          cache_resource resource_iff (emptied e) e.schema in
      (λ h. elim (found h) [ inl x ↦ absurd x | inr r ↦ r ], λ r. kept (inr r))

-- Whether the engine knows a prefix.
abbrev Knows : String → Engine → Type 0
Knows k e = has k e.schema_prefix_map ≡ true

Knows-iff :
    (k : String) (e : Engine) (res : Types.ResourceType)
    → Knows k (cache_resource e res) ↔ (Knows k e ⊎ (res.id_prefix ≡ k))
unfolding cache_resource
Knows-iff k e res =
    ground (arith, lookup-insert res.id_prefix k res e.schema_prefix_map, eq_iff res.id_prefix k)

known :
    (k : String) (e : Engine) (types : List Types.ResourceType) (r : Types.ResourceType)
    → lookup k (foldl cache_resource e types).schema_prefix_map ≡ some r
    → (lookup k e.schema_prefix_map ≡ some r) ⊎ Exists (λ x. (x.id_prefix ≡ k) × (x ≡ r)) types
unfolding cache_resource
known k e [] r h = inl h
known k e (x ∷ types) r h = elim (known k (cache_resource e x) types r h) [
  | inl p ↦ ground (arith, lookup-insert x.id_prefix k x e.schema_prefix_map, eq_iff x.id_prefix k)
  | inr q ↦ inr (inr q)
]

answer_of :
    (prefix : String → String) (e : Engine) (id : String) (res : Types.ResourceType)
    → lookup (prefix id) e.schema_prefix_map ≡ some res
    → new_resource_from_id prefix e id ≡ ok (record { type = res.name; id = id })
unfolding new_resource_from_id
answer_of prefix e id res h = rw (h, new_resource_from_id) refl

refusal_of :
    (prefix : String → String) (e : Engine) (id : String)
    → lookup (prefix id) e.schema_prefix_map ≡ none
    → new_resource_from_id prefix e id ≡ err invalid_namespace
unfolding new_resource_from_id
refusal_of prefix e id h = rw (h, new_resource_from_id) refl

-- With the caches of its schema the engine either refuses an identifier, and no type of the schema
-- has its prefix, or gives it the name of a type of the schema with its prefix.
pub new_resource_from_id-cache_schema_resources :
    (prefix : String → String) (e : Engine) (id : String)
    → ((new_resource_from_id prefix (cache_schema_resources e) id ≡ err invalid_namespace)
        × ¬ Exists (λ res. Types.ResourceType.id_prefix res ≡ prefix id) e.schema)
      ⊎ Exists
          (λ res.
            (Types.ResourceType.id_prefix res ≡ prefix id)
            × (new_resource_from_id prefix (cache_schema_resources e) id
                ≡ ok (record { type = res.name; id = id })))
          e.schema
unfolding cache_schema_resources lookup
new_resource_from_id-cache_schema_resources prefix e id =
    let k = prefix id in
    let cached = foldl cache_resource (emptied e) e.schema in
    elim (Option-cases (lookup k cached.schema_prefix_map)) [
      | inl n ↦ inl (
        refusal_of prefix cached id n,
        λ ex.
            let kept =
              (foldl_iff (Knows k) (λ res. Types.ResourceType.id_prefix res ≡ k) cache_resource
                  (Knows-iff k) (emptied e) e.schema).1
                (inr ex) in
            ground (arith, kept, n),
      )
      | inr (t, q) ↦ inr (elim (known k (emptied e) e.schema t q) [
        | inl p ↦ absurd (ground (arith, p))
        | inr found ↦
            Exists-imp (λ x. (x.id_prefix ≡ k) × (x ≡ t)) _
              (λ x (p, r). (p, answer_of prefix cached id x (q ∙ ap some (sym r)))) e.schema found
      ])
    ]
