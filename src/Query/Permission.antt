-- ===== src/Query/Permission.antt =====
-- When the engine of internal/query/relations.go grants a permission, and which relationships it
-- accepts.
use permissions_api.Base.{
  ◌≢◌, sym, eq-cases, some, any, ◌==◌, Option-cases, eq_iff, inl, inr, refl, ap, if◌then◌else◌, ◌⊎◌,
  String, ◌≡◌, ◌↔◌, true, List, [], ◌∷◌, Exists, any_iff, arith, first_error_iff, All, none,
}
use permissions_api.Types.{Resource}
use mathlib.Core.Option.{some-injective}
use permissions_api.Types
use permissions_api.Query.Messages.{
  minimize_latency, at_least_as_fresh, failure, Error, Consistency, ok, Reply, answer, CheckRequest,
}
use permissions_api.Query.Engine.{
  Engine, validate_resource_actions, actions_of, validate_relationship, find_type,
  get_type_for_resource, admits,
}
use permissions_api.Query.Updates.{resource_to_spicedb_ref}
use permissions_api.Query.Monad.{Backend, State, check, ◌>>◌, bound}
use permissions_api.Query.Relations.{
  subject_has_permission, determine_consistency, check_permission,
}

named_iff :
    (xs : List Types.Action) (action : String)
    → (any (λ a. Types.Action.name a == action) xs ≡ true)
      ↔ Exists (λ a. Types.Action.name a ≡ action) xs
named_iff xs action =
    any_iff (λ a. Types.Action.name a == action) (λ a. Types.Action.name a ≡ action)
      (λ a. eq_iff a.name action) xs

-- Actions are accepted for a resource exactly if the policy gives each of them to its type.
pub validate_resource_actions_iff :
    (e : Engine) (res : Resource) (actions : List String)
    → (validate_resource_actions e res actions ≡ none)
      ↔ All (λ action. Exists (λ a. Types.Action.name a ≡ action) (actions_of e res.type)) actions
unfolding validate_resource_actions
validate_resource_actions_iff e res actions =
    first_error_iff _ (λ action. Exists (λ a. Types.Action.name a ≡ action) (actions_of e res.type))
      (λ action. ground (arith, named_iff (actions_of e res.type) action)) actions

pub Reply-cases :
    {A : Type 0} (r : Reply A) → ((a : A) × (r ≡ answer a)) ⊎ ((e : Error) × (r ≡ failure e))
Reply-cases (answer a) = inl (a, refl)
Reply-cases (failure e) = inr (e, refl)

-- A token that is missing or cannot be read is no error: a check falls back on the fastest answer.
determine_consistency_total :
    (b : Backend) (resource : Resource) (s : State b)
    → (c : Consistency) × (s' : State b) × (determine_consistency b resource s ≡ (ok c, s'))
unfolding determine_consistency
determine_consistency_total b resource s =
    let s' : State b = record s { world = (b.store_latest_zed_token resource.id s.world).1 } in
    elim (Reply-cases (b.store_latest_zed_token resource.id s.world).0) [
      | inl (token, h) ↦
          let c : Consistency = if token == "" then minimize_latency else at_least_as_fresh token in
          (c, s', rw (h, determine_consistency) refl)
      | inr (x, h) ↦ (minimize_latency, s', rw (h, determine_consistency) refl)
    ]

-- What SpiceDB is asked for a permission.
abbrev pub request : Engine → Consistency → Resource → String → Resource → CheckRequest
request e c subject action resource = record {
  consistency = c;
  resource = resource_to_spicedb_ref e resource;
  permission = action;
  subject = resource_to_spicedb_ref e subject;
}

check_permission_iff :
    (b : Backend) (req : CheckRequest) (s : State b)
    → ((check_permission b req s).0 ≡ ok tt) ↔ ((b.spice_check req s.world).0 ≡ answer true)
unfolding check_permission
check_permission_iff b req s = elim (Reply-cases (b.spice_check req s.world).0) [
  | inl (g, h) ↦ ground (arith, h)
  | inr (x, h) ↦ ground (arith, h)
]

granted_iff :
    (b : Backend) (e : Engine) (subject : Resource) (action : String) (resource : Resource)
    (s : State b) (c : Consistency) (s' : State b)
    → determine_consistency b resource s ≡ (ok c, s')
    → ((subject_has_permission b e subject action resource s).0 ≡ ok tt) ↔ (
        Exists (λ a. Types.Action.name a ≡ action) (actions_of e resource.type)
        × ((b.spice_check (request e c subject action resource) s'.world).0 ≡ answer true))
unfolding subject_has_permission
granted_iff b e subject action resource s c s' h =
    let req = request e c subject action resource in
    let eq : subject_has_permission b e subject action resource s
        ≡ (check (validate_resource_actions e resource (action ∷ [])) >> check_permission b req)
            s' =
      ap
        (bound (λ c.
          check (validate_resource_actions e resource (action ∷ []))
          >> check_permission b (request e c subject action resource)))
        h in
    rw eq (elim (Option-cases (validate_resource_actions e resource (action ∷ []))) [
      | inl n ↦ rw n (
          let given = ((validate_resource_actions_iff e resource (action ∷ [])).0 n).0 in
          (
            λ g. (given, (check_permission_iff b req s').0 g),
            λ (_, g). (check_permission_iff b req s').1 g,
          ))
      | inr (x, q) ↦ (
        λ g. absurd (ground (arith, q)),
        λ (given, _).
            let n = (validate_resource_actions_iff e resource (action ∷ [])).1 (given, tt) in
            absurd (ground (arith, q, n)),
      )
    ])

-- The consistency of the check is determined without an error, and with it a subject has a
-- permission on a resource exactly if the policy gives the action to the resource's type and
-- SpiceDB grants the permission with that consistency.
pub subject_has_permission_iff :
    (b : Backend) (e : Engine) (subject : Resource) (action : String) (resource : Resource)
    (s : State b)
    → (c : Consistency) × (s' : State b) × (determine_consistency b resource s ≡ (ok c, s'))
      × (((subject_has_permission b e subject action resource s).0 ≡ ok tt) ↔ (
          Exists (λ a. Types.Action.name a ≡ action) (actions_of e resource.type)
          × ((b.spice_check (request e c subject action resource) s'.world).0 ≡ answer true)))
subject_has_permission_iff b e subject action resource s =
    let (c, s', h) = determine_consistency_total b resource s in
    (c, s', h, granted_iff b e subject action resource s c s' h)

-- The type is the first of the schema with the name.
abbrev pub IsFirst : String → List Types.ResourceType → Types.ResourceType → Type 0
IsFirst name [] t = ⊥
IsFirst name (u ∷ ts) t = ((u.name ≡ name) × (u ≡ t)) ⊎ ((u.name ≢ name) × IsFirst name ts t)

pub find_type_iff :
    (name : String) (ts : List Types.ResourceType) (t : Types.ResourceType)
    → (find_type name ts ≡ some t) ↔ IsFirst name ts t
unfolding find_type
find_type_iff name [] t = ground arith
find_type_iff name (u ∷ ts) t = elim (eq-cases name u.name) [
  | inl (p, q) ↦ (
    λ h. inl (sym p, some-injective u t (rw q at h)),
    λ x. elim x [ inl (_, r) ↦ rw q (ap some r) | inr (n, _) ↦ absurd (n (sym p)) ],
  )
  | inr (p, q) ↦ (
    λ h. inr (λ r. p (sym r), (find_type_iff name ts t).0 (rw q at h)),
    λ x. elim x [
      | inl (r, _) ↦ absurd (p (sym r))
      | inr (_, k) ↦ rw q ((find_type_iff name ts t).1 k)
    ],
  )
]

-- A relationship that the policy admits: both of its types are in the schema, and the type of the
-- resource has the relation for the subject's type.
abbrev pub IsAdmitted : Engine → Types.Relationship → Type 0
IsAdmitted e rel =
    (subj : Types.ResourceType) × IsFirst rel.subject.type e.schema subj
    × (res : Types.ResourceType) × IsFirst rel.resource.type e.schema res
    × Exists
        (λ r.
          (rel.relation ≡ Types.ResourceTypeRelationship.relation r)
          × Exists (λ t. subj.name ≡ Types.TargetType.name t) r.types)
        res.relationships

admits_iff :
    (res : Types.ResourceType) (relation subject_type : String)
    → (admits res relation subject_type ≡ true)
      ↔ Exists
          (λ r.
            (relation ≡ Types.ResourceTypeRelationship.relation r)
            × Exists (λ t. subject_type ≡ Types.TargetType.name t) r.types)
          res.relationships
unfolding admits
admits_iff res relation subject_type =
    any_iff _
      (λ r.
        (relation ≡ Types.ResourceTypeRelationship.relation r)
        × Exists (λ t. subject_type ≡ Types.TargetType.name t) r.types)
      (λ r. ground (
        arith,
        eq_iff relation r.relation,
        any_iff (λ t. subject_type == Types.TargetType.name t)
            (λ t. subject_type ≡ Types.TargetType.name t) (λ t. eq_iff subject_type t.name) r.types,
      ))
      res.relationships

-- A relationship is accepted exactly if both of its types are in the schema and the type of the
-- resource, the first of its name, has the relation for the type of the subject.
pub validate_relationship_iff :
    (e : Engine) (rel : Types.Relationship)
    → (validate_relationship e rel ≡ none) ↔ IsAdmitted e rel
unfolding validate_relationship get_type_for_resource
validate_relationship_iff e rel = (
  λ h. elim (Option-cases (find_type rel.subject.type e.schema)) [
    | inl n ↦ absurd (ground arith)
    | inr (subj, p) ↦ elim (Option-cases (find_type rel.resource.type e.schema)) [
      | inl n ↦ absurd (ground arith)
      | inr (res, q) ↦
          let t : admits res rel.relation subj.name ≡ true = ground arith in
          (
            subj,
            (find_type_iff rel.subject.type e.schema subj).0 p,
            res,
            (find_type_iff rel.resource.type e.schema res).0 q,
            (admits_iff res rel.relation subj.name).0 t,
          )
    ]
  ],
  λ (subj, p', res, q', x).
      let p = (find_type_iff rel.subject.type e.schema subj).1 p' in
      let q = (find_type_iff rel.resource.type e.schema res).1 q' in
      let t : admits res rel.relation subj.name ≡ true =
        (admits_iff res rel.relation subj.name).1 x in
      ground arith,
)
