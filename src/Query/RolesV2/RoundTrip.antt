-- ===== src/Query/RolesV2/RoundTrip.antt =====
-- The actions of a v2 role (internal/query/roles_v2.go), written as relationships and read back.
use mathlib.Core.List.{flat_map}
use text.Mathlib.TextLemmas.{append_cancel_left}
use permissions_api.Base.{
  String, ◌≡◌, ◌≢◌, refl, sym, false, some, List, [], ◌∷◌, ◌++◌, ◌==◌, map, map-append,
  if◌then◌else◌, eq_iff, eq_refl, arith, All, inl, inr, Option-cases,
}
use permissions_api.Query.Messages.{
  Error, ok, err, panic, touch, ObjectReference, Update, Relationship,
}
use permissions_api.Query.Engine.{Engine, new_resource_from_id, get_resource_type}
use permissions_api.Query.Updates.{namespaced, resource_to_spicedb_ref, relation_to_action}
use permissions_api.Query.Inversion.{Outcome-cases}
use permissions_api.Query.Names.{HoldsRel, relation_to_action-action_to_relation}
use permissions_api.Query.Roles.{actions_of_relationships}
use permissions_api.Query.RolesV2.Relations.{action_update, action_updates, role_v2_relationships}

namespaced-ne : (e : Engine) (t u : String) → t ≢ u → namespaced e u ≢ namespaced e t
namespaced-ne e t u n p =
    n (sym (append_cancel_left "/" u t (append_cancel_left e.namespace _ _ p)))

-- The relationships whose subject has a type.
abbrev pub of_subject_type : String → List Relationship → List Relationship
of_subject_type t [] = []
of_subject_type t (rel ∷ rels) =
    if rel.subject.object.object_type == t
    then rel ∷ of_subject_type t rels
    else of_subject_type t rels

of_subject_type-append :
    (t : String) (xs ys : List Relationship)
    → of_subject_type t (xs ++ ys) ≡ of_subject_type t xs ++ of_subject_type t ys
of_subject_type-append t [] ys = refl
of_subject_type-append t (x ∷ xs) ys = ground (arith, of_subject_type-append t xs ys)

module _ (e : Engine) (role_ref : ObjectReference) (t : String) where
  abbrev written : String → List String → List Relationship
  written action ts = map Update.relationship (map (action_update e action role_ref touch) ts)

  others :
      (action : String) (ts : List String)
      → All (λ u. t ≢ u) ts
      → of_subject_type (namespaced e t) (written action ts) ≡ []
  others action [] h = refl
  others action (u ∷ ts) (n, h) =
      let miss : (namespaced e u == namespaced e t) ≡ false =
        ground (arith, eq_iff (namespaced e u) (namespaced e t), namespaced-ne e t u n) in
      rw miss (others action ts h)

  actions-cons :
      (rel : Relationship) (rels : List Relationship) {a : String} {actions : List String}
      → relation_to_action rel.relation ≡ some a
      → actions_of_relationships rels ≡ ok actions
      → actions_of_relationships (rel ∷ rels) ≡ ok (a ∷ actions)
  unfolding actions_of_relationships
  actions-cons rel rels h k = rw (h, k, actions_of_relationships) refl

  read_back :
      (ts actions : List String)
      → All (λ u. t ≢ u) ts
      → All (λ a. ¬ HoldsRel a) actions
      → actions_of_relationships (
          of_subject_type (namespaced e t) (
            map Update.relationship
              (flat_map (λ a. map (action_update e a role_ref touch) (t ∷ ts)) actions)))
        ≡ ok actions
  unfolding actions_of_relationships flat_map
  read_back ts [] h k = refl
  read_back ts (a ∷ actions) h (n, k) =
      let rest = flat_map (λ a. map (action_update e a role_ref touch) (t ∷ ts)) actions in
      let shape : of_subject_type (namespaced e t)
            (map Update.relationship (map (action_update e a role_ref touch) (t ∷ ts) ++ rest))
          ≡ Update.relationship (action_update e a role_ref touch t)
            ∷ of_subject_type (namespaced e t) (map Update.relationship rest) =
        rw
          (
            map-append Update.relationship,
            of_subject_type-append (namespaced e t) (written a (t ∷ ts))
                (map Update.relationship rest),
            eq_refl (namespaced e t),
            others a ts h,
          )
          refl in
      rw shape (
        actions-cons (Update.relationship (action_update e a role_ref touch t))
          (of_subject_type (namespaced e t) (map Update.relationship rest))
          ((relation_to_action-action_to_relation a).1 n) (read_back ts actions h k))

ok-inj : {A : Type 0} {a b : A} → ok a ≡ ok b → a ≡ b
ok-inj h = ground arith

err-ne-ok : {A : Type 0} {x : Error} {a : A} → ¬ (err x ≡ ok a)
err-ne-ok h = ground arith

panic-ne-ok : {A : Type 0} {a : A} → ¬ (panic ≡ ok a)
panic-ne-ok h = ground arith

written_updates :
    (prefix : String → String) (e : Engine) (id : String) (actions : List String) {us : List Update}
    → role_v2_relationships prefix e id actions ≡ ok us
    → (ref : ObjectReference) × (us
        ≡ flat_map (λ a. map (action_update e a ref touch) e.rbac.role_subject_types) actions)
unfolding role_v2_relationships action_updates
written_updates prefix e id actions q = elim (Outcome-cases (new_resource_from_id prefix e id)) [
  | inl (role, p) ↦ elim (Option-cases (get_resource_type e e.rbac.role_resource.name)) [
    | inl n ↦ absurd (err-ne-ok (rw (p, n, role_v2_relationships) at q))
    | inr (_, n) ↦
        (resource_to_spicedb_ref e role, sym (ok-inj (rw (p, n, role_v2_relationships) at q)))
  ]
  | inr (inl (x, p)) ↦ absurd (err-ne-ok (rw (p, role_v2_relationships) at q))
  | inr (inr p) ↦ absurd (panic-ne-ok (rw (p, role_v2_relationships) at q))
]

-- The relationships that `roleV2Relationships` gives for a role, if it gives any, hold its actions:
-- those with the first of the types of subjects, which is what `listRoleV2Actions` reads, are read
-- back as exactly the actions, in order, if that type is not named again and no action's name
-- holds "_rel".
pub actions_of_relationships-role_v2_relationships :
    (prefix : String → String) (e : Engine) (id t : String) (ts actions : List String)
    (us : List Update)
    → e.rbac.role_subject_types ≡ t ∷ ts
    → All (λ u. t ≢ u) ts
    → All (λ a. ¬ HoldsRel a) actions
    → role_v2_relationships prefix e id actions ≡ ok us
    → actions_of_relationships (of_subject_type (namespaced e t) (map Update.relationship us))
      ≡ ok actions
actions_of_relationships-role_v2_relationships prefix e id t ts actions us p h k q =
    let (ref, shape) = written_updates prefix e id actions q in
    rw shape (rw p (read_back e ref t ts actions h k))
