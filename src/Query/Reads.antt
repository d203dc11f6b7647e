-- ===== src/Query/Reads.antt =====
-- Operations of internal/query that only read: they begin no transaction and write nothing.
use permissions_api.Base.{
  String, ◌≡◌, inl, inr, refl, ◌∙◌, Option, none, some, List, [], ◌∷◌, ◌==◌, ◌++◌, if◌then◌else◌,
  is_empty,
}
use permissions_api.Types.{Resource, RoleBinding}
use permissions_api.Iapl.Rbac.{rolebinding_subject_relation}
use permissions_api.Query.Messages.{
  Error, Outcome, ok, err, panic, CheckRequest, Relationship, Consistency, StorageRole,
  role_binding_has_no_relationships, action_not_assigned,
}
use permissions_api.Query.Engine.{Engine, new_resource_from_id, validate_resource_actions}
use permissions_api.Query.Updates.{resource_to_spicedb_ref}
use permissions_api.Query.Permission.{Reply-cases}
use permissions_api.Query.Monad.{
  Backend, State, M, bound, mapped, replied, ◌>>=◌, ◌>>◌, lift, call, check, map_error,
}
use permissions_api.Query.Roles.{get_role_resource, get_storage_role, new_resource}
use permissions_api.Query.RoleBindings.{get_role_binding, get_role_binding_resource, read_binding}
use permissions_api.Query.Relations.{
  subject_has_permission, determine_consistency, check_permission,
}

module _ {b : Backend} where
  -- The operation adds nothing to the log.
  abbrev pub Reads : {A : Type 0} → M b A → Type 0
  Reads m = (s : State b) → (m s).1.log ≡ s.log

  pub Reads-bind :
      {A B : Type 0} (m : M b A) (f : A → M b B)
      → Reads m
      → ((a : A) → Reads (f a))
      → Reads (m >>= f)
  Reads-bind {A} m f h k s = go (m s) (h s)
    where
      go : (x : Outcome A × State b) → x.1.log ≡ s.log → (bound f x).1.log ≡ s.log
      go (ok a, s') e = k a s' ∙ e
      go (err x, s') e = e
      go (panic, s') e = e

  pub Reads-map_error :
      {A : Type 0} (f : Error → Error) (m : M b A) → Reads m → Reads (map_error f m)
  Reads-map_error {A} f m h s = go (m s) (h s)
    where
      go : (x : Outcome A × State b) → x.1.log ≡ s.log → (mapped f x).1.log ≡ s.log
      go (ok a, s') e = e
      go (err x, s') e = e
      go (panic, s') e = e

  pub Reads-check : (o : Option Error) → Reads (check {b = b} o)
  Reads-check none s = refl
  Reads-check (some x) s = refl

module _ (b : Backend) (e : Engine) where
  Reads-determine_consistency : (res : Resource) → Reads (determine_consistency b res)
  unfolding determine_consistency
  Reads-determine_consistency res s =
      elim (Reply-cases (b.store_latest_zed_token res.id s.world).0) [
        | inl (a, p) ↦ rw (p, determine_consistency) refl
        | inr (x, p) ↦ rw (p, determine_consistency) refl
      ]

  Reads-check_permission : (req : CheckRequest) → Reads (check_permission b req)
  unfolding check_permission
  Reads-check_permission req =
      Reads-bind (call (b.spice_check req))
        (λ granted. check (if granted then none else some action_not_assigned)) (λ s. refl)
        (λ granted. Reads-check _)

  pub Reads-subject_has_permission :
      (subject : Resource) (action : String) (res : Resource)
      → Reads (subject_has_permission b e subject action res)
  unfolding subject_has_permission
  Reads-subject_has_permission subject action res =
      let asked : Consistency → CheckRequest = λ c. record {
        consistency = c;
        resource = resource_to_spicedb_ref e res;
        permission = action;
        subject = resource_to_spicedb_ref e subject;
      } in
      let valid = check (validate_resource_actions e res (action ∷ [])) in
      Reads-bind (determine_consistency b res) (λ c. valid >> check_permission b (asked c))
        (Reads-determine_consistency res)
        (λ c.
          Reads-bind valid (λ _. check_permission b (asked c)) (Reads-check _)
            (λ _. Reads-check_permission (asked c)))

  pub Reads-get_role_resource : (role : Resource) → Reads (get_role_resource b e role)
  unfolding get_role_resource get_storage_role new_resource
  Reads-get_role_resource role =
      Reads-bind (get_storage_role b e role) (λ row. new_resource b e (StorageRole.resource_id row))
        (Reads-map_error _ (call (b.store_get_role_by_id role.id)) (λ s. refl)) (λ row s. refl)

  pub Reads-get_role_binding_resource : (rb : Resource) → Reads (get_role_binding_resource b e rb)
  unfolding get_role_binding_resource
  Reads-get_role_binding_resource rb =
      Reads-bind (map_error _ (call (b.store_get_role_binding rb.id)))
        (λ row. lift (new_resource_from_id b.prefix e (RoleBinding.resource_id row)))
        (Reads-map_error _ (call (b.store_get_role_binding rb.id)) (λ s. refl)) (λ row s. refl)

  Reads-read_binding :
      (rels : List Relationship) (rb : RoleBinding) → Reads (read_binding b e rels rb)
  unfolding read_binding
  Reads-read_binding [] rb = λ s. refl
  Reads-read_binding (rel ∷ rels) rb =
      Reads-bind (lift (replied (b.parse_id rel.subject.object.object_id)))
        (λ id. read_binding b e rels (
          if rel.relation == rolebinding_subject_relation
          then record rb { subject_ids = rb.subject_ids ++ id ∷ [] }
          else record rb { role_id = id }))
        (λ s. refl) (λ id. Reads-read_binding rels _)

  pub Reads-get_role_binding : (rb : Resource) → Reads (get_role_binding b e rb)
  unfolding get_role_binding
  Reads-get_role_binding rb =
      let found : List Relationship → Option Error =
        λ rels. if is_empty rels then some role_binding_has_no_relationships else none in
      let read : RoleBinding → List Relationship → M b RoleBinding =
        λ row rels. read_binding b e rels (record row { subject_ids = [] }) in
      let rest : RoleBinding → M b RoleBinding =
        λ row. call (b.spice_read _) >>= λ rels. check (found rels) >> read row rels in
      Reads-bind (map_error _ (call (b.store_get_role_binding rb.id))) rest
        (Reads-map_error _ (call (b.store_get_role_binding rb.id)) (λ s. refl))
        (λ row.
          Reads-bind (call (b.spice_read _)) (λ rels. check (found rels) >> read row rels)
            (λ s. refl)
            (λ rels.
              Reads-bind (check (found rels)) (λ _. read row rels) (Reads-check (found rels))
                (λ _. Reads-read_binding rels _)))
