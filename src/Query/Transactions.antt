-- ===== src/Query/Transactions.antt =====
-- Which operations of internal/query/rolebindings.go end the database transaction that they begin.
-- The log of an operation tells whether its transaction is open.
use mathlib.Core.Path.{subst}
use permissions_api.Base.{
  sym, ap, map, if◌then◌else◌, String, ◌≡◌, ◌≢◌, inl, inr, refl, ◌∙◌, none, some, true, false, List,
  [], ◌∷◌, arith,
}
use permissions_api.Types.{Resource, RoleBinding, RoleBindingSubject}
use permissions_api.Query.Messages.{
  StorageRole, action_not_assigned, touch, ok, err, panic, failure, Error, Update,
}
use permissions_api.Query.Engine.{Engine}
use permissions_api.Query.Updates.{
  rollbacks, rolebinding_subject_relationship, rolebinding_role_relationship,
  rolebinding_grant_resource_relationship,
}
use permissions_api.Query.Permission.{Reply-cases}
use permissions_api.Query.Monad.{
  Backend, State, M, began, wrote, is_open, bound, replied, mapped, ◌>>=◌, ◌>>◌, lift, check, call,
  note, pure, on_error, map_error, begin_context, commit_context, rollback_context,
  write_relationships,
}
use permissions_api.Query.Relations.{
  apply_updates, rollback_updates, upsert_resources, upsert_zed_token, check_permission,
}
use permissions_api.Query.RoleBindings.{
  empty_role_binding, is_role_bindable, with_operation, bindable_request, bindable_error,
  role_error, begun, if_begun, id_prefix_of, subject_update, create_role_binding,
  write_role_binding, subject_updates,
}
use permissions_api.Query.Steps.{
  replied-ne-panic, Leaves, Keeps, Keeps-bind, Keeps-call, Keeps-lift, guarded, ends, passes, last,
  Keeps-check, Keeps-map_error, commit_closes,
}

module _ (b : Backend) (e : Engine) where
  pub Keeps-write : (us : List Update) → Keeps (write_relationships b us)
  unfolding write_relationships
  Keeps-write us =
      Keeps-bind (call (b.spice_write us)) (λ token. note (wrote us) >> pure token)
        (Keeps-call (b.spice_write us)) (λ token s. (ground arith, refl))

  Keeps-upsert_resources : (us : List Update) (token : String) → Keeps (upsert_resources b us token)
  unfolding upsert_resources upsert_zed_token
  Keeps-upsert_resources [] token = λ s. (ground arith, refl)
  Keeps-upsert_resources (u ∷ us) token =
      let id = u.relationship.resource.object_id in
      Keeps-bind (upsert_zed_token b id token) (λ _. upsert_resources b us token)
        (Keeps-bind (lift (replied (b.parse_id id)))
          (λ id. call (b.store_upsert_zed_token id token))
          (Keeps-lift (replied (b.parse_id id)) (replied-ne-panic (b.parse_id id)))
          (λ id. Keeps-call (b.store_upsert_zed_token id token)))
        (λ _. Keeps-upsert_resources us token)

  Keeps-apply_updates : (us : List Update) → Keeps (apply_updates b us)
  unfolding apply_updates
  Keeps-apply_updates us =
      Keeps-bind (write_relationships b us) (upsert_resources b us) (Keeps-write us)
        (Keeps-upsert_resources us)

  Keeps-rollback_updates : (us : List Update) → Keeps (rollback_updates b us)
  unfolding rollback_updates
  Keeps-rollback_updates us =
      Keeps-bind (write_relationships b (rollbacks us)) (λ _. pure tt) (Keeps-write (rollbacks us))
        (λ _ s. (ground arith, refl))

  subject_update-ne-panic :
      (rb_id : String) (subj : RoleBindingSubject) → subject_update b e rb_id subj ≢ panic
  unfolding rolebinding_subject_relationship
  subject_update-ne-panic rb_id subj h = ground arith

  Keeps-subject_updates :
      (rb_id : String) (subjs : List RoleBindingSubject) → Keeps (subject_updates b e rb_id subjs)
  unfolding subject_updates
  Keeps-subject_updates rb_id [] = λ s. (ground arith, refl)
  Keeps-subject_updates rb_id (subj ∷ subjs) =
      Keeps-bind (lift (subject_update b e rb_id subj))
        (λ u. subject_updates b e rb_id subjs >>= λ us. pure (u ∷ us))
        (Keeps-lift (subject_update b e rb_id subj) (subject_update-ne-panic rb_id subj))
        (λ u.
          Keeps-bind (subject_updates b e rb_id subjs) (λ us. pure (u ∷ us))
            (Keeps-subject_updates rb_id subjs) (λ us s. (ground arith, refl)))

  Keeps-is_role_bindable : (role res : Resource) → Keeps (is_role_bindable b e role res)
  unfolding is_role_bindable check_permission
  Keeps-is_role_bindable role res =
      Keeps-map_error bindable_error (check_permission b (bindable_request b e role res)) (
        Keeps-bind (call (b.spice_check (bindable_request b e role res)))
          (λ granted. check (if granted then none else some action_not_assigned))
          (Keeps-call (b.spice_check (bindable_request b e role res)))
          (λ granted. Keeps-check (if granted then none else some action_not_assigned)))

  module _ (actor resource : Resource) (role_id manager : String)
      (subjs : List RoleBindingSubject) where
    abbrev updates_of : RoleBinding → List Update → List Update
    updates_of rb us =
        with_operation touch (rolebinding_role_relationship e role_id rb.id)
        ∷ with_operation touch (rolebinding_grant_resource_relationship e resource rb.id)
        ∷ us

    abbrev committed : RoleBinding → List Update → M b RoleBinding
    committed rb us =
        on_error (commit_context b) (rollback_context b >> rollback_updates b us)
        >> pure (record rb {
          role_id = role_id;
          subject_ids = map (λ s. Resource.id (RoleBindingSubject.subject_resource s)) subjs;
        })

    committed_closes :
        (rb : RoleBinding) (us : List Update) (s : State b) → Leaves false (committed rb us s)
    committed_closes rb us s =
        last (on_error (commit_context b) (rollback_context b >> rollback_updates b us)) _ s
          (commit_closes s (rollback_updates b us) (Keeps-rollback_updates us))

    abbrev applied : RoleBinding → List Update → M b RoleBinding
    applied rb us =
        on_error (apply_updates b (updates_of rb us)) (rollback_context b)
        >> committed rb (updates_of rb us)

    abbrev stored : RoleBinding → M b RoleBinding
    stored rb = on_error (subject_updates b e rb.id subjs) (rollback_context b) >>= applied rb

    abbrev identified : String → M b RoleBinding
    identified rbid =
        on_error (call (b.store_create_role_binding actor.id rbid resource.id manager))
          (rollback_context b)
        >>= stored

    write_role_binding_closes :
        (s : State b)
        → is_open s.log ≡ true
        → Leaves false (write_role_binding b e actor resource role_id manager subjs s)
    unfolding write_role_binding
    write_role_binding_closes s o =
        let new = call (b.new_id (id_prefix_of b e e.rbac.role_binding_resource.name)) in
        ends (on_error new (rollback_context b)) identified s
          (guarded new (Keeps-call (b.new_id (id_prefix_of b e e.rbac.role_binding_resource.name)))
            s o)
          (λ rbid s o.
            let store = b.store_create_role_binding actor.id rbid resource.id manager in
            ends (on_error (call store) (rollback_context b)) stored s
              (guarded (call store) (Keeps-call store) s o)
              (λ rb s o.
                let subject = subject_updates b e rb.id subjs in
                ends (on_error subject (rollback_context b)) (applied rb) s
                  (guarded subject (Keeps-subject_updates rb.id subjs) s o)
                  (λ us s o.
                    let apply = apply_updates b (updates_of rb us) in
                    ends (on_error apply (rollback_context b))
                      (λ _. committed rb (updates_of rb us)) s
                      (guarded apply (Keeps-apply_updates (updates_of rb us)) s o)
                      (λ _ s o. committed_closes rb (updates_of rb us) s))))

  if_begun_closes :
      (k : M b RoleBinding) (s : State b)
      → is_open s.log ≡ false
      → ((s : State b) → is_open s.log ≡ true → Leaves false (k s))
      → Leaves false (if_begun b e k s)
  unfolding begin_context
  if_begun_closes k s o h = elim (Reply-cases (b.begin_tx s.world).0) [
    | inl (a, p) ↦
        let s' : State b = record { world = (b.begin_tx s.world).1; log = began ∷ s.log } in
        let eq : begin_context b s ≡ (ok tt, s') = rw p refl in
        subst (λ r. Leaves false (begun b e k r)) (sym eq) (h s' refl)
    | inr (x, p) ↦
        let eq : begin_context b s ≡ (err x, record s { world = (b.begin_tx s.world).1 }) =
          rw p refl in
        subst (λ r. Leaves false (begun b e k r)) (sym eq) (ground arith, o)
  ]

  -- If no transaction is open when `CreateRoleBinding` is called, none is when it returns, with or
  -- without an error: the one that it began has been committed, or a rollback has been asked for.
  -- It does not panic.
  pub create_role_binding_closes :
      (actor resource role_resource : Resource) (manager : String) (subjs : List RoleBindingSubject)
      (s : State b)
      → is_open s.log ≡ false
      → Leaves false (create_role_binding b e actor resource role_resource manager subjs s)
  unfolding create_role_binding
  create_role_binding_closes actor resource role_resource manager subjs s o =
      let read = call (b.store_get_role_by_id role_resource.id) in
      let inside : StorageRole → M b RoleBinding =
        λ role. write_role_binding b e actor resource (StorageRole.id role) manager subjs in
      passes (is_role_bindable b e role_resource resource)
        (λ _. map_error role_error read >>= λ role. if_begun b e (inside role)) s
        (Keeps-is_role_bindable role_resource resource) o
        (λ _ s o.
          passes (map_error role_error read) (λ role. if_begun b e (inside role)) s
            (Keeps-map_error role_error read (Keeps-call (b.store_get_role_by_id role_resource.id)))
            o
            (λ role s o.
              if_begun_closes (inside role) s o
                (write_role_binding_closes actor resource role.id manager subjs)))

  -- If the role may be bound and exists, and the transaction cannot begin, `CreateRoleBinding`
  -- answers no error, but an empty role binding.
  pub create_role_binding-begin_tx :
      (actor resource role_resource : Resource) (manager : String) (subjs : List RoleBindingSubject)
      (s s₁ s₂ : State b) (role : StorageRole) (x : Error)
      → is_role_bindable b e role_resource resource s ≡ (ok tt, s₁)
      → call (b.store_get_role_by_id role_resource.id) s₁ ≡ (ok role, s₂)
      → (b.begin_tx s₂.world).0 ≡ failure x
      → (create_role_binding b e actor resource role_resource manager subjs s).0
        ≡ ok empty_role_binding
  unfolding create_role_binding begin_context
  create_role_binding-begin_tx actor resource role_resource manager subjs s s₁ s₂ role x h k f =
      let read = call (b.store_get_role_by_id role_resource.id) in
      let inside : StorageRole → M b RoleBinding =
        λ role. write_role_binding b e actor resource (StorageRole.id role) manager subjs in
      let rest : M b RoleBinding =
        map_error role_error read >>= λ role. if_begun b e (inside role) in
      ap (λ r. (bound (λ _. rest) r).0) h
      ∙ ap (λ r. (bound (λ role. if_begun b e (inside role)) (mapped role_error r)).0) k
      ∙ rw (f, if_begun) refl
