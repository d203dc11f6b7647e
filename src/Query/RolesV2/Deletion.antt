-- ===== src/Query/RolesV2/Deletion.antt =====
-- `DeleteRoleV2` of internal/query/roles_v2.go: what a role must satisfy to be deleted, and what has
-- been done when it answers.
use permissions_api.Base.{
  String, ◌≡◌, refl, ap, ◌∙◌, none, some, Option, true, List, [], ◌∷◌, is_empty, if◌then◌else◌,
  ◌or_else◌, inl, inr,
}
use permissions_api.Types.{Resource}
use permissions_api.Query.Messages.{
  Error, Filter, ok, err, answer, delete_role_in_use, Relationship, StorageRole,
}
use permissions_api.Query.Engine.{Engine, new_resource_from_id}
use permissions_api.Query.Updates.{namespaced}
use permissions_api.Query.Monad.{
  Backend, State, M, Event, began, committed, removed, is_open, bound, cleaned, ◌>>=◌, ◌>>◌, check,
  call, on_error, attempt, begin_context, commit_context, rollback_context, delete_relationships,
}
use permissions_api.Query.Roles.{new_resource, get_storage_role, lock_role_for_update}
use permissions_api.Query.RolesV2.{
  delete_role_v2, erase_role_v2, bindings_of, role_as_resource, role_as_subject,
}
use permissions_api.Query.Inversion.{
  bound-eq-ok, cleaned-eq-ok, call-eq-ok_at, begin_context-eq-answer, mapped-eq-ok, check-eq-ok,
  lift-eq-ok, attempted-eq-ok, begin_context-eq-ok, commit_context-eq-ok,
  delete_relationships-eq-ok,
}

or_else-eq-none : (o p : Option Error) → (o or_else p) ≡ none → (o ≡ none) × (p ≡ none)
or_else-eq-none none p h = (refl, h)
or_else-eq-none (some e) p h = cc

module _ (b : Backend) (e : Engine) where
  attempt-eq-none :
      (m : M b (Unit {0})) (s : State b) {o : Option Error} {t : State b}
      → attempt m s ≡ (ok o, t)
      → o ≡ none
      → m s ≡ (ok tt, t)
  attempt-eq-none m s h n = elim (attempted-eq-ok (m s) h) [ inl (_, p) ↦ p | inr (x, p) ↦ cc ]

  abbrev erased : String → String → List Event → List Event
  erased role_id owner_type before =
      committed
      ∷ removed (role_as_subject b e owner_type "" role_id)
      ∷ removed (role_as_resource b e role_id)
      ∷ before

  erase-eq-ok :
      (role_id : String) (owner : Resource) (s : State b) (w : b.World) {t : State b}
      → s.world ≡ w
      → erase_role_v2 b e role_id owner s ≡ (ok tt, t)
      → ((gone : StorageRole) × ((b.store_delete_role role_id w).0 ≡ answer gone))
        × (t.log ≡ erased role_id owner.type s.log)
  unfolding erase_role_v2
  erase-eq-ok role_id owner s w {t} same h =
      let del₁ = delete_relationships b (role_as_resource b e role_id) in
      let del₂ = delete_relationships b (role_as_subject b e owner.type "" role_id) in
      let commit = on_error (commit_context b) (rollback_context b) in
      let checked : Option Error → Option Error → M b (Unit {0}) =
        λ x y. on_error (check (x or_else y)) (rollback_context b) >> commit in
      let second : Option Error → M b (Unit {0}) = λ x. attempt del₂ >>= checked x in
      let (gone, s₁, h₁, k₁) =
        bound-eq-ok (λ _. attempt del₁ >>= second)
          (on_error (call (b.store_delete_role role_id)) (rollback_context b) s) h in
      let (a, _, l₁) =
        call-eq-ok_at (b.store_delete_role role_id) s w same
          (cleaned-eq-ok (rollback_context b) _ h₁) in
      let (x, s₂, h₂, k₂) = bound-eq-ok second (attempt del₁ s₁) k₁ in
      let (y, s₃, h₃, k₃) = bound-eq-ok (checked x) (attempt del₂ s₂) k₂ in
      let (_, s₄, h₄, k₄) =
        bound-eq-ok (λ _. commit) (on_error (check (x or_else y)) (rollback_context b) s₃) k₃ in
      let (n, l₄) = check-eq-ok (x or_else y) s₃ (cleaned-eq-ok (rollback_context b) _ h₄) in
      let (nx, ny) = or_else-eq-none x y n in
      let l₂ = delete_relationships-eq-ok _ s₁ (attempt-eq-none del₁ s₁ h₂ nx) in
      let l₃ = delete_relationships-eq-ok _ s₂ (attempt-eq-none del₂ s₂ h₃ ny) in
      let l₅ = commit_context-eq-ok s₄ (cleaned-eq-ok (rollback_context b) _ k₄) in ((gone, a), cc)

  no_bindings :
      (rels : List Relationship)
      → (if is_empty rels then none else some delete_role_in_use) ≡ none
      → rels ≡ []
  no_bindings [] h = refl
  no_bindings (r ∷ rels) h = cc

  locked-eq-ok :
      (role : Resource) (s : State b) (w : b.World) {t : State b}
      → s.world ≡ w
      → on_error (lock_role_for_update b e role) (rollback_context b) s ≡ (ok tt, t)
      → ((b.store_lock_role role.id w).0 ≡ answer tt)
        × (t.world ≡ (b.store_lock_role role.id w).1)
        × (t.log ≡ s.log)
  unfolding lock_role_for_update
  locked-eq-ok role s w same h =
      call-eq-ok_at (b.store_lock_role role.id) s w same (
        mapped-eq-ok _ (call (b.store_lock_role role.id) s)
          (cleaned-eq-ok (rollback_context b) _ h))

  storage_role-eq-ok :
      (role : Resource) (s : State b) (w : b.World) {r : StorageRole} {t : State b}
      → s.world ≡ w
      → get_storage_role b e role s ≡ (ok r, t)
      → ((b.store_get_role_by_id role.id w).0 ≡ answer r)
        × (t.world ≡ (b.store_get_role_by_id role.id w).1)
        × (t.log ≡ s.log)
  unfolding get_storage_role
  storage_role-eq-ok role s w same h =
      call-eq-ok_at (b.store_get_role_by_id role.id) s w same
        (mapped-eq-ok _ (call (b.store_get_role_by_id role.id) s) h)

  new_resource-eq-ok :
      (id : String) (s : State b) {r : Resource} {t : State b}
      → new_resource b e id s ≡ (ok r, t)
      → (new_resource_from_id b.prefix e id ≡ ok r) × (t ≡ s)
  unfolding new_resource
  new_resource-eq-ok id s h = lift-eq-ok (new_resource_from_id b.prefix e id) s h

  -- The relationships by which a role is the subject of a type of resources, by one relation or, if
  -- it is empty, by any.
  abbrev pub with_role : String → String → String → Filter
  with_role type relation role_id = record {
    resource_type = namespaced e type;
    optional_resource_id = "";
    optional_relation = relation;
    optional_subject_filter = some (record {
      subject_type = namespaced e e.rbac.role_resource.name;
      optional_subject_id = role_id;
      optional_relation = none;
    });
  }

  -- The relationships of a role.
  abbrev pub of_role : String → Filter
  of_role role_id = record {
    resource_type = namespaced e e.rbac.role_resource.name;
    optional_resource_id = role_id;
    optional_relation = "";
    optional_subject_filter = none;
  }

  -- If `DeleteRoleV2` answers no error, then a transaction began and the role was locked; in the
  -- world that the lock left, SpiceDB answered that no role binding has the role; the database then
  -- gave the row of the role and deleted the role; the relationships of the role were deleted, and
  -- then those of the type of the role's owner to the role; and the transaction was committed.
  pub delete_role_v2-eq-ok :
      (role : Resource) (s t : State b)
      → delete_role_v2 b e role s ≡ (ok tt, t)
      → let bindings = with_role e.rbac.role_binding_resource.name "role" role.id in
        let begun = (b.begin_tx s.world).1 in
        let locked = (b.store_lock_role role.id begun).1 in
        let read = (b.spice_read bindings locked).1 in
        let found = (b.store_get_role_by_id role.id read).1 in
        ((b.begin_tx s.world).0 ≡ answer tt)
        × ((b.store_lock_role role.id begun).0 ≡ answer tt)
        × ((b.spice_read bindings locked).0 ≡ answer [])
        × ((gone : StorageRole) × ((b.store_delete_role role.id found).0 ≡ answer gone))
        × (row : StorageRole) × (owner : Resource) × ((b.store_get_role_by_id role.id read).0
            ≡ answer row)
        × (new_resource_from_id b.prefix e row.resource_id ≡ ok owner)
        × (t.log
            ≡ committed
              ∷ removed (with_role owner.type "" role.id)
              ∷ removed (of_role role.id)
              ∷ began
              ∷ s.log)
  unfolding delete_role_v2
  delete_role_v2-eq-ok role s t h =
      let erase : StorageRole → M b (Unit {0}) =
        λ r. new_resource b e (StorageRole.resource_id r) >>= erase_role_v2 b e role.id in
      let found : M b (Unit {0}) = get_storage_role b e role >>= erase in
      let free : List Relationship → Option Error =
        λ rels. if is_empty rels then none else some delete_role_in_use in
      let read = call (b.spice_read (bindings_of b e role.id)) in
      let lock = on_error (lock_role_for_update b e role) (rollback_context b) in
      let (_, s₁, h₁, k₁) =
        bound-eq-ok (λ _. lock >> (read >>= λ rels. check (free rels) >> found)) (begin_context b s)
          h in
      let (_, s₂, h₂, k₂) =
        bound-eq-ok (λ _. read >>= λ rels. check (free rels) >> found) (lock s₁) k₁ in
      let (rels, s₃, h₃, k₃) = bound-eq-ok (λ rels. check (free rels) >> found) (read s₂) k₂ in
      let (_, s₄, h₄, k₄) = bound-eq-ok (λ _. found) (check (free rels) s₃) k₃ in
      let (r, s₅, h₅, k₅) = bound-eq-ok erase (get_storage_role b e role s₄) k₄ in
      let (owner, s₆, h₆, k₆) =
        bound-eq-ok (erase_role_v2 b e role.id) (new_resource b e r.resource_id s₅) k₅ in
      let (a₁, w₁) = begin_context-eq-answer s h₁ in
      let (a₂, w₂, l₂) = locked-eq-ok role s₁ _ w₁ h₂ in
      let (a₃, w₃, l₃) = call-eq-ok_at (b.spice_read (bindings_of b e role.id)) s₂ _ w₂ h₃ in
      let (n, same) = check-eq-ok (free rels) s₃ h₄ in
      let (a₅, w₅, l₅) = storage_role-eq-ok role s₄ _ (ap State.world same ∙ w₃) h₅ in
      let (a₆, same') = new_resource-eq-ok r.resource_id s₅ h₆ in
      let (a₇, l₇) = erase-eq-ok role.id owner s₆ _ (ap State.world same' ∙ w₅) k₆ in
      let before =
        ap State.log same' ∙ l₅ ∙ ap State.log same ∙ l₃ ∙ l₂ ∙ begin_context-eq-ok s h₁ in
      (
        a₁,
        a₂,
        a₃ ∙ ap answer (no_bindings rels n),
        a₇,
        r,
        owner,
        a₅,
        a₆,
        l₇ ∙ ap (erased role.id owner.type) before,
      )

  -- If a role is locked and SpiceDB answers that a binding has it, `DeleteRoleV2` answers that the
  -- role is in use; nothing has been deleted, and the transaction that it began is still open.
  pub delete_role_v2_in_use :
      (role : Resource) (s s₁ s₂ : State b) (rel : Relationship) (rels : List Relationship)
      → begin_context b s ≡ (ok tt, s₁)
      → lock_role_for_update b e role s₁ ≡ (ok tt, s₂)
      → (b.spice_read (bindings_of b e role.id) s₂.world).0 ≡ answer (rel ∷ rels)
      → let (r, t) = delete_role_v2 b e role s in
        (r ≡ err delete_role_in_use) × (t.log ≡ began ∷ s.log) × (is_open t.log ≡ true)
  unfolding delete_role_v2
  delete_role_v2_in_use role s s₁ s₂ rel rels h₁ h₂ h₃ =
      let erase : StorageRole → M b (Unit {0}) =
        λ r. new_resource b e (StorageRole.resource_id r) >>= erase_role_v2 b e role.id in
      let found : M b (Unit {0}) = get_storage_role b e role >>= erase in
      let free : List Relationship → Option Error =
        λ rels. if is_empty rels then none else some delete_role_in_use in
      let req = bindings_of b e role.id in
      let rest : M b (Unit {0}) = call (b.spice_read req) >>= λ rels. check (free rels) >> found in
      let s₃ : State b = record s₂ { world = (b.spice_read req s₂.world).1 } in
      let runs : delete_role_v2 b e role s ≡ (err delete_role_in_use, s₃) =
        ap (bound (λ _. on_error (lock_role_for_update b e role) (rollback_context b) >> rest)) h₁
        ∙ ap (λ r. bound (λ _. rest) (cleaned (rollback_context b) r)) h₂
        ∙ rw h₃ refl in
      let l₁ = begin_context-eq-ok s h₁ in
      let (_, _, l₂) = locked-eq-ok role s₁ _ refl (ap (cleaned (rollback_context b)) h₂) in
      let l₃ : (delete_role_v2 b e role s).1.log ≡ began ∷ s.log =
        ap (λ r. State.log r.1) runs ∙ l₂ ∙ l₁ in
      (ap (λ r. r.0) runs, l₃, ap is_open l₃)
