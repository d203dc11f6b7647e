-- ===== src/Query/RolesV2/Closing.antt =====
-- Which operations of internal/query/roles_v2.go end the database transaction that they begin.
use mathlib.Core.Path.{subst}
use permissions_api.Base.{
  String, ◌≡◌, ◌≢◌, inl, inr, refl, sym, true, false, List, ◌∷◌, ◌++◌, arith,
}
use permissions_api.Types.{Resource, Role}
use permissions_api.Query.Messages.{ok, err, panic, Update, StorageRole}
use permissions_api.Query.Engine.{Engine}
use permissions_api.Query.Permission.{Reply-cases}
use permissions_api.Query.Monad.{
  Backend, State, M, began, is_open, ◌>>=◌, ◌>>◌, lift, call, pure, on_error, begin_context,
  commit_context, rollback_context, write_relationships, begun_or, begun_then,
}
use permissions_api.Query.Roles.{empty_role, role_of}
use permissions_api.Query.RolesV2.{create_role_v2, store_role_v2, role_prefix}
use permissions_api.Query.RolesV2.Relations.{role_v2_relationships, role_v2_owner_relationship}
use permissions_api.Query.Steps.{Leaves, Keeps-call, Keeps-lift, guarded, ends, passes, last}
use permissions_api.Query.Inversion.{new_resource_from_id-ne-panic}
use permissions_api.Query.Transactions.{Keeps-write}

module _ (prefix : String → String) (e : Engine) where
  relationships-ne-panic :
      (id : String) (actions : List String) → role_v2_relationships prefix e id actions ≢ panic
  unfolding role_v2_relationships
  relationships-ne-panic id actions = ground (arith, new_resource_from_id-ne-panic prefix e id)

  owner-ne-panic :
      (id : String) (owner : Resource) → role_v2_owner_relationship prefix e id owner ≢ panic
  unfolding role_v2_owner_relationship
  owner-ne-panic id owner = ground (arith, new_resource_from_id-ne-panic prefix e id)

module _ {b : Backend} where
  commit_ends : (s : State b) → Leaves false (on_error (commit_context b) (rollback_context b) s)
  unfolding commit_context rollback_context
  commit_ends s = elim (Reply-cases (b.commit_tx s.world).0) [
    | inl (a, p) ↦ rw (p, commit_context) (ground arith, refl)
    | inr (x, p) ↦ rw (p, commit_context) (ground arith, refl)
  ]

  begun_closes :
      {A : Type 0} (zero : A) (k : M b A) (s : State b)
      → is_open s.log ≡ false
      → ((s : State b) → is_open s.log ≡ true → Leaves false (k s))
      → Leaves false (begun_or zero k (begin_context b) s)
  unfolding begin_context
  begun_closes zero k s o h = elim (Reply-cases (b.begin_tx s.world).0) [
    | inl (a, p) ↦
        let s' : State b = record { world = (b.begin_tx s.world).1; log = began ∷ s.log } in
        let eq : begin_context b s ≡ (ok tt, s') = rw p refl in
        subst (λ r. Leaves false (begun_then zero k r)) (sym eq) (h s' refl)
    | inr (x, p) ↦
        let eq : begin_context b s ≡ (err x, record s { world = (b.begin_tx s.world).1 }) =
          rw p refl in
        subst (λ r. Leaves false (begun_then zero k r)) (sym eq) (ground arith, o)
  ]

module _ (b : Backend) (e : Engine) (actor owner : Resource) (manager role_name : String)
    (actions : List String) where
  store_role_v2_closes :
      (id : String) (rels : List Update) (s : State b)
      → is_open s.log ≡ true
      → Leaves false (store_role_v2 b e actor owner manager role_name actions id rels s)
  unfolding store_role_v2
  store_role_v2_closes id rels s o =
      let store = b.store_create_role actor.id id role_name manager owner.id in
      let finish : StorageRole → M b Role = λ r.
        on_error (commit_context b) (rollback_context b)
        >> pure (record (role_of r actions) { id = id; name = role_name }) in
      ends (on_error (call store) (rollback_context b))
        (λ r. on_error (write_relationships b rels) (rollback_context b) >> finish r) s
        (guarded (call store) (Keeps-call store) s o)
        (λ r s o.
          ends (on_error (write_relationships b rels) (rollback_context b)) (λ _. finish r) s
            (guarded (write_relationships b rels) (Keeps-write b e rels) s o)
            (λ _ s o. last (on_error (commit_context b) (rollback_context b)) _ s (commit_ends s)))

  -- If no transaction is open when `CreateRoleV2` is called, none is when it returns, with or
  -- without an error, and it does not panic.
  pub create_role_v2_closes :
      (s : State b)
      → is_open s.log ≡ false
      → Leaves false (create_role_v2 b e actor owner manager role_name actions s)
  unfolding create_role_v2
  create_role_v2_closes s o =
      let store = store_role_v2 b e actor owner manager role_name actions in
      let stored : String → List Update → List Update → M b Role = λ id role_rels owner_rels.
        begun_or empty_role (store id (role_rels ++ owner_rels)) (begin_context b) in
      let owned : String → List Update → M b Role = λ id role_rels.
        lift (role_v2_owner_relationship b.prefix e id owner) >>= stored id role_rels in
      passes (call (b.new_id (role_prefix b e)))
        (λ id. lift (role_v2_relationships b.prefix e id actions) >>= owned id) s
        (Keeps-call (b.new_id (role_prefix b e))) o
        (λ id s o.
          passes (lift (role_v2_relationships b.prefix e id actions)) (owned id) s
            (Keeps-lift (role_v2_relationships b.prefix e id actions)
              (relationships-ne-panic b.prefix e id actions))
            o
            (λ role_rels s o.
              passes (lift (role_v2_owner_relationship b.prefix e id owner)) (stored id role_rels) s
                (Keeps-lift (role_v2_owner_relationship b.prefix e id owner)
                  (owner-ne-panic b.prefix e id owner))
                o
                (λ owner_rels s o.
                  begun_closes empty_role (store id (role_rels ++ owner_rels)) s o
                    (store_role_v2_closes id (role_rels ++ owner_rels)))))
