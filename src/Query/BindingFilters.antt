-- ===== src/Query/BindingFilters.antt =====
-- How the two lists of role bindings of internal/query/rolebindings.go are related.
use permissions_api.Base.{
  String, ◌≡◌, refl, ap, ◌∙◌, Bool-cases, inl, inr, ◌==◌, ◌&&◌, not, is_empty, none, some, Option,
  List, [], ◌∷◌, if◌then◌else◌,
}
use permissions_api.Types.{Resource, RoleBinding}
use permissions_api.Query.Messages.{
  Error, Outcome, ok, err, panic, Reply, answer, failure, Relationship,
}
use permissions_api.Query.Engine.{Engine}
use permissions_api.Query.Monad.{Backend, State, M, bound, pure, call}
use permissions_api.Query.BindingLists.{
  collect_bindings, collected, binding_of_grant, list_bindings, listed, list_role_bindings,
  list_manager_role_bindings, is_asked,
}

-- The bindings of a manager among bindings.
abbrev pub of_manager : String → List RoleBinding → List RoleBinding
of_manager manager [] = []
of_manager manager (rb ∷ rbs) =
    if rb.manager == manager then rb ∷ of_manager manager rbs else of_manager manager rbs

abbrev pub on_ok : {A B S : Type 0} → (A → B) → Outcome A × S → Outcome B × S
on_ok h (ok a, s) = (ok (h a), s)
on_ok h (err x, s) = (err x, s)
on_ok h (panic, s) = (panic, s)

bound-on_ok :
    {b : Backend} {A B C : Type 0} (h : B → C) (f : A → M b C) (g : A → M b B)
    → ((a : A) (s : State b) → f a s ≡ on_ok h (g a s))
    → (x : Outcome A × State b) → bound f x ≡ on_ok h (bound g x)
bound-on_ok h f g same (ok a, s) = same a s
bound-on_ok h f g same (err x, s) = refl
bound-on_ok h f g same (panic, s) = refl

abbrev kept_pairs : String → List RoleBinding × Option Error → List RoleBinding × Option Error
kept_pairs manager (rbs, x) = (of_manager manager rbs, x)

module _ (b : Backend) (e : Engine) (manager : String) (role_id : Option String) where
  collected_lem :
      (rb : Reply RoleBinding) (rest : List RoleBinding × Option Error)
      → collected b e (some manager) role_id rb (kept_pairs manager rest)
        ≡ kept_pairs manager (collected b e none role_id rb rest)
  collected_lem (failure x) (rbs, y) = refl
  collected_lem (answer rb) (rbs, y) =
      ap (λ l. (l, y))
        (elim (Bool-cases (rb.manager == manager)) [
          | inl p ↦
              elim (Bool-cases (is_asked role_id rb.role_id && not (is_empty rb.subject_ids))) [
                | inl q ↦ rw (p, q, p) refl
                | inr q ↦ rw (p, q) refl
              ]
          | inr p ↦
              elim (Bool-cases (is_asked role_id rb.role_id && not (is_empty rb.subject_ids))) [
                | inl q ↦ rw (p, q, p) refl
                | inr q ↦ rw (p, q) refl
              ]
        ])

  collect_lem :
      (rels : List Relationship) (s : State b)
      → collect_bindings b e (some manager) role_id rels s
        ≡ on_ok (kept_pairs manager) (collect_bindings b e none role_id rels s)
  unfolding collect_bindings
  collect_lem [] s = refl
  collect_lem (rel ∷ rels) s =
      let later : Option String → Reply RoleBinding → M b (List RoleBinding × Option Error) =
        λ m rb. λ s.
          bound (λ rest. pure (collected b e m role_id rb rest))
            (collect_bindings b e m role_id rels s) in
      bound-on_ok (kept_pairs manager) (later (some manager)) (later none)
        (λ rb s.
          ap (bound (λ rest. pure (collected b e (some manager) role_id rb rest)))
            (collect_lem rels s)
          ∙ go rb (collect_bindings b e none role_id rels s))
        (binding_of_grant b e rel s)
    where
      go :
          (rb : Reply RoleBinding) (x : Outcome (List RoleBinding × Option Error) × State b)
          → bound
              (λ rest. pure (collected b e (some manager) role_id rb rest))
              (on_ok (kept_pairs manager) x)
            ≡ on_ok
                (kept_pairs manager)
                (bound (λ rest. pure (collected b e none role_id rb rest)) x)
      go rb (ok rest, s) = ap (λ v. (ok v, s)) (collected_lem rb rest)
      go rb (err x, s) = refl
      go rb (panic, s) = refl

  listed_lem :
      (x : Outcome (List RoleBinding × Option Error) × State b)
      → bound (listed b e) (on_ok (kept_pairs manager) x)
        ≡ on_ok (of_manager manager) (bound (listed b e) x)
  listed_lem (ok (rbs, none), s) = refl
  listed_lem (ok (rbs, some y), s) = refl
  listed_lem (err x, s) = refl
  listed_lem (panic, s) = refl

  -- `ListManagerRoleBindings` answers what `ListRoleBindings` would have answered, less the
  -- bindings of other managers, with the same errors and the same calls.
  pub list_manager_role_bindings_lem :
      (resource : Resource) (s : State b)
      → list_manager_role_bindings b e manager resource role_id s
        ≡ on_ok (of_manager manager) (list_role_bindings b e resource role_id s)
  unfolding list_manager_role_bindings list_role_bindings list_bindings
  list_manager_role_bindings_lem resource s =
      let found : Option String → List Relationship → M b (List RoleBinding) =
        λ m rels. λ s. bound (listed b e) (collect_bindings b e m role_id rels s) in
      bound-on_ok (of_manager manager) (found (some manager)) (found none)
        (λ rels s.
          ap (bound (listed b e)) (collect_lem rels s)
          ∙ listed_lem (collect_bindings b e none role_id rels s))
        (call (b.spice_read _) s)
