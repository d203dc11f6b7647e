-- ===== src/Api/Targets.antt =====
-- The ways in which the handlers of internal/api find the resource on which they check a permission.
use permissions_api.Base.{ℕ, String, ◌≡◌, refl}
use permissions_api.Types.{Resource, RoleBinding}
use permissions_api.Query.Messages.{Error, ok, answer}
use permissions_api.Query.Engine.{Engine, new_resource_from_id}
use permissions_api.Query.Monad.{Backend, State}
use permissions_api.Query.Roles.{get_role_resource}
use permissions_api.Query.RoleBindings.{get_role_binding, get_role_binding_resource}
use permissions_api.Query.Reads.{
  Reads-get_role_resource, Reads-get_role_binding, Reads-get_role_binding_resource,
}
use permissions_api.Api.Http.{
  H, Context, engine, always, error_response, ◌>>=◌, ◌>>◌, resource_of, current_subject,
  check_action_with_response,
}
use permissions_api.Api.Roles.{found_status}
use permissions_api.Api.Mediation.{
  Names, IsMediated, after_resource, after_subject, after_read, after_check,
}

module _ (b : Backend) (e : Engine) (c : Context) (s : State b) where
  -- The database gives the resource for the role that the identifier names.
  abbrev pub OwnsRole : String → Resource → Type 0
  OwnsRole id res =
      (role : Resource) × (t : State b) × (t' : State b) × Names b e c s id role
      × (get_role_resource b e role t ≡ (ok res, t'))

  -- The same for a role binding.
  abbrev pub OwnsBinding : String → Resource → Type 0
  OwnsBinding id res =
      (rb : Resource) × (t : State b) × (t' : State b) × Names b e c s id rb
      × (get_role_binding_resource b e rb t ≡ (ok res, t'))

  -- The resource of a role binding that has been read.
  abbrev pub HoldsBinding : String → Resource → Type 0
  HoldsBinding id res =
      (rb : Resource) × (row : RoleBinding) × (t : State b) × (t' : State b) × Names b e c s id rb
      × (get_role_binding b e rb t ≡ (ok row, t'))
      × (new_resource_from_id b.prefix e row.resource_id ≡ ok res)

  module _ {A : Type 0} where
    abbrev pub on_resource : (Error → ℕ) → String → (Resource → Resource → H b A) → String → H b A
    on_resource status action k p = current_subject b e c >>= λ subject.
        resource_of b e status p >>= λ res.
        check_action_with_response b e subject action res >> k subject res

    pub on_resource-IsMediated :
        (status : Error → ℕ) (action : String) (k : Resource → Resource → H b A) (id p : String)
        → b.parse_id id ≡ answer p
        → IsMediated b e c s (Names b e c s id) action (on_resource status action k p s)
    on_resource-IsMediated status action k id p hp =
        let named = Names b e c s id in
        let checked : Resource → Resource → H b A =
          λ subject res. check_action_with_response b e subject action res >> k subject res in
        after_subject b e c s named action (λ subject. resource_of b e status p >>= checked subject)
          s refl
          (λ subject hs.
            after_resource b e c s named action status p (checked subject) s refl (λ res hr.
              after_check b e c s named action subject res (k subject res) s hs (p, hp, hr) refl))

    -- The handler goes on with its actor, the role and the resource of the role.
    abbrev pub on_role_and_owner :
        String → (Resource → Resource → Resource → H b A) → String → H b A
    on_role_and_owner action k p = current_subject b e c >>= λ subject.
        resource_of b e (always 400) p >>= λ role.
        engine found_status (get_role_resource b e role) >>= λ res.
        check_action_with_response b e subject action res >> k subject role res

    pub on_role_and_owner-IsMediated :
        (action : String) (k : Resource → Resource → Resource → H b A) (id p : String)
        → b.parse_id id ≡ answer p
        → IsMediated b e c s (OwnsRole id) action (on_role_and_owner action k p s)
    on_role_and_owner-IsMediated action k id p hp =
        let checked : Resource → Resource → Resource → H b A = λ subject role res.
          check_action_with_response b e subject action res >> k subject role res in
        let owned : Resource → Resource → H b A = λ subject role.
          engine found_status (get_role_resource b e role) >>= checked subject role in
        after_subject b e c s (OwnsRole id) action
          (λ subject. resource_of b e (always 400) p >>= owned subject) s refl
          (λ subject hs.
            after_resource b e c s (OwnsRole id) action (always 400) p (owned subject) s refl
              (λ role hr.
                after_read b e c s (OwnsRole id) action found_status (get_role_resource b e role)
                  (checked subject role) s (Reads-get_role_resource b e role) refl
                  (λ res t h same.
                    after_check b e c s (OwnsRole id) action subject res (k subject role res) t hs
                      (role, s, t, (p, hp, hr), h) same)))

    abbrev pub on_role_owner : String → (Resource → Resource → H b A) → String → H b A
    on_role_owner action k = on_role_and_owner action (λ subject role _. k subject role)

    pub on_role_owner-IsMediated :
        (action : String) (k : Resource → Resource → H b A) (id p : String)
        → b.parse_id id ≡ answer p
        → IsMediated b e c s (OwnsRole id) action (on_role_owner action k p s)
    on_role_owner-IsMediated action k =
        on_role_and_owner-IsMediated action (λ subject role _. k subject role)

    abbrev pub on_named : String → (Resource → Resource → H b A) → String → H b A
    on_named action k p = resource_of b e error_response p >>= λ res.
        current_subject b e c >>= λ subject.
        check_action_with_response b e subject action res >> k subject res

    pub on_named-IsMediated :
        (action : String) (k : Resource → Resource → H b A) (id p : String)
        → b.parse_id id ≡ answer p
        → IsMediated b e c s (Names b e c s id) action (on_named action k p s)
    on_named-IsMediated action k id p hp =
        let named = Names b e c s id in
        let checked : Resource → Resource → H b A =
          λ res subject. check_action_with_response b e subject action res >> k subject res in
        after_resource b e c s named action error_response p
          (λ res. current_subject b e c >>= checked res) s refl
          (λ res hr. after_subject b e c s named action (checked res) s refl (λ subject hs.
            after_check b e c s named action subject res (k subject res) s hs (p, hp, hr) refl))

    abbrev pub on_binding_owner : String → (Resource → Resource → H b A) → String → H b A
    on_binding_owner action k p = resource_of b e error_response p >>= λ rb.
        current_subject b e c >>= λ subject.
        engine error_response (get_role_binding_resource b e rb) >>= λ res.
        check_action_with_response b e subject action res >> k subject rb

    pub on_binding_owner-IsMediated :
        (action : String) (k : Resource → Resource → H b A) (id p : String)
        → b.parse_id id ≡ answer p
        → IsMediated b e c s (OwnsBinding id) action (on_binding_owner action k p s)
    on_binding_owner-IsMediated action k id p hp =
        let checked : Resource → Resource → Resource → H b A =
          λ rb subject res. check_action_with_response b e subject action res >> k subject rb in
        let owned : Resource → Resource → H b A = λ rb subject.
          engine error_response (get_role_binding_resource b e rb) >>= checked rb subject in
        after_resource b e c s (OwnsBinding id) action error_response p
          (λ rb. current_subject b e c >>= owned rb) s refl
          (λ rb hr. after_subject b e c s (OwnsBinding id) action (owned rb) s refl (λ subject hs.
            after_read b e c s (OwnsBinding id) action error_response
              (get_role_binding_resource b e rb) (checked rb subject) s
              (Reads-get_role_binding_resource b e rb) refl
              (λ res t h same.
                after_check b e c s (OwnsBinding id) action subject res (k subject rb) t hs
                  (rb, s, t, (p, hp, hr), h) same)))

    abbrev pub on_held : String → (RoleBinding → H b A) → String → H b A
    on_held action k p = resource_of b e error_response p >>= λ rb.
        current_subject b e c >>= λ subject.
        engine error_response (get_role_binding b e rb) >>= λ row.
        resource_of b e error_response (RoleBinding.resource_id row) >>= λ res.
        check_action_with_response b e subject action res >> k row

    pub on_held-IsMediated :
        (action : String) (k : RoleBinding → H b A) (id p : String)
        → b.parse_id id ≡ answer p
        → IsMediated b e c s (HoldsBinding id) action (on_held action k p s)
    on_held-IsMediated action k id p hp =
        let checked : RoleBinding → Resource → Resource → H b A =
          λ row subject res. check_action_with_response b e subject action res >> k row in
        let located : Resource → RoleBinding → H b A = λ subject row.
          resource_of b e error_response (RoleBinding.resource_id row) >>= checked row subject in
        let read : Resource → Resource → H b A =
          λ rb subject. engine error_response (get_role_binding b e rb) >>= located subject in
        after_resource b e c s (HoldsBinding id) action error_response p
          (λ rb. current_subject b e c >>= read rb) s refl
          (λ rb hr. after_subject b e c s (HoldsBinding id) action (read rb) s refl (λ subject hs.
            after_read b e c s (HoldsBinding id) action error_response (get_role_binding b e rb)
              (located subject) s (Reads-get_role_binding b e rb) refl
              (λ row t h same.
                after_resource b e c s (HoldsBinding id) action error_response row.resource_id
                  (checked row subject) t same
                  (λ res hq.
                    after_check b e c s (HoldsBinding id) action subject res (k row) t hs
                      (rb, row, s, t, (p, hp, hr), h, hq) same))))
