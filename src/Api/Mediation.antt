-- ===== src/Api/Mediation.antt =====
-- When a handler of internal/api may have done anything to the database or to SpiceDB: the steps
-- that handlers take before they check a permission, and the check.
use permissions_api.Base.{ℕ, String, ◌≡◌, ◌⊎◌, inl, inr, refl, ◌∙◌, Option, none, some}
use permissions_api.Types.{Resource}
use permissions_api.Query.Messages.{Error, Outcome, ok, err, panic, Reply, answer, failure}
use permissions_api.Query.Engine.{Engine, new_resource_from_id}
use permissions_api.Query.Monad.{Backend, State, M}
use permissions_api.Query.Relations.{subject_has_permission}
use permissions_api.Query.Reads.{Reads, Reads-subject_has_permission}
use permissions_api.Api.Http.{
  Http, done, refused, crashed, H, Context, bound, ◌>>=◌, ◌>>◌, answered, engine, bind, parse,
  parsed_or, resource_of, current_subject, check_action_with_response, permission_status,
}

module _ (b : Backend) (e : Engine) (c : Context) (s₀ : State b) where
  -- The identifier is parsed, and the engine gives it this resource.
  abbrev pub Names : String → Resource → Type 0
  Names id res =
      (p : String) × (b.parse_id id ≡ answer p) × (new_resource_from_id b.prefix e p ≡ ok res)

  -- Before anything was logged, the actor had a permission on a target.
  abbrev pub IsGranted : (Resource → Type 0) → String → Type 0
  IsGranted target action =
      (subject : Resource) × (res : Resource) × (s : State b) × (s' : State b) × Names c.actor
        subject
      × target res
      × (s.log ≡ s₀.log)
      × (subject_has_permission b e subject action res s ≡ (ok tt, s'))

  -- The request was not served, and nothing was logged.
  abbrev pub IsTurnedAway : {B : Type 0} → Http B × State b → Type 0
  IsTurnedAway (done _, s) = ⊥
  IsTurnedAway (refused _, s) = s.log ≡ s₀.log
  IsTurnedAway (crashed, s) = s.log ≡ s₀.log

  -- The request was turned away, or the permission was granted first.
  abbrev pub IsMediated : {B : Type 0} → (Resource → Type 0) → String → Http B × State b → Type 0
  IsMediated target action x = IsTurnedAway x ⊎ IsGranted target action

  module _ (target : Resource → Type 0) (action : String) {B : Type 0} where
    pub after_parse :
        (status : ℕ) (id : String) (f : String → H b B) (s : State b)
        → s.log ≡ s₀.log
        → ((p : String) → b.parse_id id ≡ answer p → IsMediated target action (f p s))
        → IsMediated target action ((parse status id >>= f) s)
    after_parse status id f s same k = go (b.parse_id id) refl
      where
        go :
            (r : Reply String)
            → b.parse_id id ≡ r
            → IsMediated target action (bound f (parsed_or status r, s))
        go (answer p) h = k p h
        go (failure x) h = inl same

    pub after_bind :
        {A : Type 0} (status : ℕ) (body : Option A) (f : A → H b B) (s : State b)
        → s.log ≡ s₀.log
        → ((a : A) → IsMediated target action (f a s))
        → IsMediated target action ((bind status body >>= f) s)
    after_bind status none f s same k = inl same
    after_bind status (some a) f s same k = k a

    pub after_resource :
        (status : Error → ℕ) (id : String) (f : Resource → H b B) (s : State b)
        → s.log ≡ s₀.log
        → ((res : Resource)
            → new_resource_from_id b.prefix e id ≡ ok res
            → IsMediated target action (f res s))
        → IsMediated target action ((resource_of b e status id >>= f) s)
    after_resource status id f s same k = go (new_resource_from_id b.prefix e id) refl
      where
        go :
            (r : Outcome Resource)
            → new_resource_from_id b.prefix e id ≡ r
            → IsMediated target action (bound f (answered status r, s))
        go (ok res) h = k res h
        go (err x) h = inl same
        go panic h = inl same

    pub after_subject :
        (f : Resource → H b B) (s : State b)
        → s.log ≡ s₀.log
        → ((subject : Resource) → Names c.actor subject → IsMediated target action (f subject s))
        → IsMediated target action ((current_subject b e c >>= f) s)
    unfolding current_subject
    after_subject f s same k = go (b.parse_id c.actor) refl
      where
        found :
            (p : String)
            → b.parse_id c.actor ≡ answer p
            → (r : Outcome Resource) → new_resource_from_id b.prefix e p ≡ r
            → IsMediated target action (bound f (answered (λ _. 400) r, s))
        found p h (ok res) q = k res (p, h, q)
        found p h (err x) q = inl same
        found p h panic q = inl same

        go :
            (r : Reply String)
            → b.parse_id c.actor ≡ r
            → IsMediated target action
                (bound f (bound (resource_of b e (λ _. 400)) (parsed_or 400 r, s)))
        go (answer p) h = found p h (new_resource_from_id b.prefix e p) refl
        go (failure x) h = inl same

    pub after_read :
        {A : Type 0} (status : Error → ℕ) (m : M b A) (f : A → H b B) (s : State b)
        → Reads m
        → s.log ≡ s₀.log
        → ((a : A) (s' : State b)
            → m s ≡ (ok a, s')
            → s'.log ≡ s₀.log
            → IsMediated target action (f a s'))
        → IsMediated target action ((engine status m >>= f) s)
    after_read {A} status m f s h same k = go (m s) refl (h s ∙ same)
      where
        go :
            (x : Outcome A × State b)
            → m s ≡ x
            → x.1.log ≡ s₀.log
            → IsMediated target action (bound f (answered status x.0, x.1))
        go (ok a, s') h e = k a s' h e
        go (err x, s') h e = inl e
        go (panic, s') h e = inl e

    -- Whatever follows the check is mediated by it.
    pub after_check :
        (subject res : Resource) (k : H b B) (s : State b)
        → Names c.actor subject
        → target res
        → s.log ≡ s₀.log
        → IsMediated target action ((check_action_with_response b e subject action res >> k) s)
    unfolding check_action_with_response
    after_check subject res k s n t same =
        go (subject_has_permission b e subject action res s) refl
          (Reads-subject_has_permission b e subject action res s ∙ same)
      where
        go :
            (x : Outcome (Unit {0}) × State b)
            → subject_has_permission b e subject action res s ≡ x
            → x.1.log ≡ s₀.log
            → IsMediated target action (bound (λ _. k) (answered permission_status x.0, x.1))
        go (ok _, s') h e = inr (subject, res, s, s', n, t, same, h)
        go (err x, s') h e = inl e
        go (panic, s') h e = inl e
