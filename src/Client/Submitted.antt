-- ===== src/Client/Submitted.antt =====
-- When a request for relationships of pkg/permissions/relationships.go succeeds.
use permissions_api.Base.{◌≡◌, ◌↔◌, ◌⊎◌, Bool, true, Option, none, some, List, [], arith}
use permissions_api.Client.{Published, errors_of_response, collected, submit}

module _ {E : Type 0} (is_no_responders : E → Bool) (ignore : Bool) where
  abbrev IsAnswered : Option (Option E × List E) → Type 0
  IsAnswered none = Unit
  IsAnswered (some (x, xs)) = (x ≡ none) × (xs ≡ [])

  -- The error says that nobody listens, and such errors are ignored, or there is no error and none in
  -- the answer.
  abbrev pub IsDone : Published E → Type 0
  IsDone r =
      ((ignore ≡ true) × (x : E) × (r.error ≡ some x) × (is_no_responders x ≡ true))
      ⊎ ((r.error ≡ none) × IsAnswered r.response)

  abbrev pub IsPublished : {R : Type 0} → Option (R → Published E) → R → Type 0
  IsPublished none request = Unit
  IsPublished (some p) request = IsDone (p request)

  IsAnswered-iff : (r : Option (Option E × List E)) → (errors_of_response r ≡ []) ↔ IsAnswered r
  IsAnswered-iff none = ground arith
  IsAnswered-iff (some (none, xs)) = ground arith
  IsAnswered-iff (some (some x, xs)) = ground arith

  collected_iff : (r : Published E) → (collected is_no_responders ignore r ≡ []) ↔ IsDone r
  collected_iff r = ground (arith, IsAnswered-iff r.response)

  -- A request returns no error exactly if it is valid and there is no publisher, or publishing it
  -- gives an error that says that nobody listens and such errors are ignored, or publishing it gives no
  -- error and its answer holds none.
  pub submit_iff :
      {R : Type 0} (validate : R → Option E) (publisher : Option (R → Published E)) (request : R)
      → (submit validate is_no_responders ignore publisher request ≡ [])
        ↔ ((validate request ≡ none) × IsPublished publisher request)
  unfolding submit
  submit_iff validate none request = ground arith
  submit_iff validate (some p) request = ground (arith, collected_iff (p request))
