-- ===== src/Query/Steps.antt =====
-- Steps of an operation of internal/query and the database transaction: which steps leave it as it
-- is, and which close it after an error.
use permissions_api.Base.{
  ◌≡◌, ◌≢◌, inl, inr, refl, ◌∙◌, none, some, Bool, true, false, arith, Option,
}
use permissions_api.Query.Messages.{Outcome, ok, err, panic, Reply, answer, failure, Error}
use permissions_api.Query.Permission.{Reply-cases}
use permissions_api.Query.Monad.{
  Backend, State, M, is_open, bound, replied, cleaned, mapped, ◌>>=◌, ◌>>◌, lift, check, call, pure,
  on_error, map_error, commit_context, rollback_context,
}

pub replied-ne-panic : {A : Type 0} (r : Reply A) → replied r ≢ panic
replied-ne-panic (answer a) = ground arith
replied-ne-panic (failure x) = ground arith

module _ {b : Backend} where
  -- A result with a transaction that is open or not, and no panic.
  abbrev pub Leaves : {A : Type 0} → Bool → Outcome A × State b → Type 0
  Leaves o (r, s) = (r ≢ panic) × (is_open s.log ≡ o)

  abbrev pub Keeps : {A : Type 0} → M b A → Type 0
  Keeps m = (s : State b) → Leaves (is_open s.log) (m s)

  pub Keeps-bind :
      {A B : Type 0} (m : M b A) (f : A → M b B)
      → Keeps m
      → ((a : A) → Keeps (f a))
      → Keeps (m >>= f)
  Keeps-bind m f h k s = go (m s) (h s)
    where
      go : (x : Outcome _ × State b) → Leaves (is_open s.log) x → Leaves (is_open s.log) (bound f x)
      go (ok a, s') (n, e) = let (p, q) = k a s' in (p, q ∙ e)
      go (err x, s') (n, e) = (ground arith, e)
      go (panic, s') (n, e) = absurd (n refl)

  pub Keeps-call : {A : Type 0} (f : b.World → Reply A × b.World) → Keeps (call f)
  Keeps-call f s = (replied-ne-panic (f s.world).0, refl)

  pub Keeps-lift : {A : Type 0} (r : Outcome A) → r ≢ panic → Keeps (lift r)
  Keeps-lift r n s = (n, refl)

  -- A step whose error is followed by a rollback leaves the transaction closed after an error and
  -- open otherwise.
  abbrev pub Guards : {A : Type 0} → Outcome A × State b → Type 0
  Guards (r, s) = elim r [ ok _ ↦ is_open s.log ≡ true | err _ ↦ is_open s.log ≡ false | panic ↦ ⊥ ]

  pub guarded :
      {A : Type 0} (m : M b A)
      → Keeps m
      → (s : State b) → is_open s.log ≡ true
      → Guards (on_error m (rollback_context b) s)
  unfolding rollback_context
  guarded {A} m h s o = go (m s) (h s)
    where
      go :
          (x : Outcome A × State b)
          → Leaves (is_open s.log) x
          → Guards (cleaned (rollback_context b) x)
      go (ok a, s') (n, e) = e ∙ o
      go (err x, s') (n, e) = refl
      go (panic, s') (n, e) = absurd (n refl)

  pub ends :
      {A B : Type 0} (m : M b A) (f : A → M b B) (s : State b)
      → Guards (m s)
      → ((a : A) (s' : State b) → is_open s'.log ≡ true → Leaves false (f a s'))
      → Leaves false ((m >>= f) s)
  ends m f s h k = go (m s) h
    where
      go : (x : Outcome _ × State b) → Guards x → Leaves false (bound f x)
      go (ok a, s') e = k a s' e
      go (err x, s') e = (ground arith, e)
      go (panic, s') e = absurd e

  -- From a closed transaction to a closed one.
  pub passes :
      {A B : Type 0} (m : M b A) (f : A → M b B) (s : State b)
      → Keeps m
      → is_open s.log ≡ false
      → ((a : A) (s' : State b) → is_open s'.log ≡ false → Leaves false (f a s'))
      → Leaves false ((m >>= f) s)
  passes {A} m f s h o k = go (m s) (h s)
    where
      go : (x : Outcome A × State b) → Leaves (is_open s.log) x → Leaves false (bound f x)
      go (ok a, s') (n, e) = k a s' (e ∙ o)
      go (err x, s') (n, e) = (ground arith, e ∙ o)
      go (panic, s') (n, e) = absurd (n refl)

  pub last :
      {A B : Type 0} (m : M b A) (v : B) (s : State b)
      → Leaves false (m s)
      → Leaves false ((m >> pure v) s)
  last {A} {B} m v s h = go (m s) h
    where
      go : (x : Outcome A × State b) → Leaves false x → Leaves false (bound (λ _. pure v) x)
      go (ok a, s') (n, e) = (ground arith, e)
      go (err x, s') (n, e) = (ground arith, e)
      go (panic, s') (n, e) = absurd (n refl)

  pub Keeps-check : (o : Option Error) → Keeps (check {b = b} o)
  Keeps-check none s = (ground arith, refl)
  Keeps-check (some x) s = (ground arith, refl)

  pub Keeps-map_error :
      {A : Type 0} (f : Error → Error) (m : M b A) → Keeps m → Keeps (map_error f m)
  Keeps-map_error {A} f m h s = go (m s) (h s)
    where
      go :
          (x : Outcome A × State b) → Leaves (is_open s.log) x → Leaves (is_open s.log) (mapped f x)
      go (ok a, s') h = (ground arith, h.1)
      go (err x, s') h = (ground arith, h.1)
      go (panic, s') h = absurd (h.0 refl)

  -- The commit, with the clean-up of `CreateRoleBinding` and others after an error, closes the
  -- transaction.
  pub commit_closes :
      (s : State b) (undo : M b (Unit {0}))
      → Keeps undo
      → Leaves false (on_error (commit_context b) (rollback_context b >> undo) s)
  unfolding commit_context rollback_context
  commit_closes s undo h = elim (Reply-cases (b.commit_tx s.world).0) [
    | inl (a, p) ↦ rw (p, commit_context) (ground arith, refl)
    | inr (x, p) ↦ rw (p, commit_context) (ground arith, (h _).1)
  ]
