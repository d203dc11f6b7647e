-- ===== src/Query/Monad.antt =====
-- The calls that the engine of internal/query makes: to the database through the `Storage`
-- interface of internal/storage, to SpiceDB, and to gidx. What they answer is a parameter, a
-- function of the arguments and of a world that each call may change. Nothing is assumed of how the
-- calls act on the world, such as that a transaction cannot be committed after a rollback. The log of an operation
-- records what it has done to the transaction and to SpiceDB, the newest event first.
use permissions_api.Base.{String, Bool, true, false, Option, none, some, List, [], ◌∷◌}
use permissions_api.Types
use permissions_api.Query.Messages.{
  Error, Outcome, ok, err, panic, Reply, answer, failure, Update, Filter, Relationship,
  CheckRequest, LookupRequest, StorageRole,
}

pub record Backend : Type 1 where
  pub World : Type 0
  pub begin_tx : World → Reply (Unit {0}) × World
  pub commit_tx : World → Reply (Unit {0}) × World
  pub rollback_tx : World → Reply (Unit {0}) × World
  pub store_get_role_by_id : String → World → Reply StorageRole × World
  pub store_create_role :
      String → String → String → String → String → World → Reply StorageRole × World
  pub store_update_role : String → String → String → World → Reply StorageRole × World
  pub store_delete_role : String → World → Reply StorageRole × World
  pub store_batch_get_roles : List String → World → Reply (List StorageRole) × World
  pub store_list_resource_roles : String → World → Reply (List StorageRole) × World
  pub store_lock_role : String → World → Reply (Unit {0}) × World
  pub store_get_role_binding : String → World → Reply Types.RoleBinding × World
  pub store_create_role_binding :
      String → String → String → String → World → Reply Types.RoleBinding × World
  pub store_update_role_binding : String → String → World → Reply Types.RoleBinding × World
  pub store_delete_role_binding : String → World → Reply (Unit {0}) × World
  pub store_lock_role_binding : String → World → Reply (Unit {0}) × World
  pub store_upsert_zed_token : String → String → World → Reply (Unit {0}) × World
  pub store_latest_zed_token : String → World → Reply String × World
  -- The token of a write.
  pub spice_write : List Update → World → Reply String × World
  pub spice_read : Filter → World → Reply (List Relationship) × World
  pub spice_delete : Filter → World → Reply (Unit {0}) × World
  -- Whether the permission is granted.
  pub spice_check : CheckRequest → World → Reply Bool × World
  -- The identifiers that the stream gives, up to its end; an error ends it too.
  pub spice_lookup_subjects : LookupRequest → World → Reply (List (Reply String)) × World
  -- A new random identifier with a prefix.
  pub new_id : String → World → Reply String × World
  pub parse_id : String → Reply String
  pub prefix : String → String

pub data Event : Type 0 where
  began committed commit_failed rolled_back : Event
  wrote : List Update → Event
  removed : Filter → Event

pub record State (b : Backend) : Type 0 where
  pub world : b.World
  pub log : List Event

-- An operation of the engine: a call of Go, with its error or panic.
abbrev pub M : Backend → Type 0 → Type 0
M b A = State b → Outcome A × State b

abbrev pub replied : {A : Type 0} → Reply A → Outcome A
replied (answer a) = ok a
replied (failure e) = err e

module _ {b : Backend} where
  abbrev pub pure : {A : Type 0} → A → M b A
  pure a s = (ok a, s)

  abbrev pub raise : {A : Type 0} → Error → M b A
  raise e s = (err e, s)

  -- How an operation goes on after a result.
  abbrev pub bound : {A B : Type 0} → (A → M b B) → Outcome A × State b → Outcome B × State b
  bound f (r, s) = elim r [ ok a ↦ f a s | err e ↦ (err e, s) | panic ↦ (panic, s) ]

  infixl 5 ◌>>=◌ ◌>>◌
  abbrev pub ◌>>=◌ : {A B : Type 0} → M b A → (A → M b B) → M b B
  ◌>>=◌ m f s = bound f (m s)

  abbrev pub ◌>>◌ : {A B : Type 0} → M b A → M b B → M b B
  m >> k = m >>= λ _. k

  abbrev pub lift : {A : Type 0} → Outcome A → M b A
  lift r s = (r, s)

  -- `if err := check; err != nil { return err }`
  abbrev pub check : Option Error → M b (Unit {0})
  check none s = (ok tt, s)
  check (some e) s = (err e, s)

  -- A call of the outside.
  abbrev pub call : {A : Type 0} → (b.World → Reply A × b.World) → M b A
  call f s = let (r, w) = f s.world in (replied r, record s { world = w })

  abbrev pub note : Event → M b (Unit {0})
  note e s = (ok tt, record s { log = e ∷ s.log })

  -- An error of `m` with the clean-up that the code makes before it returns the error.
  abbrev pub cleaned : {A : Type 0} → M b (Unit {0}) → Outcome A × State b → Outcome A × State b
  cleaned cleanup (r, s) = elim r [
    | ok a ↦ (ok a, s)
    | err e ↦ (err e, (cleanup s).1)
    | panic ↦ (panic, s)
  ]

  abbrev pub on_error : {A : Type 0} → M b A → M b (Unit {0}) → M b A
  on_error m cleanup s = cleaned cleanup (m s)

  -- A transaction that cannot begin is answered with a zero value and a nil error.
  abbrev pub begun_then :
      {A : Type 0} → A → M b A → Outcome (Unit {0}) × State b → Outcome A × State b
  begun_then zero k (r, s) = elim r [ ok _ ↦ k s | err _ ↦ (ok zero, s) | panic ↦ (panic, s) ]

  abbrev pub begun_or : {A : Type 0} → A → M b A → M b (Unit {0}) → M b A
  begun_or zero k begin s = begun_then zero k (begin s)

  -- An error kept as a value.
  abbrev pub attempted : Outcome (Unit {0}) × State b → Outcome (Option Error) × State b
  attempted (r, s) = elim r [ ok _ ↦ (ok none, s) | err e ↦ (ok (some e), s) | panic ↦ (panic, s) ]

  abbrev pub attempt : M b (Unit {0}) → M b (Option Error)
  attempt m s = attempted (m s)

  -- An error turned into another.
  abbrev pub mapped : {A : Type 0} → (Error → Error) → Outcome A × State b → Outcome A × State b
  mapped f (r, s) = elim r [ ok a ↦ (ok a, s) | err e ↦ (err (f e), s) | panic ↦ (panic, s) ]

  abbrev pub map_error : {A : Type 0} → (Error → Error) → M b A → M b A
  map_error f m s = mapped f (m s)

module _ (b : Backend) where
  unfoldable pub begin_context : M b (Unit {0})
  begin_context = do call b.begin_tx; note began

  unfoldable pub commit_context : M b (Unit {0})
  commit_context = do on_error (call b.commit_tx) (note commit_failed); note committed

  -- `logRollbackErr(e.logger, e.store.RollbackContext(dbCtx))`: its error is only logged.
  unfoldable pub rollback_context : M b (Unit {0})
  rollback_context s =
      let (r, w) = b.rollback_tx s.world in (ok tt, record { world = w; log = rolled_back ∷ s.log })

  unfoldable pub write_relationships : List Update → M b String
  write_relationships updates = do
    token ← call (b.spice_write updates)
    note (wrote updates)
    pure token

  unfoldable pub delete_relationships : Filter → M b (Unit {0})
  delete_relationships filter = do call (b.spice_delete filter); note (removed filter)

-- The transaction begun by the operation: whether it is still open.
abbrev pub is_open : List Event → Bool
is_open [] = false
is_open (began ∷ _) = true
is_open (committed ∷ _) = false
is_open (rolled_back ∷ _) = false
is_open (commit_failed ∷ es) = is_open es
is_open (wrote _ ∷ es) = is_open es
is_open (removed _ ∷ es) = is_open es
