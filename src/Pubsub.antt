-- ===== src/Pubsub.antt =====
-- The subscriber of internal/pubsub/subscriber.go: how a message that asks for relationships to be
-- written or deleted becomes calls of the engine, a reply, and an acknowledgement. A message and
-- what it answers to the calls of its methods come from the events package.
pub mod Answers
pub mod Replies
pub mod Settling
use permissions_api.Base.{
  String, Bool, true, false, Option, none, some, List, [], ◌∷◌, ◌++◌, map, is_empty, ◌==◌,
  if◌then◌else◌,
}
use permissions_api.Dict.{Runtime}
use permissions_api.Types
use permissions_api.Types.{Resource}
use permissions_api.Query.Messages.{Error, Outcome, ok, err, panic}
use permissions_api.Query.Engine.{Engine, new_resource_from_id, get_resource_type}
use permissions_api.Query.Monad.{Backend, State, M, pure, ◌>>=◌, attempt}
use permissions_api.Query.Relations.{create_relationships, remove_relationships}

-- What a reply reports: what the validation of the request finds, an error of the engine, or
-- ErrUnknownResourceType.
pub data Problem : Type 0 where
  invalid_request : Error → Problem
  of_engine : Error → Problem
  unknown_resource_type : Problem

pub record Relation : Type 0 where
  pub relation : String
  pub subject_id : String

pub record Message : Type 0 where
  pub error : Option Error
  pub action : String
  pub object_id : String
  pub relations : List Relation
  -- The errors that `Validate` gives.
  pub validation : List Error
  -- The error of sending a reply with these problems.
  pub reply : List Problem → Option Error

-- The actions of the events package.
pub record Actions : Type 0 where
  pub write : String
  pub delete : String

-- The replies that a message is sent, and the error that its handler returns.
pub record Handled : Type 0 where
  pub replies : List (List Problem)
  pub error : Option Error

unfoldable pub respond_request : Message → List Problem → Handled
respond_request msg problems = record { replies = problems ∷ []; error = msg.reply problems }

abbrev pub problem_of : Option Error → List Problem
problem_of none = []
problem_of (some x) = of_engine x ∷ []

module _ (b : Backend) (e : Engine) where
  -- The problems of a resource of the message: its identifier or its type is not known. After the
  -- first, `handleDeleteEvent` goes on with an empty resource, whose type it looks up as well.
  unfoldable pub type_problems : String → List Problem
  type_problems name = elim (get_resource_type e name) [
    | none ↦ unknown_resource_type ∷ []
    | some _ ↦ []
  ]

  abbrev pub subject_problems : Outcome Resource → List Problem
  subject_problems (ok subject) = type_problems subject.type
  subject_problems (err x) = of_engine x ∷ []
  subject_problems panic = []

  abbrev pub related : Resource → Relation → Outcome Resource → List Types.Relationship
  related resource r (ok subject) =
      record { resource = resource; relation = r.relation; subject = subject } ∷ []
  related resource r (err x) = []
  related resource r panic = []

  -- The loop over the relations: the relationships, where there is no problem, and the problems.
  unfoldable pub relationships_of :
      Resource → List Relation → List Types.Relationship × List Problem
  relationships_of resource [] = ([], [])
  relationships_of resource (r ∷ rs) =
      let subject = new_resource_from_id b.prefix e r.subject_id in
      let (rels, problems) = relationships_of resource rs in
      (related resource r subject ++ rels, subject_problems subject ++ problems)

  -- What both handlers do once the relationships are read.
  abbrev pub apply_or_report :
      (List Types.Relationship → M b (Unit {0}))
      → Message
      → List Types.Relationship × List Problem
      → M b Handled
  apply_or_report write msg (rels, []) =
      attempt (write rels) >>= λ x. pure (respond_request msg (problem_of x))
  apply_or_report write msg (rels, problem ∷ problems) =
      pure (respond_request msg (problem ∷ problems))

  -- The relationships and the problems of a message, with those found before.
  abbrev pub all_problems :
      List Problem → List Types.Relationship × List Problem → List Types.Relationship × List Problem
  all_problems found (rels, problems) = (rels, found ++ problems)

  abbrev pub create_typed :
      (g : Runtime) → Message → Resource → Option Types.ResourceType → M b Handled
  create_typed g msg resource none = pure (respond_request msg (unknown_resource_type ∷ []))
  create_typed g msg resource (some _) =
      apply_or_report (create_relationships b e g) msg (
        all_problems (map invalid_request msg.validation) (relationships_of resource msg.relations))

  abbrev pub create_in : (g : Runtime) → Message → Outcome Resource → M b Handled
  create_in g msg (err x) = pure (respond_request msg (of_engine x ∷ []))
  create_in g msg panic = λ s. (panic, s)
  create_in g msg (ok resource) = create_typed g msg resource (get_resource_type e resource.type)

  unfoldable pub handle_create_event : Runtime → Message → M b Handled
  unfolding respond_request relationships_of
  handle_create_event g msg = create_in g msg (new_resource_from_id b.prefix e msg.object_id)

  abbrev pub object_of : Outcome Resource → Resource × List Problem
  object_of (ok resource) = (resource, type_problems resource.type)
  object_of (err x) = (record { type = ""; id = "" }, of_engine x ∷ type_problems "")
  object_of panic = (record { type = ""; id = "" }, [])

  unfoldable pub handle_delete_event : Runtime → Message → M b Handled
  unfolding respond_request relationships_of type_problems
  handle_delete_event g msg =
      let (resource, found) = object_of (new_resource_from_id b.prefix e msg.object_id) in
      apply_or_report (remove_relationships b e g) msg (
        all_problems (map invalid_request msg.validation ++ found)
          (relationships_of resource msg.relations))

  abbrev pub unhandled : Option Error → Handled
  unhandled x = record { replies = []; error = x }

  -- What `processEvent` does with a message that carries no error, and with one that does.
  abbrev pub process_in : Runtime → Actions → Message → Option Error → M b Handled
  process_in g actions msg (some x) = pure (unhandled (some x))
  process_in g actions msg none =
      if msg.action == actions.write
      then handle_create_event g msg
      else if msg.action == actions.delete
      then handle_delete_event g msg
      else pure (unhandled none)

  unfoldable pub process_event : Runtime → Actions → Message → M b Handled
  unfolding handle_create_event handle_delete_event
  process_event g actions msg = process_in g actions msg msg.error

-- How the loop of `listen` settles a message; the errors of settling are only logged.
pub data Settlement : Type 0 where
  acked naked : Settlement

abbrev pub settled_by : Option Error → Settlement
settled_by none = acked
settled_by (some x) = naked

abbrev pub settlement : Handled → Settlement
settlement handled = settled_by handled.error

-- The messages of a channel, up to its end, with how each is settled.
unfoldable pub listen :
    (b : Backend) → Engine → Runtime → Actions → List Message → M b (List (Handled × Settlement))
unfolding process_event
listen b e g actions [] = pure []
listen b e g actions (msg ∷ msgs) = do
  handled ← process_event b e g actions msg
  rest ← listen b e g actions msgs
  pure ((handled, settlement handled) ∷ rest)
