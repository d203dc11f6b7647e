-- ===== src/Query/Tokens.antt =====
-- The tokens of internal/query/zedtokens.go do not decide what `CreateRelationships` and
-- `DeleteRelationships` of internal/query/relations.go answer.
use permissions_api.Base.{
  sym, inl, inr, String, ◌≡◌, ◌≢◌, refl, ap, ◌∙◌, none, List, [], ◌∷◌, All, first_error_iff, foldl,
  arith,
}
use permissions_api.Dict.{Runtime}
use permissions_api.Types
use permissions_api.Query.Messages.{
  Outcome, ok, err, panic, Reply, answer, failure, Operation, touch, delete,
}
use permissions_api.Query.Engine.{Engine, validate_relationship}
use permissions_api.Query.Updates.{relationships_to_updates}
use permissions_api.Query.Monad.{
  Backend, State, M, bound, cleaned, began, committed, commit_failed, replied, wrote, ◌>>=◌, ◌>>◌,
  lift, check, call, note, pure, on_error, begin_context, commit_context, rollback_context,
  write_relationships,
}
use permissions_api.Query.Permission.{Reply-cases, IsAdmitted, validate_relationship_iff}
use permissions_api.Query.Steps.{replied-ne-panic}
use permissions_api.Query.Relations.{
  upsert_zed_token, upsert_all, ignored, add_ids, update_relationship_zed_tokens, invalid_among,
  write_updates, create_relationships, remove_relationships,
}

module _ {b : Backend} where
  -- An operation that never panics.
  abbrev Returns : {A : Type 0} → M b A → Type 0
  Returns m = (s : State b) → (m s).0 ≢ panic

  Returns-bind :
      {A B : Type 0} (m : M b A) (f : A → M b B)
      → Returns m
      → ((a : A) → Returns (f a))
      → Returns (m >>= f)
  Returns-bind {A} {B} m f h k s = go (m s) (h s)
    where
      go : (x : Outcome A × State b) → x.0 ≢ panic → (bound f x).0 ≢ panic
      go (ok a, s') n = k a s'
      go (err x, s') n = ground arith
      go (panic, s') n = absurd (n refl)

  Returns-on_error :
      {A : Type 0} (m : M b A) (c : M b (Unit {0})) → Returns m → Returns (on_error m c)
  Returns-on_error {A} m c h s = go (m s) (h s)
    where
      go : (x : Outcome A × State b) → x.0 ≢ panic → (cleaned c x).0 ≢ panic
      go (ok a, s') n = ground arith
      go (err x, s') n = ground arith
      go (panic, s') n = absurd (n refl)

  Returns-call : {A : Type 0} (f : b.World → Reply A × b.World) → Returns (call f)
  Returns-call f s = replied-ne-panic (f s.world).0

module _ (b : Backend) where
  Returns-upsert_all :
      (ids : List (String × Unit {0})) (token : String) → Returns (upsert_all b ids token)
  unfolding upsert_all upsert_zed_token
  Returns-upsert_all [] token = λ s. ground arith
  Returns-upsert_all ((id, _) ∷ ids) token =
      Returns-bind (upsert_zed_token b id token) (λ _. upsert_all b ids token)
        (Returns-bind (lift (replied (b.parse_id id)))
          (λ id. call (b.store_upsert_zed_token id token)) (λ s. replied-ne-panic (b.parse_id id))
          (λ id. Returns-call (b.store_upsert_zed_token id token)))
        (λ _. Returns-upsert_all ids token)

  Returns-begin : Returns (begin_context b)
  unfolding begin_context
  Returns-begin =
      Returns-bind (call b.begin_tx) (λ _. note began) (Returns-call b.begin_tx)
        (λ _ s. ground arith)

  Returns-commit : Returns (commit_context b)
  unfolding commit_context
  Returns-commit =
      Returns-bind (on_error (call b.commit_tx) (note commit_failed)) (λ _. note committed)
        (Returns-on_error (call b.commit_tx) (note commit_failed) (Returns-call b.commit_tx))
        (λ _ s. ground arith)

  ignored-ok : (x : Outcome (Unit {0}) × State b) → x.0 ≢ panic → (ignored b x).0 ≡ ok tt
  ignored-ok (ok a, s) n = refl
  ignored-ok (err x, s) n = refl
  ignored-ok (panic, s) n = absurd (n refl)

  tokens_ignored :
      (g : Runtime) (rels : List Types.Relationship) (token : String) (s : State b)
      → (update_relationship_zed_tokens b g rels token s).0 ≡ ok tt
  unfolding update_relationship_zed_tokens
  tokens_ignored g rels token s =
      let ids = g.order (Unit {0}) (foldl add_ids [] rels) in
      let upserts = on_error (upsert_all b ids token) (rollback_context b) in
      let commit = on_error (commit_context b) (rollback_context b) in
      ignored-ok ((begin_context b >> (upserts >> commit)) s) (
        Returns-bind (begin_context b) (λ _. upserts >> commit) Returns-begin
          (λ _.
            Returns-bind upserts (λ _. commit)
              (Returns-on_error (upsert_all b ids token) (rollback_context b)
                (Returns-upsert_all ids token))
              (λ _. Returns-on_error (commit_context b) (rollback_context b) Returns-commit))
          s)

  -- What is answered to a request, given what SpiceDB answered to the write.
  abbrev pub answer_to : Reply String → Outcome (Unit {0})
  answer_to (answer _) = ok tt
  answer_to (failure x) = err x

  module _ (e : Engine) (g : Runtime) (rels : List Types.Relationship) where
    after_write :
        (op : Operation) (s : State b)
        → (write_updates b e g op rels s).0
          ≡ answer_to (b.spice_write (relationships_to_updates e rels op) s.world).0
    unfolding write_updates write_relationships
    after_write op s =
        let us = relationships_to_updates e rels op in
        let w = (b.spice_write us s.world).1 in
        let finish : Reply String → Outcome (Unit {0}) = λ r.
          (bound (λ token. update_relationship_zed_tokens b g rels token)
            (bound (λ token. note (wrote us) >> pure token)
              (replied r, record s { world = w }))).0 in
        elim (Reply-cases (b.spice_write us s.world).0) [
          | inl (token, h) ↦
              ap finish h
              ∙ (tokens_ignored g rels token (record { world = w; log = wrote us ∷ s.log })
                  ∙ sym (ap answer_to h))
          | inr (x, h) ↦ ap finish h ∙ sym (ap answer_to h)
        ]

    accepted : All (IsAdmitted e) rels → invalid_among b e rels ≡ none
    accepted h =
        rw
          (
            (first_error_iff (validate_relationship e) (IsAdmitted e) (validate_relationship_iff e)
                  rels).1
                h,
            invalid_among,
          )
          refl

    -- If the policy admits each relationship of a request, the operations on relationships answer an
    -- error exactly if SpiceDB answers one to the write, whatever becomes of the tokens.
    pub admitted :
        (s : State b)
        → All (IsAdmitted e) rels
        → ((create_relationships b e g rels s).0
            ≡ answer_to (b.spice_write (relationships_to_updates e rels touch) s.world).0)
          × ((remove_relationships b e g rels s).0
              ≡ answer_to (b.spice_write (relationships_to_updates e rels delete) s.world).0)
    unfolding create_relationships remove_relationships
    admitted s h = (
      ap (λ o. ((check o >> write_updates b e g touch rels) s).0) (accepted h)
          ∙ after_write touch s,
      ap (λ o. ((check o >> write_updates b e g delete rels) s).0) (accepted h)
          ∙ after_write delete s,
    )
