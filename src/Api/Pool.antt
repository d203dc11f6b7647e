-- ===== src/Api/Pool.antt =====
-- The checks of one request to `checkAllActions` of internal/api/permissions.go, which run at the
-- same time: a channel of requests, workers that take them, a channel of results with room for one
-- result per request, and a collector that receives as many results as there are requests. Each
-- step of the relation is taken by one of them, in any order, and the time may run out at any step.
pub mod Invariant
pub mod Status
pub mod Safety
pub mod Progress
use permissions_api.Base.{
  ℕ, suc, ◌<◌, ◌≡◌, Bool, true, false, Option, List, [], ◌∷◌, ◌++◌, map, length,
}
use permissions_api.Query.Messages.{Error}
use permissions_api.Api.Checks.{
  CheckRequest, Verdict, internal, verdict_of, final_status, tally, no_errors,
}

-- A result that is sent or collected: of a request, or of the time that has run out.
pub data Result : Type 0 where
  checked : CheckRequest → Option Error → Result
  timed_out : Result

pub record Pool : Type 0 where
  -- The closed channel of requests.
  pub requests : List CheckRequest
  -- What the workers are checking, and how many wait for a request.
  pub busy : List CheckRequest
  pub idle : ℕ
  pub results : List Result
  pub received : List Result
  pub expired : Bool

abbrev pub start : ℕ → List CheckRequest → Pool
start workers rs = record {
  requests = rs;
  busy = [];
  idle = workers;
  results = [];
  received = [];
  expired = false;
}

-- `answers r x`: the engine may answer the request with the error, or with none.
module _ (answers : CheckRequest → Option Error → Type 0) (total : ℕ) where
  pub data Step : Pool → Pool → Type 0 where
    -- A worker takes a request.
    take :
        (p : Pool) (r : CheckRequest) (rs : List CheckRequest) (k : ℕ)
        → p.requests ≡ r ∷ rs
        → p.idle ≡ suc k
        → Step p (record p { requests = rs; busy = r ∷ p.busy; idle = k })
    -- A worker has its answer and sends it.
    finish :
        (p : Pool) (before : List CheckRequest) (r : CheckRequest) (after : List CheckRequest)
        (x : Option Error)
        → p.busy ≡ before ++ r ∷ after
        → answers r x
        → length p.results < total
        → Step p (record p {
          busy = before ++ after;
          idle = suc p.idle;
          results = p.results ++ checked r x ∷ [];
        })
    -- A worker finds the channel closed and empty.
    quit : (p : Pool) (k : ℕ) → p.requests ≡ [] → p.idle ≡ suc k → Step p (record p { idle = k })
    expire : (p : Pool) → Step p (record p { expired = true })
    -- A worker finds that the time has run out, sends that, and goes on.
    give_up :
        (p : Pool) (k : ℕ)
        → p.expired ≡ true
        → p.idle ≡ suc k
        → length p.results < total
        → Step p (record p { results = p.results ++ timed_out ∷ [] })
    -- The collector receives a result.
    collect :
        (p : Pool) (x : Result) (xs : List Result)
        → p.results ≡ x ∷ xs
        → length p.received < total
        → Step p (record p { results = xs; received = p.received ++ x ∷ [] })
    -- The collector finds that the time has run out.
    collect_expired :
        (p : Pool)
        → p.expired ≡ true
        → length p.received < total
        → Step p (record p { received = p.received ++ timed_out ∷ [] })

  -- The pools that the request comes to, with the number of steps.
  pub data Reach (s : Pool) : ℕ → Pool → Type 0 where
    here : Reach s 0 s
    next : {n : ℕ} {p q : Pool} → Reach s n p → Step p q → Reach s (suc n) q

abbrev pub verdict : Result → Verdict
verdict (checked r x) = verdict_of x
verdict timed_out = internal

-- The status that is answered once all of the results are received.
unfoldable pub status_of_results : List Result → ℕ
unfolding final_status tally
status_of_results rs = final_status (tally no_errors (map verdict rs))
