-- ===== src/Client/Allowed.antt =====
-- What the checker of pkg/permissions/permissions.go lets through, when the server's handler is that of
-- internal/api/permissions.go.
use permissions_api.Base.{
  ℕ, zero, suc, String, ◌≡◌, refl, sym, ap, ◌∙◌, ◌⊎◌, inr, Option, none, List, All, length, arith,
}
use permissions_api.Query.Messages.{Error}
use permissions_api.Api.Checks.{CheckRequest, status_for, final_status}
use permissions_api.Api.Pool.{Pool, Reach, start, status_of_results}
use permissions_api.Api.Pool.Safety.{status_of_results_safe}
use permissions_api.Client.{AccessRequest, checker, ensure_valid_server_response, after_request}

-- A status of the handler that is no error to the client is that of success.
status_for-accepted :
    (i u r : ℕ) → ensure_valid_server_response (status_for i u r) ≡ none → status_for i u r ≡ 200
unfolding ensure_valid_server_response
status_for-accepted (suc i) u r h = ground arith
status_for-accepted zero (suc u) r h = ground arith
status_for-accepted zero zero (suc r) h = ground arith
status_for-accepted zero zero zero h = refl

-- If the server has collected as many results as there are requests, its status is what the checker
-- of the client receives, and the checker returns no error, then the engine has answered each of the
-- requests without an error.
pub checker_safe :
    (post : List AccessRequest → String ⊎ ℕ) (asked : List AccessRequest)
    (answers : CheckRequest → Option Error → Type 0) (workers n : ℕ) (rs : List CheckRequest)
    (p : Pool)
    → Reach answers (length rs) (start workers rs) n p
    → length p.received ≡ length rs
    → post asked ≡ inr (status_of_results p.received)
    → checker post asked ≡ none
    → All (λ r. answers r none) rs
unfolding checker status_of_results final_status
checker_safe post asked answers workers n rs p path done received accepted =
    status_of_results_safe answers workers n rs p path done
      (status_for-accepted _ _ _ (sym (ap after_request received) ∙ accepted))
