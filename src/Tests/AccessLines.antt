-- ===== src/Tests/AccessLines.antt =====
-- Access lines of requests that are served and of one that fails.
use fastapi_polyrepo_templat.Prelude.{◌≡◌, refl, ◌++◌, none, [], ◌∷◌, ℕ, Text, codes, str}
use fastapi_polyrepo_templat.Effects.{os_error, is_exception, pure}
use fastapi_polyrepo_templat.World.{App}
use fastapi_polyrepo_templat.Sample.{libraries, healthy}
use fastapi_polyrepo_templat.Sample.Headers.{context_contract}
use fastapi_polyrepo_templat.Middlewares.CorrelationId.{state_key}
use fastapi_polyrepo_templat.Startup.Lifecycle.{create_app}
use fastapi_polyrepo_templat.Startup.Stack.{served}
use fastapi_polyrepo_templat.Startup.Unhandled.{left, unhandled_call}
use fastapi_polyrepo_templat.Startup.AccessLines.{accessed_send, access_call}
use fastapi_polyrepo_templat.Startup.FailedRequests.{report, failed_request_lines}
use fastapi_polyrepo_templat.Tests.Processes.{registries, process, manager}
use fastapi_polyrepo_templat.Tests.Requests.{
  quiet, page, layers, chosen, failing, server_errors, state_kept,
}

abbrev handle_error : App (libraries healthy) Unit
handle_error = pure tt

abbrev line : ℕ → Text
line status = codes "GET /docs " ++ str status

failed_request_lines_example :
    ((report (libraries healthy) handle_error line (codes "\n") (
        served
          (libraries healthy)
          layers
          (create_app registries manager process).1.app.user_middleware
          failing
          page
          (accessed_send (libraries healthy) handle_error line)
          quiet)).1.log
      ≡ unhandled_call
          (libraries healthy)
          os_error
          (codes "c")
          (left (libraries healthy) (λ v. v) (codes "c") quiet)
        ∷ access_call
            (libraries healthy)
            handle_error
            line
            (left (libraries healthy) (λ v. v) (codes "c") quiet).context
            500
        ∷ [])
    × ((left (libraries healthy) (λ v. v) (codes "c") quiet).context state_key ≡ none)
unfolding is_exception
failed_request_lines_example =
    failed_request_lines (libraries healthy) handle_error line (context_contract healthy) layers
      server_errors registries manager process failing (λ name registry. refl) refl os_error
      (λ v. v) (codes "\n") page quiet (codes "c") refl (λ e. cc) chosen (λ send. refl) refl
      state_kept
