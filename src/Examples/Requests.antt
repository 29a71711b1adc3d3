-- ===== src/Examples/Requests.antt =====
-- Requests to two models, the first of which answers 429.
use wordbit_advanced.Prelude.{
  ◌≡◌, ◌+◌, ◌*◌, ◌≤◌, none, some, [], ◌∷◌, string_eq, codes, pos, refl, length, if◌then◌else◌, ◌==◌,
  ℕ,
}
use wordbit_advanced.Domain.{second}
use wordbit_advanced.Quota.{new_quota_cache}
use wordbit_advanced.Executor.{
  Service, Calls, HttpResponse, answered, ok, execute_json, max_attempts,
}
use wordbit_advanced.Executor.Requests.{execute_json-requests}
use wordbit_advanced.Executor.Settled.{execute_json-IsSettled, IsSettled}
use wordbit_advanced.Examples.Samples.{ascii}

abbrev busy : HttpResponse
busy = record { status_code = 429; body = []; retry_after = codes "60" }

abbrev fine : HttpResponse
fine = record { status_code = 200; body = codes "{}"; retry_after = [] }

-- The parsed value is the number of runes of the body.
abbrev two_models : Service ℕ
two_models = record {
  models = "first" ∷ "second" ∷ [];
  max_retries = pos 3;
  build_payload = λ model. ok (codes model);
  create_error = λ url. none;
  exchange = λ sent model request. answered (if model == "first" then busy else fine);
  parse = λ body. ok (length body, body);
  clock = λ k. k * second;
  error_envelope = λ body. none;
  parse_duration = λ t. none;
  reason_text = λ t. "";
  unicode = ascii;
}

abbrev no_calls : Calls
no_calls = record { quota = new_quota_cache (pos 5) (pos 20); sent = []; readings = 0; slept = 0 }

second_answers : (execute_json two_models no_calls).0.0.value ≡ some 2
unfolding execute_json
second_answers = refl

two_requests : (execute_json two_models no_calls).1.sent ≡ "second" ∷ "first" ∷ []
unfolding execute_json
two_requests = refl

execute_json-requests_example :
    length (execute_json two_models no_calls).1.sent ≤ 0 + 2 * max_attempts two_models
execute_json-requests_example = execute_json-requests two_models no_calls

execute_json-IsSettled_example :
    IsSettled two_models
      (execute_json two_models no_calls).0.0
      (execute_json two_models no_calls).0.1
execute_json-IsSettled_example = execute_json-IsSettled two_models no_calls
