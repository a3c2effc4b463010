-- ===== src/Providers/Answers.antt =====
-- What the client of openai_compatible.py reports.
use production_agent_runtime.Common.{
  ◌≡◌, refl, Bool, true, false, Option, none, some, Text, Bool-cases, inl, inr,
}
use production_agent_runtime.Common.Int.{ℤ}
use production_agent_runtime.Common.Json.{Json, null, object}
use production_agent_runtime.Common.Exec.{Result, ok, err}
use production_agent_runtime.Common.Exec.Results.{◌>>=◌}
use production_agent_runtime.Resilience.Client.{is_transient}
use production_agent_runtime.Providers.OpenAi.{
  Fetched, answered, http_error, unavailable, broken, Python, get_item, optional_int, respond,
  with_content, with_choice, is_transient_status, receive,
}

-- whether the next try may have another outcome: no connection, or a transient status; an exception
-- that the client does not know stays what it is
unfoldable pub may_pass : Fetched → Bool
may_pass (answered body) = false
may_pass (http_error code detail) = is_transient_status code
may_pass (unavailable message) = true
may_pass (broken e) = is_transient e

-- whether the resilient client tries again
abbrev pub asks_retry : {A : Type 0} → Result A → Bool
asks_retry (ok a) = false
asks_retry (err e) = is_transient e

module _ (python : Python) (counts : (v : Json) → asks_retry (python.to_int v) ≡ false) where
  continue-asks_retry :
      {A B : Type 0} (r : Result A) (f : A → Result B)
      → asks_retry r ≡ false
      → ((a : A) → asks_retry (f a) ≡ false)
      → asks_retry (r >>= f) ≡ false
  unfolding ◌>>=◌
  continue-asks_retry (ok a) f h later = later a
  continue-asks_retry (err e) f h later = h

  get_item-asks_retry : (key : Text) (v : Json) → asks_retry (get_item key v) ≡ false
  get_item-asks_retry key (object fields) = refl
  get_item-asks_retry key v = refl

  counted :
      (r : Result ℤ)
      → asks_retry r ≡ false
      → asks_retry {A = Option ℤ} (elim r [ ok n ↦ ok (some n) | err e ↦ err e ]) ≡ false
  counted (ok n) h = refl
  counted (err e) h = h

  optional_int-asks_retry : (v : Option Json) → asks_retry (optional_int python v) ≡ false
  optional_int-asks_retry none = refl
  optional_int-asks_retry (some null) = refl
  optional_int-asks_retry (some v) = counted (python.to_int v) (counts v)

  respond-asks_retry :
      (default : Text) (body choice content usage : Json)
      → asks_retry (respond python default body choice content usage) ≡ false
  unfolding respond
  respond-asks_retry default body choice content usage =
      search (continue-asks_retry, get_item-asks_retry, optional_int-asks_retry) depth 12

  with_content-asks_retry :
      (default : Text) (body choice : Json) (content : Option Json)
      → asks_retry (with_content python default body choice content) ≡ false
  with_content-asks_retry default body choice none = refl
  with_content-asks_retry default body choice (some content) =
      respond-asks_retry default body choice content _

  with_choice-asks_retry :
      (default : Text) (body : Json) (choice : Option Json)
      → asks_retry (with_choice python default body choice) ≡ false
  with_choice-asks_retry default body none = refl
  with_choice-asks_retry default body (some choice) = with_content-asks_retry default body choice _

  -- Where reading a count as an integer raises no transient error, the client's result makes the
  -- resilient client try again exactly if the provider was not available or answered with one of
  -- the transient statuses (or the network raised a transient error itself).
  pub receive-asks_retry :
      (default : Text) (outcome : Fetched)
      → asks_retry (receive python default outcome) ≡ may_pass outcome
  unfolding receive may_pass
  receive-asks_retry default (answered none) = refl
  receive-asks_retry default (answered (some body)) = with_choice-asks_retry default body _
  receive-asks_retry default (http_error code detail) =
      elim (Bool-cases (is_transient_status code)) [
        | inl passing ↦ rw passing refl
        | inr final ↦ rw final refl
      ]
  receive-asks_retry default (unavailable message) = refl
  receive-asks_retry default (broken e) = refl
