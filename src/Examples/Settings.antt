-- ===== src/Examples/Settings.antt =====
-- The provider's client and the configuration on concrete inputs.
use production_agent_runtime.Common.{
  ◌∷◌, ◌+◌, text_eq, strip, lstrip, ◌≡◌, refl, false, Option, none, [], Text, text,
}
use production_agent_runtime.Common.Int.{pos, ◌+ℤ◌}
use production_agent_runtime.Common.Json.{Json, string, object, end, field}
use production_agent_runtime.Common.Exec.{ok}
use production_agent_runtime.Providers.OpenAi.{Python, http_error, receive}
use production_agent_runtime.Providers.Answers.{asks_retry, may_pass, receive-asks_retry}
use production_agent_runtime.Config.{
  AppConfig, validate, validate_provider, validate_retry, validate_rate_limit,
  validate_circuit_breaker, validate_runtime,
}
use production_agent_runtime.Runtime.State.{World}
use production_agent_runtime.Factory.{create_runtime}
use production_agent_runtime.Factory.Built.{Builds, create_runtime-IsBuilt}
use production_agent_runtime.Config.Expand.{expand_env}
use production_agent_runtime.Config.Missing.{Expands, first_missing, references, expand_env-Expands}
use production_agent_runtime.Config.Load.{Reading}

abbrev python : Python
python = record {
  show = λ v. [];
  is_zero = λ n. false;
  to_int = λ v. ok (pos 1);
  show_number = λ z. [];
}

receive-asks_retry_example :
    asks_retry (receive python (text "m") (http_error 503 [])) ≡ may_pass (http_error 503 [])
receive-asks_retry_example = receive-asks_retry python (λ v. refl) (text "m") (http_error 503 [])

-- {"provider": {"model": "${MODEL}"}}
abbrev settings : Json
settings =
    object
      (field (text "provider") (object (field (text "model") (string (text "${MODEL}")) end)) end)

abbrev unset : Text → Option Text
unset name = none

expand_env-Expands_example :
    Expands (first_missing unset (references settings)) (expand_env unset settings)
expand_env-Expands_example = expand_env-Expands unset settings

abbrev reading : Reading
reading = record {
  count = λ v. pos 1;
  seconds = λ v. pos 1;
  millionths = λ v. pos 1;
  rate = λ v. pos 1;
  as_text = λ v. text "mock";
  show_keys = λ ks. [];
}

-- the defaults of config.py, with a second as a tick
abbrev defaults : AppConfig
defaults = record {
  provider = record {
    backend = text "mock";
    base_url = text "http://127.0.0.1:8001/v1";
    model = text "mock-agent-model";
    api_key_env = text "AGENT_LLM_API_KEY";
    timeout = pos 60;
    temperature = pos 0;
    max_tokens = pos 1024;
    mock_delay = pos 0;
  };
  retry = record {
    max_attempts = pos 4;
    base_delay = pos 1;
    max_delay = pos 8;
    jitter_ratio = pos 250_000;
  };
  rate_limit = record { capacity = pos 20_000_000; refill_rate = pos 10_000_000 };
  circuit_breaker = record {
    failure_threshold = pos 5;
    recovery_timeout = pos 30;
    half_open_max_calls = pos 1;
  };
  runtime = record {
    max_concurrency = pos 10;
    queue_capacity = pos 100;
    queue_retry_after = pos 1;
    thread_workers = pos 10;
    max_agent_steps = pos 8;
    tool_timeout = pos 30;
    run_timeout = pos 300;
    run_retention = pos 3600;
    max_run_records = pos 10_000;
    history_messages = pos 20;
    audit_capacity = pos 10_000;
  };
}

abbrev world : World
world = record { time = λ n. n; perf_counter = λ n. n; uuid = λ n. (98 + n) ∷ [] }

create_runtime-IsBuilt_example : Builds defaults (create_runtime world 0 defaults)
unfolding validate validate_provider validate_retry validate_rate_limit validate_circuit_breaker
    validate_runtime text text_eq strip lstrip ◌+ℤ◌
create_runtime-IsBuilt_example = create_runtime-IsBuilt world 0 defaults refl
