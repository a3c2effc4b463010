-- ===== src/Common/Exec/Exceptions.antt =====
-- errors.py, and the exceptions of Python that the program raises or catches.
use Prim.Native.Nat.{ℕ}
use production_agent_runtime.Common.Texts.{Text}

-- A text is the exception's message.
pub data Exception : Type 0 where
  configuration_error : Text → Exception
  invalid_state_transition : Text → Exception
  run_not_found_error : Text → Exception
  run_queue_full_error : ℕ → Exception  -- retry_after_seconds
  idempotency_conflict_error : Text → Exception
  tool_error : Text → Exception
  tool_not_found_error : Text → Exception
  transient_llm_error : Text → Exception
  permanent_llm_error : Text → Exception
  circuit_open_error : Text → Exception
  value_error : Text → Exception
  runtime_error : Text → Exception
  key_error : Text → Exception
  type_error : Text → Exception
  attribute_error : Text → Exception
  timeout_error : Exception  -- asyncio.TimeoutError
  queue_full : Exception  -- asyncio.QueueFull
  zero_division_error : Exception
  cancelled_error : Exception  -- asyncio.CancelledError, which `except Exception` lets pass

pub data Result {ℓ} (A : Type ℓ) : Type ℓ where
  ok : A → Result A
  err : Exception → Result A
