-- ===== src/Tests/Llm.antt =====
-- A stream of backend/llm/llm_client.py that connects the second time.
use mister_pilot_proxy.Prelude.{ℕ, max, none, some, [], ◌∷◌}
use mister_pilot_proxy.Llm.{Call, connection, stream_chat_raw}
use mister_pilot_proxy.Llm.Retry.{OneAttempt, stream_chat_raw-OneAttempt}

abbrev calls : ℕ → Call
calls ℕ.zero = record { chunks = []; end = some connection }
calls (ℕ.suc n) = record { chunks = "Hel" ∷ "lo" ∷ []; end = none }

stream_chat_raw-OneAttempt_example : OneAttempt calls 0 (max 1 3) (stream_chat_raw 3 calls)
stream_chat_raw-OneAttempt_example = stream_chat_raw-OneAttempt 3 calls
