-- ===== src/Network/Common.antt =====
-- libs/network/common.h and common.cpp: why an operation failed.
use Prim.Native.String.{String}
use x_kbengine.Prelude.{ℕ, suc, zero, List, [], ◌∷◌}

pub data Reason : Type 0 where
  reason_success reason_timer_expired reason_no_such_port reason_general_network : Reason
  reason_corrupted_packet reason_nonexistent_entry reason_window_overflow : Reason
  reason_inactivity reason_resource_unavailable reason_client_disconnected : Reason
  reason_transmit_queue_full reason_channel_lost reason_shutting_down : Reason
  reason_websocket_error reason_channel_condemn : Reason

-- `-reason`, the index into the table of names.
unfoldable pub index : Reason → ℕ
index reason_success = 0
index reason_timer_expired = 1
index reason_no_such_port = 2
index reason_general_network = 3
index reason_corrupted_packet = 4
index reason_nonexistent_entry = 5
index reason_window_overflow = 6
index reason_inactivity = 7
index reason_resource_unavailable = 8
index reason_client_disconnected = 9
index reason_transmit_queue_full = 10
index reason_channel_lost = 11
index reason_shutting_down = 12
index reason_websocket_error = 13
index reason_channel_condemn = 14

abbrev pub reasons : List String
reasons =
    "REASON_SUCCESS" ∷ "REASON_TIMER_EXPIRED" ∷ "REASON_NO_SUCH_PORT" ∷ "REASON_GENERAL_NETWORK"
    ∷ "REASON_CORRUPTED_PACKET" ∷ "REASON_NONEXISTENT_ENTRY" ∷ "REASON_WINDOW_OVERFLOW"
    ∷ "REASON_INACTIVITY" ∷ "REASON_RESOURCE_UNAVAILABLE" ∷ "REASON_CLIENT_DISCONNECTED"
    ∷ "REASON_TRANSMIT_QUEUE_FULL" ∷ "REASON_CHANNEL_LOST" ∷ "REASON_SHUTTING_DOWN"
    ∷ "REASON_WEBSOCKET_ERROR" ∷ "REASON_CHANNEL_CONDEMN" ∷ []

abbrev pub name_at : List String → ℕ → String
name_at [] i = "REASON_UNKNOWN"
name_at (r ∷ rs) zero = r
name_at (r ∷ rs) (suc i) = name_at rs i

unfoldable pub reason_to_string : Reason → String
unfolding index
reason_to_string r = name_at reasons (index r)
