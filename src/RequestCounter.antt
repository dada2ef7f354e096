-- ===== src/RequestCounter.antt =====
-- `GigERequestCounter::getNext` of rcdiscover/gige_request_counter.cc.
pub mod Cycle
pub mod Concurrent
use rcdiscover.Base.{ℕ, ◌+◌, ◌==◌, if◌then◌else◌}
use rcdiscover.Words.{u8, shr}

-- `std::numeric_limits<std::uint16_t>::max()`
abbrev pub max_u16 : ℕ
max_u16 = 65535

-- The value that a round of the loop wants to install; 0 is skipped.
unfoldable pub next_value : ℕ → ℕ
next_value current = if current == max_u16 then 1 else current + 1

-- The two bytes that are returned.
unfoldable pub id_bytes : ℕ → ℕ × ℕ
id_bytes new_value = (u8 (shr new_value 8), u8 new_value)

-- A call that no other thread interrupts: the new counter, and the request id.
unfoldable pub get_next : ℕ → ℕ × (ℕ × ℕ)
unfolding next_value id_bytes
get_next counter = (next_value counter, id_bytes (next_value counter))
