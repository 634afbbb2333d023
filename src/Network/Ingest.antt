-- ===== src/Network/Ingest.antt =====
-- src/network/c64-ingest-filter.h: which senders are admitted, and the cut-over between devices.
-- An address is the number in `s_addr`. Neither pointer is null.
pub mod Switch
mod Tests
use c64stream.Base.{ℕ, Bool, true, false, not, ◌&&◌, ◌||◌}
use c64stream.Base.Bools.{◌==◌, if◌then◌else◌}

-- The fields of `struct c64_source` that the filter reads and writes.
pub record Source : Type 0 where
  pub expected_peer_ip_set : Bool
  pub expected_peer_ip : ℕ
  pub expected_peer_alt_ip_set : Bool
  pub expected_peer_alt_ip : ℕ
  pub learned_peer_ip_set : Bool
  pub learned_peer_ip : ℕ
  pub handover_peer_ip_set : Bool
  pub handover_peer_ip : ℕ
  pub handover_flush_pending : Bool
  pub rejected_peer_ip : ℕ

unfoldable pub packet_from_expected_peer : Source → ℕ → Bool
packet_from_expected_peer c from =
    if not c.expected_peer_ip_set
    then true
    else from == c.expected_peer_ip
      || c.expected_peer_alt_ip_set && from == c.expected_peer_alt_ip
      || c.learned_peer_ip_set && from == c.learned_peer_ip

unfoldable pub note_rejected_peer : Source → ℕ → Source
note_rejected_peer c from = record c { rejected_peer_ip = from }

-- The answer, and the source as the call leaves it.
unfoldable pub packet_admit : Source → ℕ → Bool × Source
unfolding packet_from_expected_peer note_rejected_peer
packet_admit c from =
    if packet_from_expected_peer c from
    then (
      true,
      if c.handover_peer_ip_set && c.expected_peer_ip_set && not (from == c.handover_peer_ip)
          then record c { handover_flush_pending = true; handover_peer_ip_set = false }
          else c,
    )
    else if c.handover_peer_ip_set && from == c.handover_peer_ip
    then (true, c)
    else (false, note_rejected_peer c from)

unfoldable pub packet_from_handover : Source → ℕ → Bool
packet_from_handover c from = c.handover_peer_ip_set && from == c.handover_peer_ip

-- Whether the packet is dropped, `*flush`, and the source.
unfoldable pub handover_should_drop : Source → Bool → Bool × Bool × Source
handover_should_drop c from_handover =
    if from_handover
    then (not c.handover_peer_ip_set, false, c)
    else if c.handover_flush_pending
    then (false, true, record c { handover_flush_pending = false })
    else (false, false, c)
