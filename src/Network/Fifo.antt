-- ===== src/Network/Fifo.antt =====
-- src/network/c64-network-fifo.h: the ring between one receive thread and the processor.
-- The pointers are not null and point to distinct objects. `bytes` holds `size` bytes at least.
pub mod Queue
pub mod Calls
pub mod Threads
pub mod Delivery
mod Tests
use c64stream.Base.{
  ℕ, zero, suc, ◌+◌, ◌-◌, ◌%◌, ◌^◌, Bool, true, false, Option, none, some, List, ◌++◌,
}
use c64stream.Base.Bools.{◌==◌, leb, ltb, if◌then◌else◌}
use c64stream.Base.Lists.{take, drop}
use c64stream.Base.Ring.{update}

-- C64_NETWORK_FIFO_PACKET_MAX_SIZE, the size of a video packet.
abbrev pub packet_max_size : ℕ
packet_max_size = 780

pub record Packet : Type 0 where
  pub timestamp_ns : ℕ
  pub size : ℕ
  pub from_handover : Bool
  pub palette_cutover : Bool
  pub bytes : List ℕ

pub record Fifo : Type 0 where
  pub entries : ℕ → Packet
  pub capacity : ℕ
  pub head : ℕ
  pub tail : ℕ
  pub dropped_full : ℕ

unfoldable pub reset : Fifo → Fifo
reset fifo = record fifo { head = 0; tail = 0; dropped_full = 0 }

abbrev pub next_index : ℕ → ℕ → ℕ
next_index capacity i = (i + 1) % capacity

-- The assignments to `*slot`: the bytes behind the packet's stay as they were.
unfoldable pub fill_slot : Packet → List ℕ → ℕ → ℕ → Bool → Bool → Packet
fill_slot slot bytes size timestamp_ns from_handover palette_cutover = record {
  timestamp_ns = timestamp_ns;
  size = size;
  from_handover = from_handover;
  palette_cutover = palette_cutover;
  bytes = take size bytes ++ drop size slot.bytes;
}

-- The guards that come before the positions are read.
abbrev pub is_refused : Fifo → ℕ → Bool
is_refused fifo size = if ltb fifo.capacity 2 then true else ltb packet_max_size size

-- The answer, and the ring.
unfoldable pub push_tagged : Fifo → List ℕ → ℕ → ℕ → Bool → Bool → Bool × Fifo
unfolding fill_slot
push_tagged fifo bytes size timestamp_ns from_handover palette_cutover =
    if is_refused fifo size
    then (false, fifo)
    else if next_index fifo.capacity fifo.head == fifo.tail
    then (false, record fifo { dropped_full = fifo.dropped_full + 1 })
    else (
      true,
      record fifo {
        entries = update fifo.entries fifo.head (
            fill_slot (fifo.entries fifo.head) bytes size timestamp_ns from_handover
              palette_cutover);
        head = next_index fifo.capacity fifo.head;
      },
    )

unfoldable pub push : Fifo → List ℕ → ℕ → ℕ → Bool × Fifo
push fifo bytes size timestamp_ns = push_tagged fifo bytes size timestamp_ns false false

-- The index of the entry that the pointer points to.
unfoldable pub peek : Fifo → Option ℕ
peek fifo = if fifo.head == fifo.tail then none else some fifo.tail

unfoldable pub commit_pop : Fifo → Fifo
commit_pop fifo = record fifo { tail = next_index fifo.capacity fifo.tail }

unfoldable pub size_approx : Fifo → ℕ
size_approx fifo =
    if leb fifo.tail fifo.head then fifo.head - fifo.tail else fifo.capacity - fifo.tail + fifo.head
