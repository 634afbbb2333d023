-- ===== src/Network/Buffer/Index.antt =====
-- Positions round the ring, and the packets between tail and head as a list.
use c64stream.Base.{ℕ, suc, ◌<◌, ◌≡◌, true, List, arith}
use c64stream.Base.Ring.{next-place}
pub use c64stream.Base.Ring.{
  place, place-lt, place-inj, segment, length-segment, segment-ext, segment-append, All-segment,
  update_self, update_ne,
}
use c64stream.Network.Buffer.{Slot, RingBuffer, prev_index, next_index, packet_count}

pub prev_index-place :
    (cap t k : ℕ) → t < cap → k < cap → prev_index cap (place cap t (suc k)) ≡ place cap t k
prev_index-place cap t k h l = ground arith

pub next_index-place :
    (cap t k : ℕ) → t < cap → k < cap → next_index cap (place cap t k) ≡ place cap t (suc k)
next_index-place = next-place

-- The slots in the order of the ring.
abbrev pub view : RingBuffer → ℕ → Slot
view rb k = rb.slots (place rb.max_capacity rb.tail k)

-- The packets in the ring, oldest first.
abbrev pub contents : RingBuffer → List Slot
contents rb = segment (view rb) 0 (packet_count rb)

-- Positions are in range and every slot between tail and head is valid.
pub record IsValid (rb : RingBuffer) : Type 0 where
  pub head_in : rb.head < rb.max_capacity
  pub tail_in : rb.tail < rb.max_capacity
  pub filled : (k : ℕ) → k < packet_count rb → (view rb k).valid ≡ true

module _ {rb : RingBuffer} (v : IsValid rb) where
  pub packet_count-lt : packet_count rb < rb.max_capacity
  packet_count-lt = ground (arith, v.head_in, v.tail_in)

  pub head-place : rb.head ≡ place rb.max_capacity rb.tail (packet_count rb)
  head-place = ground (arith, v.head_in, v.tail_in)
