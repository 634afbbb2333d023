-- ===== src/Network/Buffer.antt =====
-- src/network/c64-network-buffer.h and .c: the two rings that reorder and delay packets.
-- An array is a function of its index. A slot holds its payload: the pointers to the payload
-- memory move with the slots and are never shared. Each call runs under its ring's mutex.
-- Logging, and the check of the order in debug builds, change nothing and are left out.
pub mod Index
pub mod Search
pub mod Shift
pub mod Insert
pub mod Push
pub mod Accept
pub mod Order
pub mod Late
pub mod Shed
pub mod Delay
pub mod Drain
pub mod Trim
pub mod Adjust
pub mod Runs
mod Tests
use c64stream.Base.{
  ℕ, zero, suc, ◌+◌, ◌-◌, ◌*◌, ◌/◌, ◌%◌, ◌^◌, Bool, true, false, not, ◌&&◌, ◌||◌, Option, none,
  some, List, [], ◌++◌, min,
}
use c64stream.Base.Bools.{◌==◌, leb, ltb, if◌then◌else◌}
use c64stream.Base.Int.{pos, ltb_ℤ, leb_ℤ, eq_ℤ}
unfoldable pub use c64stream.Base.Ring.{update}
use c64stream.Base.Words.{diff16, sub64}
use c64stream.Base.Lists.{length, get_or, take, replicate}

pub record Slot : Type 0 where
  pub payload : List ℕ
  pub size : ℕ
  pub timestamp_us : ℕ
  pub sequence_num : ℕ
  pub frame_num : ℕ
  pub line_num : ℕ
  pub valid : Bool

pub data BufferType : Type 0 where
  video audio : BufferType

pub record RingBuffer : Type 0 where
  pub slots : ℕ → Slot
  pub max_capacity : ℕ
  pub active_slots : ℕ
  pub head : ℕ
  pub tail : ℕ
  pub packet_size : ℕ
  pub next_expected_seq : ℕ
  pub seq_initialized : Bool
  pub delay_us : ℕ
  pub type : BufferType
  pub pop_scratch : Slot

-- A little-endian uint16_t.
abbrev pub word16 : List ℕ → ℕ → ℕ
word16 bytes i = get_or bytes i 0 + get_or bytes (i + 1) 0 * 2 ^ 8

abbrev pub min_header_size : BufferType → ℕ
min_header_size video = 6
min_header_size audio = 2

-- MAX_SEARCH_DEPTH and MAX_SHIFT_COUNT.
unfoldable pub max_search_depth : BufferType → ℕ
max_search_depth video = 2048
max_search_depth audio = 150

abbrev pub frame_num_of : BufferType → List ℕ → ℕ
frame_num_of video bytes = word16 bytes 2
frame_num_of audio bytes = 0

abbrev pub line_num_of : BufferType → List ℕ → ℕ
line_num_of video bytes = word16 bytes 4 % 2 ^ 15
line_num_of audio bytes = 0

-- The payload is cut or padded with zeros to the packet size.
unfoldable pub new_slot : BufferType → ℕ → List ℕ → ℕ → Slot
new_slot type packet_size bytes ts = record {
  payload = take packet_size bytes ++ replicate (packet_size - min (length bytes) packet_size) 0;
  size = packet_size;
  timestamp_us = ts;
  sequence_num = word16 bytes 0;
  frame_num = frame_num_of type bytes;
  line_num = line_num_of type bytes;
  valid = true;
}

-- Whether a new packet belongs behind one that is in the ring, by the fields of their slots.
unfoldable pub should_insert_after : BufferType → Slot → Slot → Bool
should_insert_after video new prev =
    ltb_ℤ (pos 0) (diff16 new.frame_num prev.frame_num)
    || eq_ℤ (diff16 new.frame_num prev.frame_num) (pos 0)
      && leb_ℤ (pos 0) (diff16 new.line_num prev.line_num)
should_insert_after audio new prev = leb_ℤ (pos 0) (diff16 new.sequence_num prev.sequence_num)

abbrev pub prev_index : ℕ → ℕ → ℕ
prev_index cap i = if i == 0 then cap - 1 else i - 1

-- The backward search from `current`, `depth` steps at most.
unfoldable pub search : RingBuffer → Slot → ℕ → ℕ → Option ℕ
search rb new zero current = none
search rb new (suc depth) current =
    let prev = prev_index rb.max_capacity current in
    let further = search rb new depth prev in
    if current == rb.tail
    then none
    else if prev == rb.tail
    then none
    else if not (rb.slots prev).valid
    then further
    else if should_insert_after rb.type new (rb.slots prev)
    then some current
    else further

-- The head slot before it is shifted to the insertion point.
abbrev pub clear_slot : Slot → Slot
clear_slot s = record s {
  valid = false;
  size = 0;
  timestamp_us = 0;
  sequence_num = 0;
  frame_num = 0;
  line_num = 0;
}

-- The loop that swaps the hole at `shift_pos` down by `n` slots.
unfoldable pub shift_down : ℕ → ℕ → ℕ → (ℕ → Slot) → ℕ → Slot
shift_down cap zero shift_pos slots = slots
shift_down cap (suc n) shift_pos slots =
    let prev = prev_index cap shift_pos in
    shift_down cap n prev (update (update slots shift_pos (slots prev)) prev (slots shift_pos))

abbrev pub shift_distance : ℕ → ℕ → ℕ → ℕ
shift_distance cap head insert_pos =
    if leb insert_pos head then head - insert_pos else head + cap - insert_pos

-- Where the packet goes, and the slots after the shift.
unfoldable pub make_room : RingBuffer → Option ℕ → ℕ × (ℕ → Slot)
make_room rb none = (rb.head, rb.slots)
make_room rb (some insert_pos) =
    if insert_pos == rb.head
    then (rb.head, rb.slots)
    else if ltb (max_search_depth rb.type) (shift_distance rb.max_capacity rb.head insert_pos)
    then (rb.head, rb.slots)
    else (
      insert_pos,
      shift_down rb.max_capacity (shift_distance rb.max_capacity rb.head insert_pos) rb.head
          (update rb.slots rb.head (clear_slot (rb.slots rb.head))),
    )

abbrev pub next_index : ℕ → ℕ → ℕ
next_index cap i = (i + 1) % cap

-- The part of rb_push behind the test for a full ring.
unfoldable pub insert : RingBuffer → Slot → RingBuffer
insert rb new =
    let found = search rb new (max_search_depth rb.type) rb.head in
    let (insert_pos, shifted) = make_room rb found in
    record rb { slots = update shifted insert_pos new; head = next_index rb.max_capacity rb.head }

abbrev pub init_sequence : RingBuffer → ℕ → RingBuffer
init_sequence rb seq =
    if rb.seq_initialized then rb else record rb { next_expected_seq = seq; seq_initialized = true }

-- The ring is not null.
unfoldable pub rb_push : RingBuffer → List ℕ → ℕ → RingBuffer
rb_push rb bytes ts =
    if ltb (length bytes) (min_header_size rb.type)
    then rb
    else let ready = init_sequence rb (word16 bytes 0) in
      if next_index ready.max_capacity ready.head == ready.tail
      then ready
      else insert ready (new_slot ready.type ready.packet_size bytes ts)

-- The slot handed out, if any; it is the consumer's copy.
unfoldable pub rb_pop_oldest_locked : RingBuffer → Option Slot × RingBuffer
rb_pop_oldest_locked rb =
    if rb.head == rb.tail
    then (none, rb)
    else let src = rb.slots rb.tail in
      let copy = record src { valid = true } in
      (
        some copy,
        record rb {
          pop_scratch = copy;
          next_expected_seq =
              if src.valid && rb.seq_initialized
              then (src.sequence_num + 1) % 2 ^ 16
              else rb.next_expected_seq;
          tail = next_index rb.max_capacity rb.tail;
          slots = update rb.slots rb.tail (record src { valid = false });
        },
      )

unfoldable pub rb_reset_locked : RingBuffer → ℕ → RingBuffer
rb_reset_locked rb active_slots = record rb {
  active_slots = if ltb rb.max_capacity active_slots then rb.max_capacity else active_slots;
  head = 0;
  tail = 0;
  next_expected_seq = 0;
  seq_initialized = false;
  slots = λ i. if ltb i rb.max_capacity then record (rb.slots i) { valid = false } else rb.slots i;
}

-- Positions are never negative.
abbrev pub packet_count : RingBuffer → ℕ
packet_count rb =
    if rb.max_capacity == 0
    then 0
    else if leb rb.tail rb.head
    then rb.head - rb.tail
    else rb.max_capacity - rb.tail + rb.head
