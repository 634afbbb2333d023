-- ===== src/Network/Buffer/Delay.antt =====
-- The public calls of src/network/c64-network-buffer.c: both rings, the delay, the pop.
-- The clock is an argument: `now_us` is what `os_gettime_ns() / 1000` gives at that point.
use c64stream.Base.{
  ℕ, zero, suc, ◌+◌, ◌-◌, ◌*◌, ◌/◌, Bool, false, ◌&&◌, ◌||◌, Option, none, some, List,
}
use c64stream.Base.Bools.{◌==◌, leb, ltb, if◌then◌else◌}
use c64stream.Base.Words.{sub64}
use c64stream.Base.Lists.{replicate}
use c64stream.Network.Buffer.{
  Slot, RingBuffer, BufferType, video, audio, update, clear_slot, next_index, packet_count, rb_push,
  rb_pop_oldest_locked, rb_reset_locked,
}

abbrev pub max_delay_ms : ℕ
max_delay_ms = 500

abbrev pub max_video_rate : ℕ
max_video_rate = 3590

abbrev pub max_audio_rate : ℕ
max_audio_rate = 250

-- `rate * (delay + jitter) * 11 / 10000` at 500 and 400 ms.
abbrev pub max_video_packets : ℕ
max_video_packets = max_video_rate * (max_delay_ms + 400) * 11 / 10000

abbrev pub max_audio_packets : ℕ
max_audio_packets = max_audio_rate * (max_delay_ms + 400) * 11 / 10000

pub record NetworkBuffer : Type 0 where
  pub video_ring : RingBuffer
  pub audio_ring : RingBuffer

-- A ring over fresh memory, of which only the size and the mark are written.
unfoldable pub create_ring : BufferType → ℕ → ℕ → (ℕ → Slot) → Slot → RingBuffer
create_ring type capacity packet_size memory scratch =
    rb_reset_locked
      (record {
        slots = λ i.
            if ltb i capacity
            then record (memory i) { size = packet_size; valid = false }
            else memory i;
        max_capacity = capacity;
        active_slots = 0;
        head = 0;
        tail = 0;
        packet_size = packet_size;
        next_expected_seq = 0;
        seq_initialized = false;
        delay_us = 0;
        type = type;
        pop_scratch = record scratch { size = packet_size; valid = false };
      })
      capacity

-- The memory that `malloc` gives is an argument; that it fails is not modelled.
unfoldable pub create : (ℕ → Slot) → (ℕ → Slot) → Slot → NetworkBuffer
create video_memory audio_memory scratch = record {
  video_ring = create_ring video max_video_packets 780 video_memory scratch;
  audio_ring = create_ring audio max_audio_packets 770 audio_memory scratch;
}

-- `ceil(rate * delay / 1000.0)`, at most the capacity.
unfoldable pub slots_for : ℕ → ℕ → ℕ → ℕ
slots_for rate delay_ms capacity =
    let slots = (rate * delay_ms + 999) / 1000 in if ltb capacity slots then capacity else slots

-- A slot that is discarded: also its payload is cleared.
abbrev pub wipe_slot : ℕ → Slot → Slot
wipe_slot packet_size s = record (clear_slot s) { payload = replicate packet_size 0 }

-- The loop that discards the `left` oldest packets; each round moves `tail` on, so that the
-- capacity is fuel enough.
unfoldable pub discard_oldest : ℕ → ℕ → RingBuffer → RingBuffer
discard_oldest zero left rb = rb
discard_oldest (suc fuel) left rb =
    let moved = record rb { tail = next_index rb.max_capacity rb.tail } in
    let skipped = discard_oldest fuel left moved in
    let dropped = discard_oldest fuel (left - 1) (record moved {
      slots = update rb.slots rb.tail (wipe_slot rb.packet_size (rb.slots rb.tail));
    }) in
    if left == 0 || rb.tail == rb.head
    then rb
    else if (rb.slots rb.tail).valid
    then dropped
    else skipped

-- Every valid slot is made as old as the new delay and one millisecond more.
unfoldable pub retimestamp : ℕ → RingBuffer → RingBuffer
retimestamp ready rb = record rb {
  slots = λ i.
      if ltb i rb.max_capacity && (rb.slots i).valid
      then record (rb.slots i) { timestamp_us = ready }
      else rb.slots i;
}

-- What set_delay does to one ring, whose delay is already the new one. The source has this text
-- twice, for video and for audio. It lets the mutex go between the discarding and the new
-- timestamps; here both are one step.
unfoldable pub reduce_delay : ℕ → ℕ → ℕ → ℕ → RingBuffer → RingBuffer
reduce_delay old_delay new_delay slots now_us rb =
    if ltb new_delay old_delay
    then if new_delay == 0 && ltb 50000 old_delay
      then rb_reset_locked rb slots
      else retimestamp (sub64 (sub64 now_us new_delay) 1000) (
          if ltb slots (packet_count rb)
          then discard_oldest rb.max_capacity (packet_count rb - slots) rb
          else rb)
    else rb

abbrev pub clamp_delay : ℕ → ℕ
clamp_delay ms = if ltb max_delay_ms ms then max_delay_ms else ms

unfoldable pub set_ring_delay : ℕ → ℕ → ℕ → RingBuffer → RingBuffer
unfolding reduce_delay slots_for
set_ring_delay rate delay_ms now_us rb =
    reduce_delay rb.delay_us (delay_ms * 1000) (slots_for rate delay_ms rb.max_capacity) now_us
      (record rb { delay_us = delay_ms * 1000 })

unfoldable pub set_delay : NetworkBuffer → ℕ → ℕ → ℕ → ℕ → NetworkBuffer
unfolding set_ring_delay
set_delay buf video_delay_ms audio_delay_ms video_now audio_now = record {
  video_ring = set_ring_delay max_video_rate (clamp_delay video_delay_ms) video_now buf.video_ring;
  audio_ring = set_ring_delay max_audio_rate (clamp_delay audio_delay_ms) audio_now buf.audio_ring;
}

unfoldable pub push_video : NetworkBuffer → List ℕ → ℕ → NetworkBuffer
push_video buf bytes timestamp_ns = record buf {
  video_ring = rb_push buf.video_ring bytes (timestamp_ns / 1000);
}

unfoldable pub push_audio : NetworkBuffer → List ℕ → ℕ → NetworkBuffer
push_audio buf bytes timestamp_ns = record buf {
  audio_ring = rb_push buf.audio_ring bytes (timestamp_ns / 1000);
}

unfoldable pub is_packet_ready_for_pop : Slot → ℕ → ℕ → Bool
is_packet_ready_for_pop slot delay_us now_us =
    if slot.valid then leb delay_us (sub64 now_us slot.timestamp_us) else false

-- One ring's part of the pop.
unfoldable pub pop_ready : RingBuffer → ℕ → Option Slot × RingBuffer
pop_ready rb now_us =
    if rb.head == rb.tail
    then (none, rb)
    else if (rb.slots rb.tail).valid
        && is_packet_ready_for_pop (rb.slots rb.tail) rb.delay_us now_us
    then rb_pop_oldest_locked rb
    else (none, rb)

-- The packets handed out, and `*timestamp_us`.
pub record Popped : Type 0 where
  pub video_packet : Option Slot
  pub audio_packet : Option Slot
  pub timestamp : ℕ

unfoldable pub earliest : Option Slot → Option Slot → ℕ
earliest none none = 0
earliest (some v) none = v.timestamp_us
earliest none (some a) = a.timestamp_us
earliest (some v) (some a) =
    if ltb a.timestamp_us v.timestamp_us then a.timestamp_us else v.timestamp_us

unfoldable pub pop : NetworkBuffer → ℕ → ℕ → Popped × NetworkBuffer
unfolding pop_ready earliest
pop buf video_now audio_now =
    let (v, video_ring') = pop_ready buf.video_ring video_now in
    let (a, audio_ring') = pop_ready buf.audio_ring audio_now in
    (
      record { video_packet = v; audio_packet = a; timestamp = earliest v a },
      record { video_ring = video_ring'; audio_ring = audio_ring' },
    )

unfoldable pub flush : NetworkBuffer → NetworkBuffer
flush buf = record {
  video_ring = rb_reset_locked buf.video_ring buf.video_ring.active_slots;
  audio_ring = rb_reset_locked buf.audio_ring buf.audio_ring.active_slots;
}
