-- ===== src/Network/Buffer/Tests.antt =====
-- Runs of the ring buffer on a ring of eight slots with three audio packets.
use c64stream.Base.{ℕ, zero, suc, ◌<◌, ◌≡◌, true, [], ◌∷◌, ◌++◌, refl, arith}
use c64stream.Base.Bools.{ltb, ltb→lt, ◌==◌, if◌then◌else◌}
use c64stream.Network.Buffer.{
  Slot, RingBuffer, audio, rb_push, new_slot, search, insert, make_room, max_search_depth,
  shift_down, should_insert_after, update,
}
use c64stream.Network.Buffer.Index.{contents, IsValid, view}
use c64stream.Network.Buffer.Accept.{Outcome, rb_push-Outcome}
use c64stream.Network.Buffer.Order.{position, Sorted, IsNear, rb_push-Sorted}
use c64stream.Network.Buffer.Late.{rb_push_late-unsorted}
use c64stream.Network.Buffer.Adjust.{Adjusted, set_ring_delay-Adjusted}
use c64stream.Network.Buffer.Runs.{
  IsBuffer, here, then_call, pushed_audio, delayed, popped, Run-IsBuffer,
}
use c64stream.Network.Buffer.Delay.{
  NetworkBuffer, create, push_audio, set_delay, pop, set_ring_delay, reduce_delay, slots_for,
  retimestamp, discard_oldest, pop_ready,
}
use c64stream.Network.Buffer.Drain.{Drained, pop_ready-Drained}

abbrev packet : ℕ → Slot
packet n = record {
  payload = n ∷ 0 ∷ [];
  size = 2;
  timestamp_us = n;
  sequence_num = n;
  frame_num = 0;
  line_num = 0;
  valid = true;
}

-- Packets 10, 12 and 14 in the slots 6, 7 and 0.
abbrev memory : ℕ → Slot
memory i = if i == 6 then packet 10 else if i == 7 then packet 12 else packet 14

abbrev ring : RingBuffer
ring = record {
  slots = memory;
  max_capacity = 8;
  active_slots = 8;
  head = 1;
  tail = 6;
  packet_size = 2;
  next_expected_seq = 10;
  seq_initialized = true;
  delay_us = 1000;
  type = audio;
  pop_scratch = packet 0;
}

memory-valid : (k : ℕ) → k < 3 → (view ring k).valid ≡ true
memory-valid zero l = refl
memory-valid (suc zero) l = refl
memory-valid (suc (suc zero)) l = refl
memory-valid (suc (suc (suc k))) l = absurd (omega arith)

ring-IsValid : IsValid ring
ring-IsValid = record { head_in = omega arith; tail_in = omega arith; filled = memory-valid }

contents-ring : contents ring ≡ packet 10 ∷ packet 12 ∷ packet 14 ∷ []
contents-ring = refl

push_between :
    contents (rb_push ring (13 ∷ 0 ∷ []) 13) ≡ packet 10 ∷ packet 12 ∷ packet 13 ∷ packet 14 ∷ []
unfolding rb_push insert search max_search_depth make_room shift_down update new_slot
    should_insert_after
push_between = refl

push_late :
    contents (rb_push ring (11 ∷ 0 ∷ []) 11) ≡ packet 10 ∷ packet 12 ∷ packet 14 ∷ packet 11 ∷ []
unfolding rb_push insert search max_search_depth make_room shift_down update new_slot
    should_insert_after
push_late = refl

near : (n : ℕ) → ltb n 100 ≡ true → IsNear audio 0 (packet n)
near n h = (omega (arith, ltb→lt n 100 h), ground (arith, ltb→lt n 100 h))

rb_push-Outcome_example : Outcome ring (13 ∷ 0 ∷ []) 13 (rb_push ring (13 ∷ 0 ∷ []) 13)
rb_push-Outcome_example = rb_push-Outcome ring (13 ∷ 0 ∷ []) 13 ring-IsValid

pop_ready-Drained_example : Drained ring 2000 (pop_ready ring 2000)
pop_ready-Drained_example = pop_ready-Drained ring 2000 ring-IsValid

rb_push-Sorted_example : Sorted (position audio 0) (contents (rb_push ring (13 ∷ 0 ∷ []) 13))
unfolding max_search_depth new_slot
rb_push-Sorted_example =
    rb_push-Sorted ring (13 ∷ 0 ∷ []) 13 0 (omega arith) ring-IsValid (omega arith)
      (near 10 refl, (near 12 refl, (near 14 refl, tt))) (omega arith, ground arith)
      (ground arith, (ground arith, tt)) (ground arith)

rb_push_late-unsorted_example :
    (contents (rb_push ring (11 ∷ 0 ∷ []) 11)
      ≡ contents ring ++ new_slot audio 2 (11 ∷ 0 ∷ []) 11 ∷ [])
    × ¬ Sorted (position audio 0) (contents (rb_push ring (11 ∷ 0 ∷ []) 11))
unfolding new_slot
rb_push_late-unsorted_example =
    rb_push_late-unsorted ring (11 ∷ 0 ∷ []) 11 0 (packet 10) (packet 12) (packet 14 ∷ [])
      (omega arith) ring-IsValid (omega arith) (omega arith) refl (omega arith, ground arith)
      (near 12 refl, (near 14 refl, tt)) (ground arith, (ground arith, tt))

-- 20 ms of delay become 8, for which two packets are kept.
abbrev slow_ring : RingBuffer
slow_ring = record ring { delay_us = 20000 }

slow_ring-IsValid : IsValid slow_ring
slow_ring-IsValid = record { head_in = omega arith; tail_in = omega arith; filled = memory-valid }

delay_8ms :
    contents (set_ring_delay 250 8 100000 slow_ring)
    ≡ record (packet 12) { timestamp_us = 91000 } ∷ record (packet 14) { timestamp_us = 91000 } ∷ []
unfolding set_ring_delay reduce_delay slots_for retimestamp discard_oldest update
delay_8ms = refl

set_ring_delay-Adjusted_example :
    IsValid (set_ring_delay 250 8 100000 slow_ring)
    × Adjusted 250 8 100000 100000 slow_ring (set_ring_delay 250 8 100000 slow_ring)
set_ring_delay-Adjusted_example =
    set_ring_delay-Adjusted 250 8 100000 100000 slow_ring slow_ring-IsValid (omega arith)
      (omega arith) (omega arith)

abbrev fresh_buffer : NetworkBuffer
fresh_buffer = create (λ _. packet 0) (λ _. packet 0) (packet 0)

abbrev used_buffer : NetworkBuffer
used_buffer = set_delay (push_audio fresh_buffer (9 ∷ 0 ∷ []) 5000) 20 20 40000 40000

Run-IsBuffer_example : IsBuffer (pop used_buffer 60000 60000).1
Run-IsBuffer_example =
    Run-IsBuffer (λ _. packet 0) (λ _. packet 0) (packet 0) (pop used_buffer 60000 60000).1
      (then_call used_buffer _
        (then_call (push_audio fresh_buffer (9 ∷ 0 ∷ []) 5000) _
          (then_call fresh_buffer _ here (pushed_audio (9 ∷ 0 ∷ []) 5000))
          (delayed 20 20 40000 40000))
        (popped 60000 60000))
