-- ===== src/Audio/Timeline/Order.antt =====
-- c64_audio_timeline_advance: how one packet moves the index, and what the counters add up to.
use c64stream.Base.{ℕ, ◌+◌, ◌^◌, ◌≤◌, ◌<◌, ◌≡◌, ◌≢◌, ◌⊎◌, inl, inr, true, max, arith}
use c64stream.Base.Int.{ℤ, pos, negsuc, pos_part, neg_part}
use c64stream.Base.Words.{diff16}
use c64stream.Audio.Timeline.{
  Timeline, Advanced, drop, resync, wav_fill_max_packets, resync_threshold, classify, advance,
}

-- An int16_t is below 2 ^ 15.
-- A dropped packet: nothing moves but one of the two drop counters.
pub record Dropped (tl : Timeline) (index gap : ℕ) (r : Advanced) : Type 0 where
  pub action : r.action ≡ drop
  pub index_kept : r.timeline.packet_index ≡ tl.packet_index
  pub seq_kept : r.timeline.last_seq ≡ tl.last_seq
  pub lost_kept : r.timeline.packets_lost ≡ tl.packets_lost
  pub outputs_kept : (r.out_index ≡ index) × (r.out_gap ≡ gap)

-- A packet `d` ahead that is played behind `out_gap` synthesized ones, with no hole and no
-- overlap.
pub record Placed (tl : Timeline) (seq : ℕ) (d : ℤ) (r : Advanced) : Type 0 where
  pub played : r.action ≢ drop
  pub covers : r.out_gap + 1 ≡ pos_part d
  pub adjacent : r.out_index ≡ tl.packet_index + r.out_gap + 1
  pub bounded : r.out_gap ≤ wav_fill_max_packets
  pub index_now : r.timeline.packet_index ≡ r.out_index
  pub seq_now : r.timeline.last_seq ≡ seq

-- A packet that starts the timeline anew, never before the next free index.
pub record Anchored (tl : Timeline) (seq now_slot : ℕ) (r : Advanced) : Type 0 where
  pub action : r.action ≡ resync
  pub lands : r.out_index ≡ max (tl.packet_index + 1) now_slot
  pub no_fill : r.out_gap ≡ 0
  pub index_now : r.timeline.packet_index ≡ r.out_index
  pub seq_now : r.timeline.last_seq ≡ seq

-- At most 249 behind, or the same packet.
abbrev pub IsLate : ℤ → Type 0
IsLate d = (pos_part d ≡ 0) × (neg_part d < resync_threshold)

-- The next packet, or one that leaves a gap that may be filled.
abbrev pub IsNear : ℤ → Type 0
IsNear d = (0 < pos_part d) × (pos_part d ≤ wav_fill_max_packets + 1)

abbrev pub IsFar : ℤ → Type 0
IsFar d = (resync_threshold ≤ neg_part d) ⊎ (wav_fill_max_packets + 1 < pos_part d)

distance_cases : (d : ℤ) → IsLate d ⊎ IsNear d ⊎ IsFar d
distance_cases (pos n) = omega arith
distance_cases (negsuc n) = omega arith

module _ (tl : Timeline) (seq : ℕ) (d : ℤ) (now_slot index gap : ℕ) where
  pub classify-Dropped : IsLate d → Dropped tl index gap (classify tl seq d now_slot index gap)
  unfolding classify
  classify-Dropped l = ground arith

  module _ (room : tl.packet_index + 2 ^ 15 < 2 ^ 64) where
    pub classify-Placed : IsNear d → Placed tl seq d (classify tl seq d now_slot index gap)
    unfolding classify
    classify-Placed l = ground arith

    classify-Anchored : IsFar d → Anchored tl seq now_slot (classify tl seq d now_slot index gap)
    unfolding classify
    classify-Anchored (inl l) = ground arith
    classify-Anchored (inr l) = ground arith

pub advance-classify :
    (tl : Timeline) (seq now_slot index gap : ℕ)
    → tl.seq_set ≡ true
    → advance tl seq now_slot index gap
      ≡ classify tl seq (diff16 seq tl.last_seq) now_slot index gap
unfolding advance
advance-classify tl seq now_slot index gap set = rw set

-- The three outcomes of a packet after the first, and exactly when each comes about: a late one
-- is dropped and moves nothing, a near one is played at the next free index behind the fill, and
-- any other re-anchors the timeline at the later of the next index and the wall clock's slot.
pub advance_cases :
    (tl : Timeline) (seq now_slot index gap : ℕ)
    → tl.seq_set ≡ true
    → tl.packet_index + 2 ^ 15 < 2 ^ 64
    → let d = diff16 seq tl.last_seq in
      let r = advance tl seq now_slot index gap in
      IsLate d × Dropped tl index gap r
      ⊎ IsNear d × Placed tl seq d r
      ⊎ IsFar d × Anchored tl seq now_slot r
advance_cases tl seq now_slot index gap set room =
    let d = diff16 seq tl.last_seq in
    rw (advance-classify tl seq now_slot index gap set) (elim (distance_cases d) [
      | inl l ↦ inl (l, classify-Dropped tl seq d now_slot index gap l)
      | inr (inl n) ↦ inr (inl (n, classify-Placed tl seq d now_slot index gap room n))
      | inr (inr f) ↦ inr (inr (f, classify-Anchored tl seq d now_slot index gap room f))
    ])
