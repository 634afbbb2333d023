-- ===== src/Audio/Timeline.antt =====
-- src/audio/c64-audio-timeline.h and .c: the sequence timeline of audio packets.
pub mod Conceal
pub mod Order
pub mod Sync
mod Tests
use c64stream.Base.{ℕ, ◌+◌, ◌-◌, ◌≤◌, ◌<◌, ◌≡◌, Bool, true, false, ◌&&◌, List, [], ◌∷◌, arith}
use c64stream.Base.Bools.{ltb, leb, if◌then◌else◌}
use c64stream.Base.Int.{ℤ, pos, negsuc, pos_part, ltb_ℤ, leb_ℤ, eq_ℤ}
use c64stream.Base.Words.{add64, diff16}

abbrev pub wav_fill_max_packets : ℕ
wav_fill_max_packets = 1250

abbrev pub resync_threshold : ℕ
resync_threshold = 250

pub data Action : Type 0 where
  play drop conceal resync : Action

pub record Timeline : Type 0 where
  pub seq_set : Bool
  pub last_seq : ℕ
  pub packet_index : ℕ
  pub packets_lost : ℕ
  pub concealed : ℕ
  pub late_dropped : ℕ
  pub duplicates : ℕ
  pub resyncs : ℕ

-- `memset` to zero.
abbrev pub reset : Timeline
reset = record {
  seq_set = false;
  last_seq = 0;
  packet_index = 0;
  packets_lost = 0;
  concealed = 0;
  late_dropped = 0;
  duplicates = 0;
  resyncs = 0;
}

-- What a call leaves behind: the action, the timeline, `*out_index` and `*out_gap`.
pub record Advanced : Type 0 where
  pub action : Action
  pub timeline : Timeline
  pub out_index : ℕ
  pub out_gap : ℕ

-- The first packet anchors the timeline.
anchor : Timeline → ℕ → Advanced
anchor tl seq = record {
  action = play;
  timeline = record tl { seq_set = true; last_seq = seq; packet_index = 0 };
  out_index = 0;
  out_gap = 0;
}

in_order : Timeline → ℕ → Advanced
in_order tl seq =
    let next = add64 tl.packet_index 1 in
    record {
      action = play;
      timeline = record tl { packet_index = next; last_seq = seq };
      out_index = next;
      out_gap = 0;
    }

-- The outputs are left as the caller set them.
discard : Timeline → ℤ → ℕ → ℕ → Advanced
discard tl delta index gap = record {
  action = drop;
  timeline =
      if eq_ℤ delta (pos 0)
      then record tl { duplicates = add64 tl.duplicates 1 }
      else record tl { late_dropped = add64 tl.late_dropped 1 };
  out_index = index;
  out_gap = gap;
}

fill_gap : Timeline → ℕ → ℤ → Advanced
fill_gap tl seq delta =
    let gap = pos_part delta - 1 in
    let next = add64 tl.packet_index (pos_part delta) in
    record {
      action = conceal;
      timeline = record tl {
        packets_lost = add64 tl.packets_lost gap;
        concealed = add64 tl.concealed gap;
        packet_index = next;
        last_seq = seq;
      };
      out_index = next;
      out_gap = gap;
    }

re_anchor : Timeline → ℕ → ℤ → ℕ → Advanced
re_anchor tl seq delta now_slot =
    let following = add64 tl.packet_index 1 in
    let next = if ltb following now_slot then now_slot else following in
    record {
      action = resync;
      timeline = record tl {
        packets_lost =
            if ltb_ℤ (pos 1) delta
            then add64 tl.packets_lost (pos_part delta - 1)
            else tl.packets_lost;
        resyncs = add64 tl.resyncs 1;
        packet_index = next;
        last_seq = seq;
      };
      out_index = next;
      out_gap = 0;
    }

-- The branches after `delta` is known, in the order of the source. `index` and `gap` are what the
-- out parameters hold before the call; null arguments are not modelled.
pub classify : Timeline → ℕ → ℤ → ℕ → ℕ → ℕ → Advanced
unfolding in_order discard fill_gap re_anchor
classify tl seq delta now_slot index gap =
    if eq_ℤ delta (pos 1)
    then in_order tl seq
    else if leb_ℤ delta (pos 0) && ltb_ℤ (negsuc (resync_threshold - 1)) delta
    then discard tl delta index gap
    else if ltb_ℤ (pos 1) delta && leb (pos_part delta - 1) wav_fill_max_packets
    then fill_gap tl seq delta
    else re_anchor tl seq delta now_slot

pub advance : Timeline → ℕ → ℕ → ℕ → ℕ → Advanced
unfolding anchor
advance tl seq now_slot index gap =
    if tl.seq_set
    then classify tl seq (diff16 seq tl.last_seq) now_slot index gap
    else anchor tl seq
