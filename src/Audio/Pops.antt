-- ===== src/Audio/Pops.antt =====
-- src/util/c64-av-sync.c and src/util/c64-types.h: flashes of the picture paired with pops of the
-- sound, to measure how far apart they are. What is logged of the pairs is not modelled; `state` is
-- that of one origin, and the recording is on.
pub mod Best
pub mod Queue
pub mod Outcome
mod Tests
use c64stream.Base.{
  ℕ, zero, suc, ◌+◌, ◌-◌, ◌%◌, ◌^◌, Bool, true, false, not, ◌&&◌, ◌||◌, Option, none, some, List,
  [], ◌∷◌, ◌++◌,
}
use c64stream.Base.Bools.{◌==◌, ltb, leb, if◌then◌else◌}
use c64stream.Base.Lists.{length, get_or, drop}
use c64stream.Base.Words.{add32, sub64}
use c64stream.Base.Int.{ℤ, pos, negsuc, sub_ℕ, ltb_ℤ}

abbrev pub debounce_ns : ℕ
debounce_ns = 100000000

abbrev pub match_window_ns : ℕ
match_window_ns = 200000000

abbrev pub expire_unmatched_ns : ℕ
expire_unmatched_ns = 2000000000

abbrev pub correlation_max_ns : ℕ
correlation_max_ns = 600000000

abbrev pub event_queue_size : ℕ
event_queue_size = 8

pub record Event : Type 0 where
  pub ts : ℕ
  pub seq : ℕ
  pub frame_num : ℕ
  pub used : Bool

pub record Match : Type 0 where
  pub video_ts : ℕ
  pub audio_ts : ℕ
  pub video_seq : ℕ
  pub audio_seq : ℕ
  pub video_frame_num : ℕ
  pub valid : Bool

-- A list is the used part of its array.
pub record SyncState : Type 0 where
  pub last_video_pop_ts : ℕ
  pub last_audio_pop_ts : ℕ
  pub last_audio_pop_detection_ts : ℕ
  pub last_video_pop_detection_ts : ℕ
  pub video_pop_count : ℕ
  pub audio_pop_count : ℕ
  pub last_match : Match
  pub audio_events : List Event
  pub video_events : List Event

abbrev pub no_event : Event
no_event = record { ts = 0; seq = 0; frame_num = 0; used = false }

abbrev pub is_expired : Event → ℕ → Bool
is_expired e now_ns = ltb e.ts now_ns && ltb expire_unmatched_ns (now_ns - e.ts)

unfoldable pub prune_used_or_expired : List Event → ℕ → List Event
prune_used_or_expired [] now_ns = []
prune_used_or_expired (e ∷ es) now_ns =
    let rest = prune_used_or_expired es now_ns in
    if not e.used && not (is_expired e now_ns) then e ∷ rest else rest

unfoldable pub push_event : List Event → Event → List Event
push_event events e =
    if ltb (length events) event_queue_size then events ++ e ∷ [] else drop 1 events ++ e ∷ []

abbrev pub abs_delta : Event → ℕ → ℕ
abs_delta e ts = if ltb ts e.ts then e.ts - ts else ts - e.ts

-- `if (!found || abs_delta < best)`
unfoldable pub closer : Option (ℕ × ℕ) → ℕ → ℕ → Option (ℕ × ℕ)
closer none i delta = some (i, delta)
closer (some (j, least)) i delta = if ltb delta least then some (i, delta) else some (j, least)

-- One turn of the loop, at index `i`: the best index and its distance, if one is found.
unfoldable pub consider : ℕ → ℕ → Option (ℕ × ℕ) → Event → Option (ℕ × ℕ)
consider ts i best e =
    let delta = abs_delta e ts in
    if e.used then best else if ltb match_window_ns delta then best else closer best i delta

unfoldable pub find_from : List Event → ℕ → ℕ → Option (ℕ × ℕ) → Option (ℕ × ℕ)
unfolding consider
find_from [] ts i best = best
find_from (e ∷ es) ts i best = find_from es ts (i + 1) (consider ts i best e)

unfoldable pub find_best_match : List Event → ℕ → Option (ℕ × ℕ)
unfolding find_from
find_best_match events ts = find_from events ts 0 none

unfoldable pub mark_used : List Event → ℕ → List Event
mark_used [] i = []
mark_used (e ∷ es) zero = record e { used = true } ∷ es
mark_used (e ∷ es) (suc i) = e ∷ mark_used es i

unfoldable pub store_match : Event → Event → Match
store_match video_ev audio_ev = record {
  video_ts = video_ev.ts;
  audio_ts = audio_ev.ts;
  video_seq = video_ev.seq;
  audio_seq = audio_ev.seq;
  video_frame_num = video_ev.frame_num;
  valid = true;
}

within_one : ℕ → ℕ → Bool
within_one a b = not (ltb_ℤ (sub_ℕ a b) (negsuc 0)) && not (ltb_ℤ (pos 1) (sub_ℕ a b))

-- Whether what OBS Studio was given and what the network brought are the same pair.
unfoldable pub can_correlate : Match → Match → Bool
unfolding within_one
can_correlate obs net =
    obs.valid
    && net.valid
    && net.video_frame_num == obs.video_frame_num
    && leb net.video_ts obs.video_ts
    && leb net.audio_ts obs.audio_ts
    && leb (obs.video_ts - net.video_ts) correlation_max_ns
    && leb (obs.audio_ts - net.audio_ts) correlation_max_ns
    && within_one obs.video_seq net.video_seq
    && within_one obs.audio_seq net.audio_seq

-- A second detection within a tenth of a second is none.
abbrev pub is_bounce : ℕ → ℕ → Bool
is_bounce last ts = not (last == 0) && ltb (sub64 ts last) debounce_ns

-- What follows the search for an audio event.
unfoldable pub pair_video : SyncState → Event → Option (ℕ × ℕ) → SyncState
pair_video state video_ev none = record state {
  video_events = prune_used_or_expired (push_event state.video_events video_ev) video_ev.ts;
  audio_events = prune_used_or_expired state.audio_events video_ev.ts;
}
pair_video state video_ev (some (i, delta)) = record state {
  last_match = store_match video_ev (get_or state.audio_events i no_event);
  video_events =
      prune_used_or_expired (push_event state.video_events (record video_ev { used = true }))
        video_ev.ts;
  audio_events = prune_used_or_expired (mark_used state.audio_events i) video_ev.ts;
}

unfoldable pub on_video_pop : SyncState → ℕ → ℕ → SyncState
unfolding pair_video
on_video_pop state frame_num ts =
    let count = add32 state.video_pop_count 1 in
    let counted = record state {
      last_video_pop_detection_ts = ts;
      video_pop_count = count;
      last_video_pop_ts = ts;
    } in
    if is_bounce state.last_video_pop_detection_ts ts
    then state
    else pair_video counted record { ts = ts; seq = count; frame_num = frame_num; used = false }
        (find_best_match state.audio_events ts)

-- What follows the search for a video event.
unfoldable pub pair_audio : SyncState → Event → Option (ℕ × ℕ) → SyncState
pair_audio state audio_ev none = record state {
  audio_events = prune_used_or_expired (push_event state.audio_events audio_ev) audio_ev.ts;
  video_events = prune_used_or_expired state.video_events audio_ev.ts;
}
pair_audio state audio_ev (some (i, delta)) = record state {
  last_match = store_match (get_or state.video_events i no_event) audio_ev;
  audio_events =
      prune_used_or_expired (push_event state.audio_events (record audio_ev { used = true }))
        audio_ev.ts;
  video_events = prune_used_or_expired (mark_used state.video_events i) audio_ev.ts;
}

unfoldable pub on_audio_pop : SyncState → ℕ → SyncState
unfolding pair_audio
on_audio_pop state ts =
    let count = add32 state.audio_pop_count 1 in
    let counted = record state {
      last_audio_pop_detection_ts = ts;
      audio_pop_count = count;
      last_audio_pop_ts = ts;
    } in
    if is_bounce state.last_audio_pop_detection_ts ts
    then state
    else pair_audio counted record { ts = ts; seq = count; frame_num = 0; used = false }
        (find_best_match state.video_events ts)
