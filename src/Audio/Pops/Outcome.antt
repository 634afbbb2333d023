-- ===== src/Audio/Pops/Outcome.antt =====
-- What a flash or a pop brings about.
use c64stream.Base.{ℕ, ◌+◌, ◌-◌, ◌%◌, ◌^◌, ◌≤◌, ◌<◌, ◌≢◌, false, List}
use c64stream.Base.Lists.{length}
use c64stream.Base.Words.{add32}
use c64stream.Audio.Pops.{
  Event, Match, SyncState, prune_used_or_expired, push_event, store_match, abs_delta,
}
use c64stream.Audio.Pops.Best.{event_at, IsNear}
use c64stream.Audio.Pops.Queue.{IsQueue, remove_at, make_room}

-- Event `i` is the first of the closest ones that can be matched.
abbrev pub IsClosest : List Event → ℕ → ℕ → Type 0
IsClosest es ts i =
    (i < length es)
    × IsNear es ts i
    × ((j : ℕ)
        → j < length es
        → IsNear es ts j
        → (abs_delta (event_at es i) ts ≤ abs_delta (event_at es j) ts)
          × (j < i → abs_delta (event_at es i) ts < abs_delta (event_at es j) ts))

-- The queues of the event's own kind and of the other kind, and the last match, before and after an
-- event `e` at `ts`.
pub data Paired (e : Event) (ts : ℕ) (match : Event → Match)
    : List Event → List Event → Match → List Event → List Event → Match → Type 0 where
  waits :
      (mine others : List Event) (last : Match)
      → ((j : ℕ) → j < length others → ¬ IsNear others ts j)
      → Paired e ts match mine others last
          (prune_used_or_expired (push_event mine e) ts)
          (prune_used_or_expired others ts)
          last
  pairs :
      (mine others : List Event) (last : Match) (i : ℕ)
      → IsClosest others ts i
      → Paired e ts match mine others last
          (prune_used_or_expired (make_room mine) ts)
          (prune_used_or_expired (remove_at others i) ts)
          (match (event_at others i))

-- Both queues and the last match behind a flash and behind a pop.
abbrev pub AfterVideo : SyncState → Event → SyncState → Type 0
AfterVideo s e s' =
    Paired e e.ts (store_match e) s.video_events s.audio_events s.last_match s'.video_events
      s'.audio_events s'.last_match
    × IsQueue s'.video_events
    × IsQueue s'.audio_events

abbrev pub AfterAudio : SyncState → Event → SyncState → Type 0
AfterAudio s e s' =
    Paired e e.ts (λ v. store_match v e) s.audio_events s.video_events s.last_match s'.audio_events
      s'.video_events s'.last_match
    × IsQueue s'.video_events
    × IsQueue s'.audio_events

-- The event that a detection makes.
abbrev pub new_event : ℕ → ℕ → ℕ → Event
new_event ts count frame_num = record {
  ts = ts;
  seq = add32 count 1;
  frame_num = frame_num;
  used = false;
}

-- Within a tenth of a second of the last detection, if there was one.
abbrev pub IsBounce : ℕ → ℕ → Type 0
IsBounce last ts = (last ≢ 0) × ((ts + 2 ^ 64 - last) % 2 ^ 64 < 100000000)
