-- ===== src/Audio/Pops/Tests.antt =====
-- A flash and a pop 40 milliseconds apart.
use c64stream.Base.{ℕ, zero, suc, ◌+◌, ◌≡◌, refl, true, false, List, [], ◌∷◌}
use c64stream.Base.Lists.{length}
use c64stream.Audio.Pops.{
  Event, Match, SyncState, can_correlate, on_video_pop, pair_video, find_best_match, find_from,
  consider, closer, prune_used_or_expired, push_event, store_match, within_one,
}

abbrev at : ℕ → ℕ → Event
at ts seq = record { ts = ts; seq = seq; frame_num = 0; used = false }

abbrev no_match : Match
no_match = record {
  video_ts = 0;
  audio_ts = 0;
  video_seq = 0;
  audio_seq = 0;
  video_frame_num = 0;
  valid = false;
}

-- Pops were heard at 300 and at 340 milliseconds; the first is too old a match for 540.
abbrev heard : SyncState
heard = record {
  last_video_pop_ts = 0;
  last_audio_pop_ts = 340000000;
  last_audio_pop_detection_ts = 340000000;
  last_video_pop_detection_ts = 0;
  video_pop_count = 0;
  audio_pop_count = 2;
  last_match = no_match;
  audio_events = at 300000000 1 ∷ at 340000000 2 ∷ [];
  video_events = [];
}

second_is_matched : (on_video_pop heard 7 540000000).last_match.audio_seq ≡ 2
unfolding on_video_pop pair_video find_best_match find_from consider closer store_match
second_is_matched = refl

abbrev flashes : ℕ → List Event
flashes zero = []
flashes (suc n) = at (500000000 + n) n ∷ flashes n

-- Eight flashes wait. The ninth is matched at once, and still one of those that wait has to go.
oldest_goes_for_a_match :
    length (on_video_pop (record heard { video_events = flashes 8 }) 7 540000000).video_events ≡ 7
unfolding on_video_pop pair_video find_best_match find_from consider closer prune_used_or_expired
    push_event
oldest_goes_for_a_match = refl

later_pair_correlates :
    can_correlate
      (record no_match {
        video_ts = 600;
        audio_ts = 700;
        video_seq = 2;
        audio_seq = 2;
        valid = true;
      })
      (record no_match {
        video_ts = 100;
        audio_ts = 150;
        video_seq = 1;
        audio_seq = 2;
        valid = true;
      })
    ≡ true
unfolding can_correlate within_one
later_pair_correlates = refl
