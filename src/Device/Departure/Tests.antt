-- ===== src/Device/Departure/Tests.antt =====
-- Passes over a queue of two devices, and a change of the control port alone.
use c64stream.Base.{ℕ, ◌≡◌, ◌≢◌, inr, true, false, [], ◌∷◌, refl, arith}
use c64stream.Base.Lists.{All}
use c64stream.Device.StopQueue.{Entry, new_entry, add, cancel, find, remove_at, write_at, same_text}
use c64stream.Network.StreamControl.{auto, rest_ok}
use c64stream.Device.Departure.{
  test, release_all, rest_stop, StopAnswer, Round, Worker, no_fuel, stop_loop, stop_round,
  stop_streams, stop_previous_stream, stop_attempts, process_previous_device_stops,
  take_pending_device_transition,
}
use c64stream.Device.Departure.Ends.{
  run_passes, start, IsToAnother, five_passes_end, pass-IsToAnother,
}
use c64stream.Device.Departure.Switch.{IsTakenOver, take_pending_device_transition-IsTakenOver}

abbrev device : ℕ → Entry
device n = new_entry (n ∷ []) 64 [] 0

abbrev ok_answer : StopAnswer
ok_answer = record { now = 1; rest_ok = true; outcome = rest_ok; control_ok = false }

abbrev quiet : ℕ → Round
quiet n = record {
  newer_at_start = false;
  newer_before_video = false;
  newer_before_audio = false;
  newer_at_end = false;
  ip_address = 99 ∷ [];
  control_port = 64;
  reachable = false;
  stream_control_transport = auto;
  client_created = true;
  video = ok_answer;
  audio = ok_answer;
}

abbrev answering : ℕ → Round
answering n = record (quiet n) { reachable = true }

abbrev worker : Worker
worker = record {
  ip_address = 99 ∷ [];
  control_port = 64;
  streaming = true;
  handover_peer_ip_set = true;
  switch_requested_ns = 0;
  stream_rest_demoted_until_ns = 0;
  device_transition_pending = false;
  device_transition_host = [];
  device_transition_control_port = 0;
  device_transition_password = [];
  device_transition_rest_demoted_until_ns = 0;
  pending_stops = device 97 ∷ device 98 ∷ [];
}

abbrev late : ℕ → ℕ
late i = 6000000000

stopped_by_rest : process_previous_device_stops worker 6000000000 answering ≡ (
  record worker { pending_stops = []; handover_peer_ip_set = false },
  test (97 ∷ []) 64
      ∷ release_all (97 ∷ [])
      ∷ rest_stop (97 ∷ []) 0
      ∷ rest_stop (97 ∷ []) 1
      ∷ test (98 ∷ []) 64
      ∷ release_all (98 ∷ [])
      ∷ rest_stop (98 ∷ []) 0
      ∷ rest_stop (98 ∷ []) 1
      ∷ [],
)
unfolding process_previous_device_stops stop_loop stop_round stop_streams stop_previous_stream
    remove_at same_text
stopped_by_rest = refl

waits_for_the_picture : process_previous_device_stops worker 4000000000 answering ≡ (worker, [])
unfolding process_previous_device_stops stop_loop stop_round stop_streams stop_previous_stream
    remove_at same_text
waits_for_the_picture = refl

-- The control port of the device in use went from 64 to 65.
abbrev port_changed : Worker
port_changed = record worker {
  ip_address = 97 ∷ [];
  control_port = 65;
  handover_peer_ip_set = false;
  device_transition_pending = true;
  device_transition_host = 97 ∷ [];
  device_transition_control_port = 64;
  pending_stops = [];
}

-- The device in use, which has just been told to start, is told to stop by REST.
stops_device_in_use :
    (process_previous_device_stops
      (take_pending_device_transition port_changed).1
      6000000000
      (λ n. record (answering n) { ip_address = 97 ∷ []; control_port = 65 })).1
    ≡ test (97 ∷ []) 64 ∷ release_all (97 ∷ []) ∷ rest_stop (97 ∷ []) 0 ∷ rest_stop (97 ∷ []) 1 ∷ []
unfolding process_previous_device_stops stop_loop stop_round stop_streams stop_previous_stream
    take_pending_device_transition add cancel find write_at remove_at same_text
stops_device_in_use = refl

five_passes_end_example :
    let v = run_passes stop_attempts late (λ i. quiet) worker in
    (v.pending_stops ≡ []) × (v.handover_peer_ip_set ≡ false)
five_passes_end_example =
    five_passes_end late (λ i. quiet) worker (λ i. inr (omega arith)) (λ i n. (refl, refl))
      (omega arith)

pass-IsToAnother_example :
    ((start worker answering).exit ≢ no_fuel)
    × All
        (IsToAnother (device 97 ∷ device 98 ∷ []) (99 ∷ []) 64)
        (process_previous_device_stops worker 6000000000 answering).1
pass-IsToAnother_example =
    pass-IsToAnother worker 6000000000 answering (99 ∷ []) 64 (λ n. (refl, refl))

take_pending_device_transition-IsTakenOver_example :
    IsTakenOver port_changed (take_pending_device_transition port_changed)
take_pending_device_transition-IsTakenOver_example =
    take_pending_device_transition-IsTakenOver port_changed refl (tt, omega arith) (omega arith)
