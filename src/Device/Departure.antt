-- ===== src/Device/Departure.antt =====
-- src/c64-source.c: what the retry worker does about a device that the source was switched away
-- from. It goes into the stop queue, and passes over the queue stop its streams.
-- A pass reads what other threads, the clock and the devices say; `Round` holds what it reads in
-- one round of its loop. The host of an entry is never null, and logging is left out.
pub mod Rounds
pub mod Passes
pub mod Ends
pub mod Switch
mod Tests
use c64stream.Base.{
  ℕ, zero, suc, ◌+◌, ◌-◌, ◌*◌, ◌%◌, ◌^◌, Bool, true, false, not, ◌&&◌, ◌||◌, Option, none, some,
  List, [], ◌∷◌, ◌++◌,
}
use c64stream.Base.Bools.{◌==◌, leb, ltb, if◌then◌else◌}
use c64stream.Base.Lists.{length, take, get_elem?}
use c64stream.Base.Words.{sub64}
use c64stream.Device.StopQueue.{
  Entry, add, cancel, remove_at, record_failure, matches, same_text, host_max,
}
use c64stream.Network.StreamControl.{
  Outcome, Transport, should_fallback, is_rest, is_legacy, is_unreachable,
}

abbrev pub stop_attempts : ℕ
stop_attempts = 5

-- Five seconds.
abbrev pub handover_hold_ns : ℕ
handover_hold_ns = 5 * 1000000000

-- What is sent to a device: a test whether it can be reached, the release of all keys, and the stop
-- of one stream by REST or by the control port.
pub data Command : Type 0 where
  test : List ℕ → ℕ → Command
  release_all : List ℕ → Command
  rest_stop : List ℕ → ℕ → Command
  control_stop : List ℕ → ℕ → ℕ → Command

-- The clock at the stop of one stream, and what comes of the request and of the command.
pub record StopAnswer : Type 0 where
  pub now : ℕ
  pub rest_ok : Bool
  pub outcome : Outcome
  pub control_ok : Bool

-- `newer_…` are the four reads of `retry_requested`; `client_created` is whether there is memory
-- for a REST client.
pub record Round : Type 0 where
  pub newer_at_start : Bool
  pub newer_before_video : Bool
  pub newer_before_audio : Bool
  pub newer_at_end : Bool
  pub ip_address : List ℕ
  pub control_port : ℕ
  pub reachable : Bool
  pub stream_control_transport : Transport
  pub client_created : Bool
  pub video : StopAnswer
  pub audio : StopAnswer

-- Whether the stream was stopped, and what was sent.
unfoldable pub stop_previous_stream :
    Bool → Transport → List ℕ → ℕ → ℕ → ℕ → StopAnswer → Bool × List Command
unfolding should_fallback
stop_previous_stream client transport host control_port demoted_until stream_id a =
    let request = rest_stop host stream_id in
    let command = control_stop host control_port stream_id in
    if client && (is_rest transport || leb demoted_until a.now)
    then if a.rest_ok
      then (true, request ∷ [])
      else if is_rest transport || not (should_fallback a.outcome) && not (is_unreachable a.outcome)
      then (false, request ∷ [])
      else (a.control_ok, request ∷ command ∷ [])
    else (a.control_ok, command ∷ [])

-- How a round ends: the pass is left, or goes on at an index. The queue and what was sent.
pub data Turn : Type 0 where
  leaves : List Entry → List Command → Turn
  goes_on : ℕ → List Entry → List Command → Turn

-- After a stop that failed.
unfoldable pub count_failure : List Entry → ℕ → List Command → Turn
count_failure queue index sent =
    let counted = record_failure queue index stop_attempts in
    if counted.0
    then goes_on index (remove_at counted.1 index) sent
    else goes_on (index + 1) counted.1 sent

-- From the client on: whether both streams of `e` were stopped, and what was sent.
unfoldable pub stop_streams : Round → Entry → Bool × List Command
unfolding stop_previous_stream
stop_streams r e =
    let client = not (is_legacy r.stream_control_transport) && r.client_created in
    let released = if client then release_all e.host ∷ [] else [] in
    let stop = λ (stream_id : ℕ) (a : StopAnswer).
      stop_previous_stream client r.stream_control_transport e.host e.control_port
        e.rest_demoted_until_ns stream_id a in
    let nothing : Bool × List Command = (false, []) in
    let video = if r.newer_before_video then nothing else stop 0 r.video in
    let audio = if r.newer_before_video || r.newer_before_audio then nothing else stop 1 r.audio in
    (video.0 && audio.0, released ++ (video.1 ++ audio.1))

-- The round of the loop for the entry `e` at `index`.
unfoldable pub stop_round : Round → Entry → List Entry → ℕ → Turn
unfolding count_failure stop_streams
stop_round r e queue index =
    let tested = test e.host e.control_port in
    let (stopped, sent) = stop_streams r e in
    if r.newer_at_start
    then leaves queue []
    else if matches (take 63 r.ip_address) r.control_port e
    then goes_on index (remove_at queue index) []
    else if not r.reachable
    then count_failure queue index (tested ∷ [])
    else if r.newer_at_end && not stopped
    then leaves queue (tested ∷ sent)
    else if stopped
    then goes_on index (remove_at queue index) (tested ∷ sent)
    else count_failure queue index (tested ∷ sent)

-- How the loop ends: by its test, by a return, or for lack of fuel.
pub data Exit : Type 0 where
  by_test by_return no_fuel : Exit

pub record Pass : Type 0 where
  pub exit : Exit
  pub queue : List Entry
  pub sent : List Command

abbrev pub at_entry : Pass → (Entry → Pass) → Option Entry → Pass
at_entry ended turn none = ended
at_entry ended turn (some e) = turn e

abbrev pub after_turn : (List Entry → ℕ → List Command → Pass) → List Command → Turn → Pass
after_turn rest sent (leaves q commands) = record {
  exit = by_return;
  queue = q;
  sent = sent ++ commands;
}
after_turn rest sent (goes_on i q commands) = rest q i (sent ++ commands)

-- The loop from `index` on; `observed n` is what is read in the n-th round.
unfoldable pub stop_loop : ℕ → (ℕ → Round) → ℕ → List Entry → ℕ → List Command → Pass
unfolding stop_round
stop_loop zero observed n queue index sent = record {
  exit = if ltb index (length queue) then no_fuel else by_test;
  queue = queue;
  sent = sent;
}
stop_loop (suc fuel) observed n queue index sent =
    at_entry (record { exit = by_test; queue = queue; sent = sent })
      (λ e.
        after_turn (stop_loop fuel observed (n + 1)) sent (stop_round (observed n) e queue index))
      (get_elem? queue index)

-- The fields of `struct c64_source` that are read and written here. No other thread is taken to
-- write them during a call.
pub record Worker : Type 0 where
  pub ip_address : List ℕ
  pub control_port : ℕ
  pub streaming : Bool
  pub handover_peer_ip_set : Bool
  pub switch_requested_ns : ℕ
  pub stream_rest_demoted_until_ns : ℕ
  pub device_transition_pending : Bool
  pub device_transition_host : List ℕ
  pub device_transition_control_port : ℕ
  pub device_transition_password : List ℕ
  pub device_transition_rest_demoted_until_ns : ℕ
  pub pending_stops : List Entry

abbrev pub is_empty : List Entry → Bool
is_empty [] = true
is_empty (e ∷ es) = false

-- The worker with what a pass leaves.
abbrev pub after_pass : Worker → Pass → Worker
after_pass w p = record w {
  pending_stops = p.queue;
  handover_peer_ip_set = elim p.exit [
    | by_test ↦ w.handover_peer_ip_set && not (is_empty p.queue)
    | _ ↦ w.handover_peer_ip_set
  ];
}

abbrev pub holds : Worker → ℕ → Bool
holds w now =
    not (is_empty w.pending_stops)
    && w.handover_peer_ip_set
    && w.streaming
    && ltb (sub64 now w.switch_requested_ns) handover_hold_ns

-- A pass, at the time `now`. The loop has a round for each entry at most.
unfoldable pub process_previous_device_stops : Worker → ℕ → (ℕ → Round) → Worker × List Command
unfolding stop_loop
process_previous_device_stops w now observed =
    let p = stop_loop (length w.pending_stops) observed 0 w.pending_stops 0 [] in
    if holds w now then (w, []) else (after_pass w p, p.sent)

-- Takes a switch over; the rebuilt REST client is left out.
unfoldable pub take_pending_device_transition : Worker → Bool × Worker
unfolding add cancel
take_pending_device_transition w =
    let old_host = take (host_max - 1) w.device_transition_host in
    let added =
      add w.pending_stops old_host w.device_transition_control_port w.device_transition_password
        w.device_transition_rest_demoted_until_ns in
    let cancelled = cancel added.2 w.ip_address w.control_port in
    if w.device_transition_pending
    then (
      true,
      record w {
        device_transition_pending = false;
        device_transition_host = [];
        device_transition_control_port = 0;
        device_transition_password = [];
        stream_rest_demoted_until_ns = 0;
        pending_stops = cancelled.1;
      },
    )
    else (false, w)
