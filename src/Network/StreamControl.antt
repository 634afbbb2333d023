-- ===== src/Network/StreamControl.antt =====
-- src/network/c64-stream-control.c and .h: starting and stopping the streams of a device, by its
-- REST interface or by the control port. What both answer is a parameter, `Transports`: it may
-- depend on all that was sent in the call. The source and the host are not null.
pub mod Fallback
mod Tests
use c64stream.Base.{
  ℕ, zero, suc, ◌+◌, ◌-◌, ◌*◌, ◌%◌, ◌^◌, Bool, true, false, not, ◌&&◌, ◌||◌, List, [], ◌∷◌, ◌++◌,
}
use c64stream.Base.Bools.{◌==◌, leb, if◌then◌else◌}
use c64stream.Base.Words.{add64}
use c64stream.Device.StopQueue.{same_text, receive_only}

pub data Outcome : Type 0 where
  rest_ok not_supported forbidden bad_request unreachable server_error : Outcome

pub data Transport : Type 0 where
  auto rest legacy : Transport

pub data PaletteStatus : Type 0 where
  unknown requested received unsupported : PaletteStatus

-- A start or a stop of one stream by REST; a stop has neither destination nor palette.
pub record Request : Type 0 where
  pub start : Bool
  pub audio : Bool
  pub destination : List ℕ
  pub palette : Bool

-- What the call returns, and what it writes to `*outcome` and `*status`.
pub record Answer : Type 0 where
  pub ok : Bool
  pub outcome : Outcome
  pub status : ℕ

-- What is sent, with what came of it.
pub data Sent : Type 0 where
  rest_sent : Request → Answer → Sent
  legacy_sent : Bool → Sent

-- The answers of the device, by what was sent before.
pub record Transports : Type 0 where
  pub rest_answer : List Sent → Request → Answer
  pub legacy_answer : List Sent → Bool

-- The fields of `struct c64_source` that are read and written here.
pub record Controls : Type 0 where
  pub ip_address : List ℕ
  pub stream_control_transport : Transport
  pub has_rest_client : Bool
  pub rest_demoted_until : ℕ
  pub follow_device_palette : Bool
  pub ordering_valid : Bool
  pub palette_request_supported : Bool
  pub palette_status : PaletteStatus

abbrev pub is_rest : Transport → Bool
is_rest rest = true
is_rest auto = false
is_rest legacy = false

abbrev pub is_legacy : Transport → Bool
is_legacy legacy = true
is_legacy auto = false
is_legacy rest = false

abbrev pub is_bad_request : Outcome → Bool
is_bad_request bad_request = true
is_bad_request _ = false

abbrev pub is_unreachable : Outcome → Bool
is_unreachable unreachable = true
is_unreachable _ = false

unfoldable pub should_fallback : Outcome → Bool
should_fallback not_supported = true
should_fallback _ = false

-- 60 seconds.
abbrev pub retry_ns : ℕ
retry_ns = 60 * 1000000000

-- The result, the source, and what was sent.
abbrev pub Controlled : Type 0
Controlled = Bool × Controls × List Sent

abbrev pub tries_rest : Controls → ℕ → Bool
tries_rest c now =
    not (is_legacy c.stream_control_transport)
    && c.has_rest_client
    && (is_rest c.stream_control_transport || leb c.rest_demoted_until now)

module _ (t : Transports) where
  -- From the palette's status on to the end.
  unfoldable pub by_legacy : Controls → Bool → Bool → List Sent → Controlled
  by_legacy c wants_palette rest_stalled sent =
      let ok = t.legacy_answer sent in
      (
        ok,
        if wants_palette && not rest_stalled then record c { palette_status = unsupported } else c,
        sent ++ legacy_sent ok ∷ [],
      )

  -- From the test of `ok` on.
  unfoldable pub after_rest : Controls → Bool → Bool → ℕ → Answer → List Sent → Controlled
  unfolding by_legacy should_fallback
  after_rest c wants_palette palette now a sent =
      if a.ok
      then (
        true,
        if palette && c.palette_request_supported
            then record c { palette_status = requested }
            else c,
        sent,
      )
      else if is_rest c.stream_control_transport
      then (false, c, sent)
      else if should_fallback a.outcome
      then by_legacy
          (record c {
            rest_demoted_until = if a.status == 404 then 2 ^ 64 - 1 else add64 now retry_ns;
          })
          wants_palette false sent
      else if not (is_unreachable a.outcome)
      then (false, c, sent)
      else by_legacy c wants_palette true sent

  -- The request, and the one without palettes that follows a refusal of them.
  unfoldable pub by_rest : Controls → Request → Bool → ℕ → Controlled
  unfolding after_rest
  by_rest c q wants_palette now =
      let a = t.rest_answer [] q in
      let first = rest_sent q a ∷ [] in
      let plain = record q { audio = false; palette = false } in
      let b = t.rest_answer first plain in
      if not a.ok && q.start && q.palette && is_bad_request a.outcome
      then after_rest (record c { palette_request_supported = false; palette_status = unsupported })
          wants_palette q.palette now b (first ++ rest_sent plain b ∷ [])
      else after_rest c wants_palette q.palette now a first

  unfoldable pub stream_control_to : Controls → List ℕ → Bool → ℕ → List ℕ → ℕ → Controlled
  unfolding by_rest by_legacy
  stream_control_to c host enable stream_id destination now =
      let wants = enable && stream_id == 0 && c.follow_device_palette in
      let ready = if wants then record c { ordering_valid = false } else c in
      if same_text host receive_only
      then (true, c, [])
      else if is_rest c.stream_control_transport && not c.has_rest_client
      then (false, c, [])
      else if tries_rest c now
      then by_rest ready
          (record {
            start = enable;
            audio = stream_id == 1;
            destination = if enable then destination else [];
            palette = wants && c.palette_request_supported;
          })
          wants now
      else by_legacy ready wants false []

-- The answers to a second call, after what the first one sent.
abbrev pub later : Transports → List Sent → Transports
later t first = record {
  rest_answer = λ sent. t.rest_answer (first ++ sent);
  legacy_answer = λ sent. t.legacy_answer (first ++ sent);
}

-- `now` and `now'` are the times of both stops.
unfoldable pub stop_all_to : Transports → Controls → List ℕ → ℕ → ℕ → Controlled
unfolding stream_control_to
stop_all_to t c host now now' =
    let (video_stopped, c', first) = stream_control_to t c host false 0 [] now in
    let (audio_stopped, c'', second) = stream_control_to (later t first) c' host false 1 [] now' in
    (video_stopped && audio_stopped, c'', first ++ second)

unfoldable pub stream_control : Transports → Controls → Bool → ℕ → List ℕ → ℕ → Controlled
unfolding stream_control_to
stream_control t c enable stream_id destination now =
    stream_control_to t c c.ip_address enable stream_id destination now
