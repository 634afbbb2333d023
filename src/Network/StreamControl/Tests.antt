-- ===== src/Network/StreamControl/Tests.antt =====
-- A device without palettes and without REST for its streams: three commands are sent.
use c64stream.Base.{ℕ, ◌≡◌, true, false, List, [], ◌∷◌, refl}
use c64stream.Device.StopQueue.{same_text}
use c64stream.Network.StreamControl.{
  not_supported, bad_request, auto, unsupported, unknown, Request, Answer, Sent, Transports,
  Controls, stream_control_to, stop_all_to, stream_control, rest_sent, legacy_sent, by_rest,
  by_legacy, after_rest, should_fallback,
}
use c64stream.Network.StreamControl.Fallback.{Trace, stream_control_to-IsTrace}

abbrev answer : List Sent → Request → Answer
answer [] q = record { ok = false; outcome = bad_request; status = 400 }
answer (s ∷ sent) q = record { ok = false; outcome = not_supported; status = 404 }

abbrev device : Transports
device = record { rest_answer = answer; legacy_answer = λ _. true }

abbrev source : Controls
source = record {
  ip_address = 97 ∷ [];
  stream_control_transport = auto;
  has_rest_client = true;
  rest_demoted_until = 0;
  follow_device_palette = true;
  ordering_valid = true;
  palette_request_supported = true;
  palette_status = unknown;
}

abbrev host : List ℕ
host = 97 ∷ []

three_commands : (stream_control_to device source host true 0 host 5).0 ≡ true
unfolding stream_control_to by_rest by_legacy after_rest should_fallback same_text
three_commands = refl

-- After a 404 the device is taken to have no REST.
demoted : (stream_control_to device source host true 0 host 5).1 ≡ record source {
  rest_demoted_until = 18446744073709551615;
  ordering_valid = false;
  palette_request_supported = false;
  palette_status = unsupported;
}
unfolding stream_control_to by_rest by_legacy after_rest should_fallback same_text
demoted = refl

-- Without palettes a stop by REST is refused once; the second stop uses the control port at once.
abbrev plain : Transports
plain = record {
  rest_answer = λ sent q. record { ok = false; outcome = not_supported; status = 404 };
  legacy_answer = λ sent. true;
}

stops_both :
    (stop_all_to plain source host 5 6).2
    ≡ rest_sent
        (record { start = false; audio = false; destination = []; palette = false })
        (record { ok = false; outcome = not_supported; status = 404 })
      ∷ legacy_sent true
      ∷ legacy_sent true
      ∷ []
unfolding stop_all_to stream_control_to by_rest by_legacy after_rest should_fallback same_text
stops_both = refl

starts_own_device :
    stream_control device source true 0 host 5 ≡ stream_control_to device source host true 0 host 5
unfolding stream_control
starts_own_device = refl

stream_control_to-IsTrace_example :
    Trace source 5 (stream_control_to device source host true 0 host 5).2
stream_control_to-IsTrace_example = stream_control_to-IsTrace device source host true 0 host 5
