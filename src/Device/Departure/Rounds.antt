-- ===== src/Device/Departure/Rounds.antt =====
-- One round of the loop over the devices to stop: how it ends, and what it sends.
use c64stream.Base.{
  ℕ, ◌+◌, ◌%◌, ◌^◌, ◌<◌, ◌≡◌, ◌⊎◌, inl, inr, ap, Bool, true, false, not, ◌&&◌, ◌||◌, List, [], ◌∷◌,
  ◌++◌, refl, arith,
}
use c64stream.Base.Bools.{leb, if◌then◌else◌, if-split, if-either}
use c64stream.Base.Bytes.{both-true}
use c64stream.Base.Lists.{All, All-append, length, take}
use c64stream.Device.StopQueue.{Entry, remove_at, record_failure, matches}
use c64stream.Device.StopQueue.Keys.{remove_at-at}
use c64stream.Network.StreamControl.{Transport, is_legacy}
use c64stream.Device.Departure.{
  Command, test, release_all, rest_stop, control_stop, StopAnswer, Round, stop_previous_stream,
  Turn, leaves, goes_on, count_failure, stop_round, stop_streams, stop_attempts,
}

-- A request by REST does not name the control port.
abbrev pub IsTo : Entry → Command → Type 0
IsTo e (test host port) = (host ≡ e.host) × (port ≡ e.control_port)
IsTo e (release_all host) = host ≡ e.host
IsTo e (rest_stop host stream_id) = host ≡ e.host
IsTo e (control_stop host port stream_id) = (host ≡ e.host) × (port ≡ e.control_port)

-- The entry with one more failed attempt.
abbrev pub counted : Entry → Entry
counted e = record e { attempts = (e.attempts + 1) % 2 ^ 32 }

record_failure-at :
    (early late : List Entry) (e : Entry) (m : ℕ)
    → record_failure (early ++ e ∷ late) (length early) m
      ≡ (leb m ((e.attempts + 1) % 2 ^ 32), early ++ counted e ∷ late)
unfolding record_failure
record_failure-at [] late e m = refl
record_failure-at (x ∷ early) late e m =
    ap (λ (r : Bool × List Entry). (r.0, x ∷ r.1)) (record_failure-at early late e m)

-- A device is in use when its address and port are the source's.
abbrev pub is_in_use : Round → Entry → Bool
is_in_use r e = matches (take 63 r.ip_address) r.control_port e

abbrev pub IsNewer : Round → Type 0
IsNewer r = (r.newer_at_start ≡ true) ⊎ (r.newer_at_end ≡ true)

-- What a round for the entry `e`, between `early` and `late`, comes to.
pub data Turned (r : Round) (e : Entry) (early late : List Entry) (t : Turn) : Type 0 where
  left :
      (sent : List Command)
      → IsNewer r
      → (All (IsTo e) sent)
      → (sent ≡ []) ⊎ (is_in_use r e ≡ false)
      → t ≡ leaves (early ++ e ∷ late) sent
      → Turned r e early late t
  removed :
      (sent : List Command)
      → All (IsTo e) sent
      → (sent ≡ []) ⊎ (is_in_use r e ≡ false)
      → t ≡ goes_on (length early) (early ++ late) sent
      → Turned r e early late t
  kept :
      (sent : List Command)
      → (e.attempts + 1) % 2 ^ 32 < stop_attempts
      → All (IsTo e) sent
      → is_in_use r e ≡ false
      → t ≡ goes_on (length early + 1) (early ++ counted e ∷ late) sent
      → Turned r e early late t

stop_previous_stream-IsTo :
    (client : Bool) (t : Transport) (e : Entry) (until stream_id : ℕ) (a : StopAnswer)
    → All (IsTo e) (stop_previous_stream client t e.host e.control_port until stream_id a).1
unfolding stop_previous_stream
stop_previous_stream-IsTo client t e until stream_id a = ground arith

stop_streams-IsTo : (r : Round) (e : Entry) → All (IsTo e) (stop_streams r e).1
unfolding stop_streams
stop_streams-IsTo r e =
    All-append (IsTo e) _ _
      (if-either (All (IsTo e)) _ {x = release_all e.host ∷ []} {y = []} (refl, tt) tt)
      (All-append (IsTo e) _ _ (asked r.newer_before_video 0 r.video)
        (asked (r.newer_before_video || r.newer_before_audio) 1 r.audio))
  where
    asked :
        (newer : Bool) (stream_id : ℕ) (a : StopAnswer)
        → All
            (IsTo e)
            (if newer
              then (false, [])
              else stop_previous_stream
                  (not (is_legacy r.stream_control_transport) && r.client_created)
                  r.stream_control_transport
                  e.host
                  e.control_port
                  e.rest_demoted_until_ns
                  stream_id
                  a).1
    asked true stream_id a = tt
    asked false stream_id a = stop_previous_stream-IsTo _ _ e _ stream_id a

module _ (r : Round) (e : Entry) (early late : List Entry) where
  count_failure-Turned :
      (sent : List Command)
      → All (IsTo e) sent
      → is_in_use r e ≡ false
      → Turned r e early late (count_failure (early ++ e ∷ late) (length early) sent)
  unfolding count_failure
  count_failure-Turned sent a u = rw (record_failure-at early late e stop_attempts) (
      if-split (Turned r e early late) (leb stop_attempts ((e.attempts + 1) % 2 ^ 32))
        (λ h.
          removed sent a (inr u)
            (ap (λ q. goes_on (length early) q sent) (remove_at-at early late (counted e))))
        (λ h. kept sent (ground arith) a u refl))

  removed-Turned :
      (sent : List Command)
      → All (IsTo e) sent
      → (sent ≡ []) ⊎ (is_in_use r e ≡ false)
      → Turned r e early late
          (goes_on (length early) (remove_at (early ++ e ∷ late) (length early)) sent)
  removed-Turned sent a u =
      removed sent a u (ap (λ q. goes_on (length early) q sent) (remove_at-at early late e))

  -- A round leaves the pass for a newer request only, and otherwise takes the entry out or counts a
  -- failure. It sends to this device only, and nothing if the device is in use.
  pub stop_round-Turned : Turned r e early late (stop_round r e (early ++ e ∷ late) (length early))
  unfolding stop_round
  stop_round-Turned =
      let sent = test e.host e.control_port ∷ (stop_streams r e).1 in
      let addressed : All (IsTo e) sent = ((refl, refl), stop_streams-IsTo r e) in
      if-split (Turned r e early late) r.newer_at_start (λ h. left [] (inl h) tt (inl refl) refl)
        (λ _.
          if-split (Turned r e early late) (is_in_use r e) (λ _. removed-Turned [] tt (inl refl))
            (λ u.
              if-split (Turned r e early late) (not r.reachable)
                (λ _. count_failure-Turned (test e.host e.control_port ∷ []) ((refl, refl), tt) u)
                (λ _.
                  if-split (Turned r e early late) (r.newer_at_end && not (stop_streams r e).0)
                    (λ h. left sent (inr (both-true r.newer_at_end _ h).0) addressed (inr u) refl)
                    (λ _.
                      if-split (Turned r e early late) (stop_streams r e).0
                        (λ _. removed-Turned sent addressed (inr u))
                        (λ _. count_failure-Turned sent addressed u)))))
