-- ===== src/Network/StreamControl/Fallback.antt =====
-- When the control port is used, and what is sent before it.
use c64stream.Base.{
  ℕ, ◌≡◌, ◌⊎◌, inl, inr, ◌∙◌, sym, ap, Bool, true, false, false≢true, not, ◌&&◌, List, [], ◌∷◌,
  ◌++◌, refl,
}
use c64stream.Base.Bools.{◌==◌, if◌then◌else◌, if-either, if-split}
use c64stream.Base.Bytes.{both-true}
use c64stream.Device.StopQueue.{same_text, receive_only}
use c64stream.Network.StreamControl.{
  Outcome, not_supported, unreachable, bad_request, is_bad_request, is_unreachable, should_fallback,
  is_rest, Request, Answer, Sent, rest_sent, legacy_sent, Transports, Controls, Controlled,
  by_legacy, after_rest, by_rest, tries_rest, stream_control_to,
}

-- One or two REST requests, the second one without palettes, and the last answer.
pub data Asked (sent : List Sent) (a : Answer) : Type 0 where
  once : (q : Request) → sent ≡ rest_sent q a ∷ [] → Asked sent a
  twice :
      (q plain : Request) (refusal : Answer)
      → refusal.ok ≡ false
      → refusal.outcome ≡ bad_request
      → q.palette ≡ true
      → plain.palette ≡ false
      → sent ≡ rest_sent q refusal ∷ rest_sent plain a ∷ []
      → Asked sent a

-- All that a call sends.
pub data Trace (c : Controls) (now : ℕ) (sent : List Sent) : Type 0 where
  silent : sent ≡ [] → Trace c now sent
  by_rest_only : (a : Answer) → Asked sent a → Trace c now sent
  by_port_only :
      (ok : Bool) → tries_rest c now ≡ false → sent ≡ legacy_sent ok ∷ [] → Trace c now sent
  fell_back :
      (before : List Sent) (a : Answer) (ok : Bool)
      → Asked before a
      → a.ok ≡ false
      → (a.outcome ≡ not_supported) ⊎ (a.outcome ≡ unreachable)
      → is_rest c.stream_control_transport ≡ false
      → sent ≡ before ++ legacy_sent ok ∷ []
      → Trace c now sent

not-true : (b : Bool) → not b ≡ true → b ≡ false
not-true true e = absurd (false≢true e)
not-true false e = refl

is_bad_request-eq : (o : Outcome) → is_bad_request o ≡ true → o ≡ bad_request
is_bad_request-eq bad_request e = refl
is_bad_request-eq Outcome.rest_ok e = absurd (false≢true e)
is_bad_request-eq Outcome.not_supported e = absurd (false≢true e)
is_bad_request-eq Outcome.forbidden e = absurd (false≢true e)
is_bad_request-eq Outcome.unreachable e = absurd (false≢true e)
is_bad_request-eq Outcome.server_error e = absurd (false≢true e)

is_unreachable-eq : (o : Outcome) → not (is_unreachable o) ≡ false → o ≡ unreachable
is_unreachable-eq unreachable e = refl
is_unreachable-eq Outcome.rest_ok e = absurd (false≢true (sym e))
is_unreachable-eq Outcome.not_supported e = absurd (false≢true (sym e))
is_unreachable-eq Outcome.forbidden e = absurd (false≢true (sym e))
is_unreachable-eq Outcome.bad_request e = absurd (false≢true (sym e))
is_unreachable-eq Outcome.server_error e = absurd (false≢true (sym e))

should_fallback-eq : (o : Outcome) → should_fallback o ≡ true → o ≡ not_supported
unfolding should_fallback
should_fallback-eq not_supported e = refl
should_fallback-eq Outcome.rest_ok e = absurd (false≢true e)
should_fallback-eq Outcome.unreachable e = absurd (false≢true e)
should_fallback-eq Outcome.forbidden e = absurd (false≢true e)
should_fallback-eq Outcome.bad_request e = absurd (false≢true e)
should_fallback-eq Outcome.server_error e = absurd (false≢true e)

module _ (t : Transports) (c : Controls) (now : ℕ) where
  IsTrace : Controlled → Type 0
  IsTrace r = Trace c now r.2

  after_rest-IsTrace :
      (d : Controls) (wants palette : Bool) (a : Answer) (sent : List Sent)
      → d.stream_control_transport ≡ c.stream_control_transport
      → Asked sent a
      → Trace c now (after_rest t d wants palette now a sent).2
  unfolding after_rest by_legacy
  after_rest-IsTrace d wants palette a sent e k =
      let P = λ (r : Controlled). Trace c now r.2 in
      if-split P a.ok (λ _. by_rest_only a k)
        (λ f.
          if-split P (is_rest d.stream_control_transport) (λ _. by_rest_only a k)
            (λ nr.
              let port = sym (ap is_rest e) ∙ nr in
              if-split P (should_fallback a.outcome)
                (λ g.
                  fell_back sent a (t.legacy_answer sent) k f (inl (should_fallback-eq a.outcome g))
                    port refl)
                (λ _.
                  if-split P (not (is_unreachable a.outcome)) (λ _. by_rest_only a k)
                    (λ u.
                      fell_back sent a (t.legacy_answer sent) k f
                        (inr (is_unreachable-eq a.outcome u)) port refl))))

  by_rest-IsTrace :
      (d : Controls) (q : Request) (wants : Bool)
      → d.stream_control_transport ≡ c.stream_control_transport
      → Trace c now (by_rest t d q wants now).2
  unfolding by_rest
  by_rest-IsTrace d q wants e =
      let a = t.rest_answer [] q in
      if-split (λ (r : Controlled). Trace c now r.2)
        (not a.ok && q.start && q.palette && is_bad_request a.outcome)
        (λ g.
          let (kp, bad) =
            both-true (not a.ok && q.start && q.palette) (is_bad_request a.outcome) g in
          let (ks, pal) = both-true (not a.ok && q.start) q.palette kp in
          let (failed, _) = both-true (not a.ok) q.start ks in
          after_rest-IsTrace _ wants q.palette _ _ e
            (twice q _ a (not-true a.ok failed) (is_bad_request-eq a.outcome bad) pal refl refl))
        (λ _. after_rest-IsTrace d wants q.palette a _ e (once q refl))

-- What a call may send: nothing; one or two REST requests, the second without palettes after a
-- refusal of them as a bad request; a command to the control port alone, if REST is not tried; or
-- such a command after REST requests, and then only if the last answer was that REST is not
-- supported or none came, and the transport is not fixed to REST.
pub stream_control_to-IsTrace :
    (t : Transports) (c : Controls) (host : List ℕ) (enable : Bool) (stream_id : ℕ)
    (destination : List ℕ) (now : ℕ)
    → Trace c now (stream_control_to t c host enable stream_id destination now).2
unfolding stream_control_to by_legacy
stream_control_to-IsTrace t c host enable stream_id destination now =
    let P = λ (r : Controlled). Trace c now r.2 in
    let wants = enable && stream_id == 0 && c.follow_device_palette in
    let ready = if wants then record c { ordering_valid = false } else c in
    let same : ready.stream_control_transport ≡ c.stream_control_transport =
      if-either (λ (d : Controls). d.stream_control_transport ≡ c.stream_control_transport) wants
        refl refl in
    if-split P (same_text host receive_only) (λ _. silent refl)
      (λ _.
        if-split P (is_rest c.stream_control_transport && not c.has_rest_client) (λ _. silent refl)
          (λ _.
            if-split P (tries_rest c now) (λ _. by_rest-IsTrace t c now ready _ wants same)
              (λ n. by_port_only (t.legacy_answer []) n refl)))
