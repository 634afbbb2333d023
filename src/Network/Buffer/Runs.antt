-- ===== src/Network/Buffer/Runs.antt =====
-- Both rings through any run of the public calls.
use c64stream.Base.{ℕ, ◌≡◌, sym, subst, Option, List, [], arith}
use c64stream.Network.Buffer.{Slot, RingBuffer}
use c64stream.Network.Buffer.Index.{contents, IsValid}
use c64stream.Network.Buffer.Accept.{Outcome, refused, taken, rb_push-Outcome}
use c64stream.Network.Buffer.Drain.{Drained, empty, too_young, handed_out, pop_ready-Drained}
use c64stream.Network.Buffer.Adjust.{
  rb_reset_locked-IsValid, contents-rb_reset_locked, set_ring_delay-IsValid,
}
use c64stream.Network.Buffer.Delay.{
  NetworkBuffer, create, create_ring, push_video, push_audio, pop, set_delay, flush,
}

abbrev pub IsBuffer : NetworkBuffer → Type 0
IsBuffer b = IsValid b.video_ring × IsValid b.audio_ring

-- One call of the receive side, the processor or the user interface.
pub data Call (b : NetworkBuffer) : NetworkBuffer → Type 0 where
  pushed_video : (bytes : List ℕ) (ns : ℕ) → Call b (push_video b bytes ns)
  pushed_audio : (bytes : List ℕ) (ns : ℕ) → Call b (push_audio b bytes ns)
  popped : (video_now audio_now : ℕ) → Call b (pop b video_now audio_now).1
  delayed :
      (video_ms audio_ms video_now audio_now : ℕ)
      → Call b (set_delay b video_ms audio_ms video_now audio_now)
  flushed : Call b (flush b)

pub data Run (b : NetworkBuffer) : NetworkBuffer → Type 0 where
  here : Run b b
  then_call : (c d : NetworkBuffer) → Run b c → Call c d → Run b d

Outcome-IsValid :
    {rb after : RingBuffer} {bytes : List ℕ} {ts : ℕ} → Outcome rb bytes ts after → IsValid after
Outcome-IsValid (refused _ _ v) = v
Outcome-IsValid (taken _ _ _ v) = v

Drained-IsValid :
    {rb : RingBuffer} {now_us : ℕ} {r : Option Slot × RingBuffer}
    → IsValid rb
    → Drained rb now_us r
    → IsValid r.1
Drained-IsValid v (empty _ e) = subst (λ x. IsValid x.1) (sym e) v
Drained-IsValid v (too_young _ _ _ _ e) = subst (λ x. IsValid x.1) (sym e) v
Drained-IsValid v (handed_out _ _ _ _ _ _ w) = w

module _ (vm am : ℕ → Slot) (scratch : Slot) where
  create-IsBuffer : IsBuffer (create vm am scratch)
  unfolding create create_ring
  create-IsBuffer =
      (rb_reset_locked-IsValid _ _ (omega arith), rb_reset_locked-IsValid _ _ (omega arith))

  -- The new buffer holds nothing.
  pub contents-create :
      (contents (create vm am scratch).video_ring ≡ [])
      × (contents (create vm am scratch).audio_ring ≡ [])
  unfolding create create_ring
  contents-create = (contents-rb_reset_locked _ _, contents-rb_reset_locked _ _)

Call-IsBuffer : {b d : NetworkBuffer} → Call b d → IsBuffer b → IsBuffer d
unfolding push_video push_audio pop set_delay flush
Call-IsBuffer (pushed_video bytes ns) o = (Outcome-IsValid (rb_push-Outcome _ _ _ o.0), o.1)
Call-IsBuffer (pushed_audio bytes ns) o = (o.0, Outcome-IsValid (rb_push-Outcome _ _ _ o.1))
Call-IsBuffer (popped video_now audio_now) o = (
  Drained-IsValid o.0 (pop_ready-Drained _ video_now o.0),
  Drained-IsValid o.1 (pop_ready-Drained _ audio_now o.1),
)
Call-IsBuffer (delayed video_ms audio_ms video_now audio_now) o =
    (set_ring_delay-IsValid _ _ _ _ o.0, set_ring_delay-IsValid _ _ _ _ o.1)
Call-IsBuffer flushed o = (
  rb_reset_locked-IsValid _ _ (omega (arith, o.0.head_in)),
  rb_reset_locked-IsValid _ _ (omega (arith, o.1.head_in)),
)

-- Whatever calls are made on a new buffer, in any order, both rings are valid: the positions are
-- in range and every slot between tail and head holds a packet.
pub Run-IsBuffer :
    (vm am : ℕ → Slot) (scratch : Slot) (b : NetworkBuffer)
    → Run (create vm am scratch) b
    → IsBuffer b
Run-IsBuffer vm am scratch b here = create-IsBuffer vm am scratch
Run-IsBuffer vm am scratch b (then_call c d r q) = Call-IsBuffer q (Run-IsBuffer vm am scratch c r)
