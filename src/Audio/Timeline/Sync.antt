-- ===== src/Audio/Timeline/Sync.antt =====
-- The 16-bit sequence numbers against the packet counter that the device keeps without bound.
use c64stream.Base.{
  ℕ, ◌+◌, ◌-◌, ◌%◌, ◌^◌, ◌≤◌, ◌<◌, ◌≡◌, ◌≢◌, ◌∙◌, inl, inr, true, List, [], ◌∷◌, Option, none, some,
  refl, ap, ap₂, arith,
}
use c64stream.Base.Bools.{ltb, if◌then◌else◌, Bool-cases, ltb→lt}
use c64stream.Base.Int.{ℤ, pos}
use c64stream.Base.Words.{diff16}
use c64stream.Audio.Timeline.{
  Timeline, Advanced, drop, wav_fill_max_packets, resync_threshold, classify, advance, reset,
}
use c64stream.Audio.Timeline.Order.{
  IsLate, Dropped, Placed, classify-Dropped, classify-Placed, advance-classify,
}

abbrev seq_of : ℕ → ℕ
seq_of n = n % 2 ^ 16

-- The timeline has last played packet `newest` of a stream whose first packet was `base`.
pub record Follows (tl : Timeline) (base newest : ℕ) : Type 0 where
  pub set : tl.seq_set ≡ true
  pub seq : tl.last_seq ≡ seq_of newest
  pub since : base ≤ newest
  pub index : tl.packet_index ≡ newest - base
  pub room : newest - base + 2 ^ 15 < 2 ^ 64

-- At most 249 packets late, or at most 1,250 packets lost.
abbrev pub InWindow : ℕ → ℕ → Type 0
InWindow newest n = (newest < n + resync_threshold) × (n ≤ newest + wav_fill_max_packets + 1)

diff16-near :
    (m n : ℕ)
    → m < n
    → n ≤ m + wav_fill_max_packets + 1
    → diff16 (seq_of n) (seq_of m) ≡ pos (n - m)
diff16-near m n h k = ground arith

diff16-IsLate : (m n : ℕ) → n ≤ m → m < n + resync_threshold → IsLate (diff16 (seq_of n) (seq_of m))
diff16-IsLate m n h k = ground arith

classify-set :
    (tl : Timeline) (seq : ℕ) (d : ℤ) (now_slot index gap : ℕ)
    → (classify tl seq d now_slot index gap).timeline.seq_set ≡ tl.seq_set
unfolding classify
classify-set tl seq d now_slot index gap = ground arith

-- Where the real packet of a call is played, if it is.
unfoldable pub played : Advanced → Option ℕ
played r = elim r.action [ drop ↦ none | _ ↦ some r.out_index ]

played-drop : (r : Advanced) → r.action ≡ drop → played r ≡ none
unfolding played
played-drop r h = ground arith

played-of_ne_drop : (r : Advanced) → r.action ≢ drop → played r ≡ some r.out_index
unfolding played
played-of_ne_drop r h = ground arith

module _ {tl : Timeline} {base m : ℕ} (f : Follows tl base m) (n now_slot index gap : ℕ) where
  abbrev stepped : Advanced
  stepped = advance tl (seq_of n) now_slot index gap

  stepped-classify :
      (d : ℤ)
      → diff16 (seq_of n) (seq_of m) ≡ d
      → stepped ≡ classify tl (seq_of n) d now_slot index gap
  stepped-classify d e =
      advance-classify tl (seq_of n) now_slot index gap f.set
      ∙ ap (λ x. classify tl (seq_of n) x now_slot index gap)
          (ap (λ x. diff16 (seq_of n) x) f.seq ∙ e)

  pub advance-new :
      m < n
      → n ≤ m + wav_fill_max_packets + 1
      → n - base + 2 ^ 15 < 2 ^ 64
      → Follows stepped.timeline base n × (played stepped ≡ some (n - base))
  advance-new h k r =
      let d = pos (n - m) in
      let q = classify tl (seq_of n) d now_slot index gap in
      let p : Placed tl (seq_of n) d q =
        classify-Placed tl (seq_of n) d now_slot index gap (omega (arith, f.index, f.room))
          (omega arith) in
      let at : q.out_index ≡ n - base = omega (arith, p.adjacent, p.covers, f.index, f.since) in
      rw (stepped-classify d (diff16-near m n h k)) (
        record {
          set = classify-set tl (seq_of n) d now_slot index gap ∙ f.set;
          seq = p.seq_now;
          since = omega (arith, f.since);
          index = p.index_now ∙ at;
          room = r;
        },
        played-of_ne_drop q p.played ∙ ap some at,
      )

  pub advance-late :
      n ≤ m → m < n + resync_threshold → Follows stepped.timeline base m × (played stepped ≡ none)
  advance-late h k =
      let d = diff16 (seq_of n) (seq_of m) in
      let q = classify tl (seq_of n) d now_slot index gap in
      let p : Dropped tl index gap q =
        classify-Dropped tl (seq_of n) d now_slot index gap (diff16-IsLate m n h k) in
      rw (stepped-classify d refl) (
        record {
          set = classify-set tl (seq_of n) d now_slot index gap ∙ f.set;
          seq = p.seq_kept ∙ f.seq;
          since = f.since;
          index = p.index_kept ∙ f.index;
          room = f.room;
        },
        played-drop q p.action,
      )

-- What the timeline makes of a sequence of packets, each a device counter with the wall-clock
-- slot at its arrival: where each packet is played, if it is.
unfoldable pub replay : Timeline → List (ℕ × ℕ) → List (Option ℕ)
replay tl [] = []
replay tl ((n, slot) ∷ ps) =
    let r = advance tl (seq_of n) slot 0 0 in played r ∷ replay r.timeline ps

-- The schedule by the unbounded counters: a packet newer than all before it is played at its
-- distance from the first one, any other is not played.
pub ideal : ℕ → ℕ → List (ℕ × ℕ) → List (Option ℕ)
ideal base newest [] = []
ideal base newest ((n, slot) ∷ ps) =
    (if ltb newest n then some (n - base) else none)
    ∷ ideal base (if ltb newest n then n else newest) ps

-- Each packet stays within the window of the newest one before it.
abbrev pub Arrives : ℕ → ℕ → List (ℕ × ℕ) → Type 0
Arrives base newest [] = Unit
Arrives base newest ((n, slot) ∷ ps) =
    InWindow newest n
    × (n - base + 2 ^ 15 < 2 ^ 64)
    × Arrives base (if ltb newest n then n else newest) ps

replay-Follows :
    (ps : List (ℕ × ℕ)) {tl : Timeline} {base newest : ℕ}
    → Follows tl base newest
    → Arrives base newest ps
    → replay tl ps ≡ ideal base newest ps
unfolding replay ideal
replay-Follows [] f a = refl
replay-Follows ((n, slot) ∷ ps) {newest = m} f a = elim (Bool-cases (ltb m n)) [
  | inl new ↦
      let s = advance-new f n slot 0 0 (ltb→lt m n new) a.0.1 a.1 in
      rw new (ap₂ ◌∷◌ s.1 (replay-Follows ps s.0 (rw new at (a.2))))
  | inr old ↦
      let s = advance-late f n slot 0 0 (ground arith) a.0.0 in
      rw old (ap₂ ◌∷◌ s.1 (replay-Follows ps s.0 (rw old at (a.2))))
]

advance-first :
    (n now_slot index gap : ℕ)
    → let r = advance reset (seq_of n) now_slot index gap in
      Follows r.timeline n n × (played r ≡ some 0)
unfolding advance played
advance-first n now_slot index gap = (ground arith, refl)

-- From a reset timeline the 16-bit sequence numbers give exactly the schedule of the unbounded
-- counters, through any number of wrap-arounds, as long as each packet is at most 249 behind or
-- 1,251 ahead of the newest before it and no index comes within 2 ^ 15 of 2 ^ 64: audio stays at
-- its distance from the first packet whatever was lost, late or sent twice.
pub replay-ideal :
    (first slot : ℕ) (ps : List (ℕ × ℕ))
    → Arrives first first ps
    → replay reset ((first, slot) ∷ ps) ≡ some 0 ∷ ideal first first ps
unfolding replay
replay-ideal first slot ps a =
    let s = advance-first first slot 0 0 in ap₂ ◌∷◌ s.1 (replay-Follows ps s.0 a)
