-- ===== src/Network/Fifo/Calls.antt =====
-- Whole calls on the ring: what each gives, and that a push by itself is a run of the threads.
use c64stream.Base.{
  suc, ◌+◌, ◌<◌, ◌≤◌, ◌⊎◌, arith, ◌≡◌, ◌≢◌, inl, inr, false≢true, ◌∙◌, sym, ap, ap₂, subst, Bool,
  true, false, [], ◌∷◌, ◌++◌, refl,
}
use native.Mathlib.Decide.{ℕ_discrete}
use c64stream.Base.Bools.{if-eq_of_true, if-eq_of_false, ==_iff, ==-ne, Bool-cases}
use c64stream.Base.Ring.{update_self}
use c64stream.Base.Lists.{length}
use c64stream.Network.Fifo.{Packet, packet_max_size, Fifo, next_index, is_refused, push_tagged}
use c64stream.Network.Fifo.Queue.{
  count, contents, IsValid, count-full, count-room, contents-write, contents-publish,
  publish-IsValid,
}
use c64stream.Network.Fifo.Threads.{
  Send, idle, writing, written, System, write_head, filled, Carries, filled-Carries, start, fill,
  publish, Reach, step,
}

abbrev pub send : Fifo → Send → Bool × Fifo
send f m = push_tagged f m.bytes m.size m.timestamp_ns m.from_handover m.palette_cutover

-- What a push gives, by the list of the packets in the ring.
pub data Sent (f : Fifo) (m : Send) (r : Bool × Fifo) : Type 0 where
  refused : (f.capacity < 2) ⊎ (packet_max_size < m.size) → r ≡ (false, f) → Sent f m r
  dropped :
      2 ≤ f.capacity
      → m.size ≤ packet_max_size
      → suc (count f) ≡ f.capacity
      → r ≡ (false, record f { dropped_full = f.dropped_full + 1 })
      → Sent f m r
  taken :
      2 ≤ f.capacity
      → m.size ≤ packet_max_size
      → suc (count f) < f.capacity
      → r.0 ≡ true
      → (p : Packet) → contents r.1 ≡ contents f ++ p ∷ []
      → Carries m p
      → IsValid r.1
      → Sent f m r

module _ (f : Fifo) (m : Send) where
  abbrev sent : Fifo
  sent = record (write_head f (filled f m)) { head = next_index f.capacity f.head }

  send-refused : is_refused f m.size ≡ true → send f m ≡ (false, f)
  unfolding push_tagged
  send-refused g = if-eq_of_true _ _ g

  send-full :
      is_refused f m.size ≡ false
      → next_index f.capacity f.head ≡ f.tail
      → send f m ≡ (false, record f { dropped_full = f.dropped_full + 1 })
  unfolding push_tagged
  send-full g e = if-eq_of_false _ _ g ∙ if-eq_of_true _ _ ((==_iff _ _).1 e)

  send-taken :
      is_refused f m.size ≡ false → next_index f.capacity f.head ≢ f.tail → send f m ≡ (true, sent)
  unfolding push_tagged
  send-taken g ne = if-eq_of_false _ _ g ∙ if-eq_of_false _ _ (==-ne _ _ ne)

  refused_for : is_refused f m.size ≡ true → (f.capacity < 2) ⊎ (packet_max_size < m.size)
  refused_for g = ground (arith, g)

  accepted : is_refused f m.size ≡ false → (2 ≤ f.capacity) × (m.size ≤ packet_max_size)
  accepted g = ground (arith, g)

  module _ (v : IsValid f) where
    written-IsValid : IsValid (write_head f (filled f m))
    written-IsValid = record { head_in = v.head_in; tail_in = v.tail_in }

    contents-sent :
        next_index f.capacity f.head ≢ f.tail → contents sent ≡ contents f ++ filled f m ∷ []
    contents-sent ne =
        contents-publish written-IsValid ne
        ∙ ap₂ (λ xs x. xs ++ x ∷ []) (contents-write v (filled f m))
            (update_self f.entries f.head (filled f m))

    -- A push into a valid ring of as many bytes as it says refuses a packet of more than 780 bytes,
    -- and any packet if there are less than two slots, drops and counts one that meets a full ring,
    -- and puts any other behind the packets in the ring, with the time, the size, the flags and the
    -- bytes that it is given; the ring stays valid.
    pub send-Sent : m.size ≤ length m.bytes → Sent f m (send f m)
    send-Sent l = elim (Bool-cases (is_refused f m.size)) [
      | inl g ↦ refused (refused_for g) (send-refused g)
      | inr g ↦ elim (ℕ_discrete (next_index f.capacity f.head) f.tail) [
        | yes e ↦ dropped (accepted g).0 (accepted g).1 (count-full v e) (send-full g e)
        | no ne ↦ subst (Sent f m) (sym (send-taken g ne)) (
            taken (accepted g).0 (accepted g).1 (count-room v ne) refl (filled f m)
              (contents-sent ne) (filled-Carries f m l) (publish-IsValid written-IsValid))
      ]
    ]

run-send :
    (s₀ s : System) (m : Send)
    → Reach s₀ s
    → s.producer ≡ idle
    → is_refused s.fifo m.size ≡ false
    → next_index s.fifo.capacity s.fifo.head ≢ s.fifo.tail
    → m.size ≤ length m.bytes
    → Reach s₀ (record s {
      fifo = sent s.fifo m;
      producer = idle;
      sends = s.sends ++ m ∷ [];
      pushed = s.pushed ++ filled s.fifo m ∷ [];
    })
run-send s₀ s m r e g ne l =
    let p = filled s.fifo m in
    let t = record s { producer = writing m } in
    let u = record s { fifo = write_head s.fifo p; producer = written m p } in
    step u _ (step t u (step s t r (start s m e g ne l)) (fill t m refl)) (publish u m p refl)

-- A push that succeeds does what its steps do when nothing comes between them.
pub Reach-send :
    (s₀ s : System) (m : Send) (f : Fifo)
    → Reach s₀ s
    → s.producer ≡ idle
    → send s.fifo m ≡ (true, f)
    → m.size ≤ length m.bytes
    → Reach s₀ (record s {
      fifo = f;
      producer = idle;
      sends = s.sends ++ m ∷ [];
      pushed = s.pushed ++ filled s.fifo m ∷ [];
    })
Reach-send s₀ s m f r e q l = elim (Bool-cases (is_refused s.fifo m.size)) [
  | inl g ↦ absurd (false≢true (ap (λ x. x.0) (sym (send-refused s.fifo m g) ∙ q)))
  | inr g ↦ elim (ℕ_discrete (next_index s.fifo.capacity s.fifo.head) s.fifo.tail) [
    | yes n ↦ absurd (false≢true (ap (λ x. x.0) (sym (send-full s.fifo m g n) ∙ q)))
    | no ne ↦
        subst
          (λ h. Reach s₀ (record s {
            fifo = h;
            producer = idle;
            sends = s.sends ++ m ∷ [];
            pushed = s.pushed ++ filled s.fifo m ∷ [];
          }))
          (ap (λ x. x.1) (sym (send-taken s.fifo m g ne) ∙ q)) (run-send s₀ s m r e g ne l)
  ]
]
