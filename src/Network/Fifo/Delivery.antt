-- ===== src/Network/Fifo/Delivery.antt =====
-- What the processor has read is what was pushed, in order, in every interleaving.
use c64stream.Base.{
  ℕ, ◌≤◌, ◌+◌, ◌<◌, ◌≡◌, ◌≢◌, ◌∙◌, sym, ap, subst, some, List, [], ◌∷◌, ◌++◌, refl, arith,
}
use mathlib.Core.List.{append_assoc}
use c64stream.Base.Lists.{length}
use c64stream.Base.Ring.{update_self, update_ne, length-segment}
use c64stream.Network.Fifo.{Packet, Fifo, next_index, peek, commit_pop, reset}
use c64stream.Network.Fifo.Queue.{
  count, view, contents, IsValid, count-lt, contents-write, contents-publish, contents-commit,
  publish-IsValid, commit-IsValid, commit-room,
}
use c64stream.Network.Fifo.Threads.{
  Producer, idle, writing, written, Consumer, waiting, holding, done, System, write_head, filled,
  filled-Carries, Carries, Send, Step, full, start, tear, fill, publish, look, read_entry, commit,
  Reach, here, step, fresh,
}

abbrev HasRoom : Fifo → Type 0
HasRoom f = next_index f.capacity f.head ≢ f.tail

abbrev ProducerOk : Fifo → Producer → Type 0
ProducerOk f idle = Unit
ProducerOk f (writing m) = HasRoom f × (m.size ≤ length m.bytes)
ProducerOk f (written m p) = HasRoom f × (f.entries f.head ≡ p) × Carries m p

abbrev ConsumerOk : Fifo → List Packet → List Packet → Consumer → Type 0
ConsumerOk f pushed read waiting = pushed ≡ read ++ contents f
ConsumerOk f pushed read (holding i) =
    (i ≡ f.tail) × (f.head ≢ f.tail) × (pushed ≡ read ++ contents f)
ConsumerOk f pushed read done =
    (before : List Packet) × (f.head ≢ f.tail)
    × (read ≡ before ++ f.entries f.tail ∷ [])
    × (pushed ≡ before ++ contents f)

-- Each packet has the arguments of the push at the same place.
abbrev pub Carried : List Send → List Packet → Type 0
Carried [] [] = Unit
Carried [] (p ∷ ps) = ⊥
Carried (m ∷ ms) [] = ⊥
Carried (m ∷ ms) (p ∷ ps) = Carries m p × Carried ms ps

Carried-snoc :
    (ms : List Send) (ps : List Packet) (m : Send) (p : Packet)
    → Carried ms ps
    → Carries m p
    → Carried (ms ++ m ∷ []) (ps ++ p ∷ [])
Carried-snoc [] [] m p h c = (c, tt)
Carried-snoc [] (q ∷ ps) m p h c = absurd h
Carried-snoc (n ∷ ms) [] m p h c = absurd h
Carried-snoc (n ∷ ms) (q ∷ ps) m p h c = (h.0, Carried-snoc ms ps m p h.1 c)

pub record Invariant (s : System) : Type 0 where
  pub valid : IsValid s.fifo
  pub producing : ProducerOk s.fifo s.producer
  pub consuming : ConsumerOk s.fifo s.pushed s.read s.consumer
  pub carried : Carried s.sends s.pushed

module _ (f : Fifo) (v : IsValid f) (pushed read : List Packet) where
  write-ConsumerOk :
      (p : Packet) (c : Consumer)
      → ConsumerOk f pushed read c
      → ConsumerOk (write_head f p) pushed read c
  write-ConsumerOk p waiting e = e ∙ ap (λ xs. read ++ xs) (sym (contents-write v p))
  write-ConsumerOk p (holding i) (at, ne, e) =
      (at, ne, e ∙ ap (λ xs. read ++ xs) (sym (contents-write v p)))
  write-ConsumerOk p done (before, ne, r, e) = (
    before,
    ne,
    r ∙ ap (λ x. before ++ x ∷ []) (sym (update_ne f.entries f.head f.tail p ne)),
    e ∙ ap (λ xs. before ++ xs) (sym (contents-write v p)),
  )

  full-ConsumerOk :
      (c : Consumer)
      → ConsumerOk f pushed read c
      → ConsumerOk (record f { dropped_full = f.dropped_full + 1 }) pushed read c
  full-ConsumerOk waiting o = o
  full-ConsumerOk (holding i) o = o
  full-ConsumerOk done o = o

  more :
      (p : Packet) (before : List Packet)
      → HasRoom f
      → f.entries f.head ≡ p
      → pushed ≡ before ++ contents f
      → pushed ++ p ∷ [] ≡ before ++ contents (record f { head = next_index f.capacity f.head })
  more p before room at e =
      ap (λ xs. xs ++ p ∷ []) e
      ∙ append_assoc before (contents f) (p ∷ [])
      ∙ ap (λ x. before ++ (contents f ++ x ∷ [])) (sym at)
      ∙ ap (λ xs. before ++ xs) (sym (contents-publish v room))

  publish-ConsumerOk :
      (p : Packet) (c : Consumer)
      → HasRoom f
      → f.entries f.head ≡ p
      → ConsumerOk f pushed read c
      → ConsumerOk (record f { head = next_index f.capacity f.head }) (pushed ++ p ∷ []) read c
  publish-ConsumerOk p waiting room at e = more p read room at e
  publish-ConsumerOk p (holding i) room at (k, ne, e) = (k, room, more p read room at e)
  publish-ConsumerOk p done room at (before, ne, r, e) = (before, room, r, more p before room at e)

  commit-ProducerOk :
      (p : Producer)
      → f.head ≢ f.tail
      → ProducerOk f p
      → ProducerOk (record f { tail = next_index f.capacity f.tail }) p
  commit-ProducerOk idle ne o = tt
  commit-ProducerOk (writing m) ne o = (commit-room v ne, o.1)
  commit-ProducerOk (written m p) ne o = (commit-room v ne, o.1, o.2)

  commit-waiting :
      ConsumerOk f pushed read done
      → pushed ≡ read ++ contents (record f { tail = next_index f.capacity f.tail })
  commit-waiting (before, ne, r, e) =
      e
      ∙ ap (λ xs. before ++ xs) (contents-commit v ne)
      ∙ sym (append_assoc before (f.entries f.tail ∷ []) _)
      ∙ ap (λ xs. xs ++ contents (record f { tail = next_index f.capacity f.tail })) (sym r)

peek-some : (f : Fifo) (i : ℕ) → peek f ≡ some i → (i ≡ f.tail) × (f.head ≢ f.tail)
unfolding peek
peek-some f i e = ground (arith, e)

Step-Invariant : {s u : System} → Step s u → Invariant s → Invariant u
unfolding commit_pop
Step-Invariant (full s e n) o =
    let counted = record s.fifo { dropped_full = s.fifo.dropped_full + 1 } in
    record {
      valid = record { head_in = o.valid.head_in; tail_in = o.valid.tail_in };
      producing = subst (ProducerOk counted) (sym e) tt;
      consuming = full-ConsumerOk s.fifo o.valid s.pushed s.read s.consumer o.consuming;
      carried = o.carried;
    }
Step-Invariant (start s m e g n l) o = record {
  valid = o.valid;
  producing = (n, l);
  consuming = o.consuming;
  carried = o.carried;
}
Step-Invariant (tear s m junk e) o =
    let room : ProducerOk s.fifo (writing m) = subst (ProducerOk s.fifo) e o.producing in
    record {
      valid = record { head_in = o.valid.head_in; tail_in = o.valid.tail_in };
      producing = subst (ProducerOk (write_head s.fifo junk)) (sym e) room;
      consuming = write-ConsumerOk s.fifo o.valid s.pushed s.read junk s.consumer o.consuming;
      carried = o.carried;
    }
Step-Invariant (fill s m e) o =
    let room : ProducerOk s.fifo (writing m) = subst (ProducerOk s.fifo) e o.producing in
    record {
      valid = record { head_in = o.valid.head_in; tail_in = o.valid.tail_in };
      producing = (
        room.0,
        update_self s.fifo.entries s.fifo.head (filled s.fifo m),
        filled-Carries s.fifo m room.1,
      );
      consuming =
          write-ConsumerOk s.fifo o.valid s.pushed s.read (filled s.fifo m) s.consumer o.consuming;
      carried = o.carried;
    }
Step-Invariant (publish s m p e) o =
    let at : ProducerOk s.fifo (written m p) = subst (ProducerOk s.fifo) e o.producing in
    record {
      valid = publish-IsValid o.valid;
      producing = tt;
      consuming =
          publish-ConsumerOk s.fifo o.valid s.pushed s.read p s.consumer at.0 at.1 o.consuming;
      carried = Carried-snoc s.sends s.pushed m p o.carried at.2;
    }
Step-Invariant (look s i e g) o =
    let (at, ne) = peek-some s.fifo i g in
    record {
      valid = o.valid;
      producing = o.producing;
      consuming = (at, ne, subst (ConsumerOk s.fifo s.pushed s.read) e o.consuming);
      carried = o.carried;
    }
Step-Invariant (read_entry s i e) o =
    let (at, ne, q) = subst (ConsumerOk s.fifo s.pushed s.read) e o.consuming in
    record {
      valid = o.valid;
      producing = o.producing;
      consuming = (s.read, ne, ap (λ k. s.read ++ s.fifo.entries k ∷ []) at, q);
      carried = o.carried;
    }
Step-Invariant (commit s e) o =
    let now : ConsumerOk s.fifo s.pushed s.read done =
      subst (ConsumerOk s.fifo s.pushed s.read) e o.consuming in
    record {
      valid = commit-IsValid o.valid;
      producing = commit-ProducerOk s.fifo o.valid s.pushed s.read s.producer now.1 o.producing;
      consuming = commit-waiting s.fifo o.valid s.pushed s.read now;
      carried = o.carried;
    }

fresh-Invariant : (f : Fifo) → 0 < f.capacity → Invariant (fresh f)
unfolding reset
fresh-Invariant f h = record {
  valid = record { head_in = h; tail_in = h };
  producing = tt;
  consuming = refl;
  carried = tt;
}

Reach-Invariant : (f : Fifo) {s : System} → 0 < f.capacity → Reach (fresh f) s → Invariant s
Reach-Invariant f h here = fresh-Invariant f h
Reach-Invariant f h (step t u r q) = Step-Invariant q (Reach-Invariant f h r)

-- What was pushed and not yet read.
abbrev pub Outstanding : System → List Packet → Type 0
Outstanding s rest = (s.pushed ≡ s.read ++ rest) × (length rest < s.fifo.capacity)

length-contents : (f : Fifo) → IsValid f → length (contents f) < f.capacity
length-contents f v = omega (arith, length-segment (view f) 0 (count f), count-lt v)

outstanding :
    (s : System) (c : Consumer)
    → IsValid s.fifo
    → ConsumerOk s.fifo s.pushed s.read c
    → (rest : List Packet) × Outstanding s rest
outstanding s waiting v e = (contents s.fifo, (e, length-contents s.fifo v))
outstanding s (holding i) v (at, ne, e) = (contents s.fifo, (e, length-contents s.fifo v))
outstanding s done v o = (
  contents (record s.fifo { tail = next_index s.fifo.capacity s.fifo.tail }),
  (commit-waiting s.fifo v s.pushed s.read o, length-contents _ (commit-IsValid v)),
)

-- In every interleaving of the receive thread with the processor from a reset ring on, torn writes
-- to the slot included, if each push is given as many bytes as it says: the packets pushed have the
-- time, the size, the flags and the bytes that the pushes were given, one for each push that ended
-- and in their order, the processor has read exactly the first of them, in order and unharmed, and
-- fewer than `capacity` are pushed and not read.
pub fifo_delivers :
    (f : Fifo) (s : System)
    → 0 < f.capacity
    → Reach (fresh f) s
    → Carried s.sends s.pushed × ((rest : List Packet) × Outstanding s rest)
fifo_delivers f s h r =
    let o = Reach-Invariant f h r in (o.carried, outstanding s s.consumer o.valid o.consuming)
