-- ===== src/Network/Fifo/Threads.antt =====
-- The receive thread and the processor on one ring, in every interleaving of their reads and writes.
use c64stream.Base.{refl, ℕ, ◌≤◌, ◌+◌, ◌≡◌, ◌≢◌, Bool, false, some, List, [], ◌∷◌, ◌++◌}
use c64stream.Base.Lists.{length, take, drop, take-take_append}
use c64stream.Base.Ring.{update}
use c64stream.Network.Fifo.{
  Packet, Fifo, next_index, fill_slot, is_refused, peek, commit_pop, reset,
}

-- The arguments of a push.
pub record Send : Type 0 where
  pub bytes : List ℕ
  pub size : ℕ
  pub timestamp_ns : ℕ
  pub from_handover : Bool
  pub palette_cutover : Bool

-- The packet has the arguments of the push: the time, the size, both flags and the bytes.
abbrev pub Carries : Send → Packet → Type 0
Carries m p =
    (p.timestamp_ns ≡ m.timestamp_ns)
    × (p.size ≡ m.size)
    × (p.from_handover ≡ m.from_handover)
    × (p.palette_cutover ≡ m.palette_cutover)
    × (take m.size p.bytes ≡ take m.size m.bytes)

-- How far the receive thread is in a push: before it reads the positions, before or amid the
-- writes to the slot, before it sets `head`.
pub data Producer : Type 0 where
  idle : Producer
  writing : Send → Producer
  written : Send → Packet → Producer

-- How far the processor is with a packet: before the peek, with the index that it gave, with the
-- packet read and not yet committed.
pub data Consumer : Type 0 where
  waiting : Consumer
  holding : ℕ → Consumer
  done : Consumer

-- The ring, the threads, and what was sent, pushed and read so far.
pub record System : Type 0 where
  pub fifo : Fifo
  pub producer : Producer
  pub consumer : Consumer
  pub sends : List Send
  pub pushed : List Packet
  pub read : List Packet

abbrev pub write_head : Fifo → Packet → Fifo
write_head fifo p = record fifo { entries = update fifo.entries fifo.head p }

-- The slot at the head, filled by a push.
abbrev pub filled : Fifo → Send → Packet
filled fifo m =
    fill_slot (fifo.entries fifo.head) m.bytes m.size m.timestamp_ns m.from_handover
      m.palette_cutover

pub filled-Carries : (fifo : Fifo) (m : Send) → m.size ≤ length m.bytes → Carries m (filled fifo m)
unfolding fill_slot
filled-Carries fifo m l =
    (refl, refl, refl, refl, take-take_append m.size m.bytes (drop m.size _) l)

-- Only the receive thread sets `head` and only the processor sets `tail`, so that each knows its
-- own; the other's may have moved on since it was read. While the slot is being written it may
-- hold anything.
pub data Step : System → System → Type 0 where
  full :
      (s : System)
      → s.producer ≡ idle
      → next_index s.fifo.capacity s.fifo.head ≡ s.fifo.tail
      → Step s (record s { fifo = record s.fifo { dropped_full = s.fifo.dropped_full + 1 } })
  start :
      (s : System) (m : Send)
      → s.producer ≡ idle
      → is_refused s.fifo m.size ≡ false
      → next_index s.fifo.capacity s.fifo.head ≢ s.fifo.tail
      → m.size ≤ length m.bytes
      → Step s (record s { producer = writing m })
  tear :
      (s : System) (m : Send) (junk : Packet)
      → s.producer ≡ writing m
      → Step s (record s { fifo = write_head s.fifo junk })
  fill :
      (s : System) (m : Send)
      → s.producer ≡ writing m
      → Step s (record s {
        fifo = write_head s.fifo (filled s.fifo m);
        producer = written m (filled s.fifo m);
      })
  publish :
      (s : System) (m : Send) (p : Packet)
      → s.producer ≡ written m p
      → Step s (record s {
        fifo = record s.fifo { head = next_index s.fifo.capacity s.fifo.head };
        producer = idle;
        sends = s.sends ++ m ∷ [];
        pushed = s.pushed ++ p ∷ [];
      })
  look :
      (s : System) (i : ℕ)
      → s.consumer ≡ waiting
      → peek s.fifo ≡ some i
      → Step s (record s { consumer = holding i })
  read_entry :
      (s : System) (i : ℕ)
      → s.consumer ≡ holding i
      → Step s (record s { consumer = done; read = s.read ++ s.fifo.entries i ∷ [] })
  commit :
      (s : System)
      → s.consumer ≡ done
      → Step s (record s { fifo = commit_pop s.fifo; consumer = waiting })

pub data Reach (s : System) : System → Type 0 where
  here : Reach s s
  step : (t u : System) → Reach s t → Step t u → Reach s u

-- A ring after its reset.
abbrev pub fresh : Fifo → System
fresh fifo = record {
  fifo = reset fifo;
  producer = idle;
  consumer = waiting;
  sends = [];
  pushed = [];
  read = [];
}
