-- ===== src/Network/Fifo/Tests.antt =====
-- Runs of the ring between the threads, with two slots and so room for one packet.
use c64stream.Base.{◌≡◌, ◌++◌, false, List, [], ◌∷◌, refl, arith}
use c64stream.Network.Fifo.{Packet, Fifo, push_tagged, peek, reset}
use c64stream.Network.Fifo.Queue.{IsValid}
use c64stream.Network.Fifo.Calls.{send, Sent, send-Sent, Reach-send}
use c64stream.Network.Fifo.Threads.{
  Send, System, holding, done, filled, look, read_entry, Reach, here, step, fresh,
}
use c64stream.Network.Fifo.Delivery.{Carried, Outstanding, fifo_delivers}

abbrev blank : Packet
blank = record {
  timestamp_ns = 0;
  size = 0;
  from_handover = false;
  palette_cutover = false;
  bytes = [];
}

abbrev ring : Fifo
ring = record { entries = λ _. blank; capacity = 2; head = 0; tail = 0; dropped_full = 0 }

abbrev ping : Send
ping = record {
  bytes = 7 ∷ 8 ∷ [];
  size = 2;
  timestamp_ns = 5;
  from_handover = false;
  palette_cutover = false;
}

abbrev after_push : System
after_push =
    let s = fresh ring in
    record s {
      fifo = (send s.fifo ping).1;
      sends = s.sends ++ ping ∷ [];
      pushed = s.pushed ++ filled s.fifo ping ∷ [];
    }

ring-IsValid : IsValid ring
ring-IsValid = record { head_in = omega arith; tail_in = omega arith }

second_is_dropped : (send (send ring ping).1 ping).0 ≡ false
unfolding push_tagged
second_is_dropped = refl

send-Sent_example : Sent ring ping (send ring ping)
send-Sent_example = send-Sent ring ping ring-IsValid (omega arith)

Reach-after_push : Reach (fresh ring) after_push
unfolding push_tagged reset
Reach-after_push =
    Reach-send (fresh ring) (fresh ring) ping (send ring ping).1 here refl refl (omega arith)

abbrev held : System
held = record after_push { consumer = holding 0 }

abbrev after_read : System
after_read = record held { consumer = done; read = held.read ++ held.fifo.entries 0 ∷ [] }

Reach-after_read : Reach (fresh ring) after_read
unfolding push_tagged reset peek
Reach-after_read =
    step held after_read (step after_push held Reach-after_push (look after_push 0 refl refl))
      (read_entry held 0 refl)

fifo_delivers_example :
    Carried after_read.sends after_read.pushed
    × ((rest : List Packet) × Outstanding after_read rest)
fifo_delivers_example = fifo_delivers ring after_read (omega arith) Reach-after_read
