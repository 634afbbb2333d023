-- ===== src/Device/StopQueue/Tests.antt =====
-- Runs of the queue with hosts of one byte.
use c64stream.Base.{ℕ, ◌≡◌, true, List, [], ◌∷◌, refl, arith}
use c64stream.Device.StopQueue.{Entry, add, cancel, find, remove_at, write_at, same_text, new_entry}
use c64stream.Device.StopQueue.Entries.{IsQueue}
use c64stream.Device.StopQueue.Calls.{AddResult, IsCancelled, add-AddResult, cancel-IsCancelled}

abbrev device : ℕ → Entry
device n = new_entry (n ∷ []) 64 [] 0

abbrev four : List Entry
four = device 97 ∷ device 98 ∷ device 99 ∷ device 100 ∷ []

four-IsQueue : IsQueue four
unfolding same_text
four-IsQueue =
    (((refl, (refl, (refl, tt))), ((refl, (refl, tt)), ((refl, tt), (tt, tt)))), omega arith)

overflow :
    add four (101 ∷ []) 64 [] 0
    ≡ (true, 97 ∷ [], device 98 ∷ device 99 ∷ device 100 ∷ device 101 ∷ [])
unfolding add find same_text remove_at write_at
overflow = refl

refresh :
    (add four (98 ∷ []) 64 (7 ∷ []) 0).2
    ≡ device 97 ∷ new_entry (98 ∷ []) 64 (7 ∷ []) 0 ∷ device 99 ∷ device 100 ∷ []
unfolding add find same_text write_at
refresh = refl

add-AddResult_example : AddResult four (101 ∷ []) 64 [] 0 (add four (101 ∷ []) 64 [] 0)
add-AddResult_example = add-AddResult four (101 ∷ []) 64 [] 0 four-IsQueue (omega arith)

cancel-IsCancelled_example : IsCancelled four (98 ∷ []) 64 (cancel four (98 ∷ []) 64)
cancel-IsCancelled_example = cancel-IsCancelled four (98 ∷ []) 64 four-IsQueue
