-- ===== src/Device/StopQueue.antt =====
-- src/device/c64-device-switch.h and .c: the queue of devices that must still be told to stop.
-- The entries in use are a list, oldest first, whose length is `count`; the others are zero and
-- never read. A string is the list of its bytes before the terminating zero. The queue is not null.
pub mod Keys
pub mod Entries
pub mod Calls
mod Tests
use c64stream.Base.{ℕ, zero, suc, ◌+◌, ◌-◌, ◌%◌, ◌^◌, Bool, true, false, ◌&&◌, List, [], ◌∷◌}
use c64stream.Base.Bools.{◌==◌, leb, ltb, if◌then◌else◌}
unfoldable pub use c64stream.Base.Bytes.{same_text}
use c64stream.Base.Lists.{length, take}

-- C64_STOP_QUEUE_MAX, _HOST_MAX and _PASSWORD_MAX.
abbrev pub queue_max : ℕ
queue_max = 4

abbrev pub host_max : ℕ
host_max = 64

abbrev pub password_max : ℕ
password_max = 256

pub record Entry : Type 0 where
  pub host : List ℕ
  pub control_port : ℕ
  pub password : List ℕ
  pub rest_demoted_until_ns : ℕ
  pub attempts : ℕ

abbrev pub matches : List ℕ → ℕ → Entry → Bool
matches host control_port e = same_text e.host host && e.control_port == control_port

-- The loops over the entries: the index of the first match, or else `count`.
unfoldable pub find : List ℕ → ℕ → List Entry → ℕ
find host control_port [] = 0
find host control_port (e ∷ es) =
    let rest = find host control_port es in if matches host control_port e then 0 else suc rest

-- An index out of range changes nothing.
unfoldable pub remove_at : List Entry → ℕ → List Entry
remove_at [] index = []
remove_at (e ∷ es) zero = es
remove_at (e ∷ es) (suc index) = e ∷ remove_at es index

-- Writing to `entries[slot]`; at `slot == count` the queue grows.
unfoldable pub write_at : List Entry → ℕ → Entry → List Entry
write_at [] slot new = new ∷ []
write_at (e ∷ es) zero new = new ∷ es
write_at (e ∷ es) (suc slot) new = e ∷ write_at es slot new

-- "0.0.0.0".
abbrev pub receive_only : List ℕ
receive_only = 48 ∷ 46 ∷ 48 ∷ 46 ∷ 48 ∷ 46 ∷ 48 ∷ []

abbrev pub has_nothing_to_stop : List ℕ → Bool
has_nothing_to_stop [] = true
has_nothing_to_stop (x ∷ xs) = same_text (x ∷ xs) receive_only

-- `snprintf` cuts a text that is too long for its buffer.
abbrev pub new_entry : List ℕ → ℕ → List ℕ → ℕ → Entry
new_entry host control_port password demoted_until = record {
  host = take (host_max - 1) host;
  control_port = control_port;
  password = take (password_max - 1) password;
  rest_demoted_until_ns = demoted_until;
  attempts = 0;
}

-- The host of the entry that an overflow drops.
abbrev pub oldest_host : List Entry → List ℕ
oldest_host [] = []
oldest_host (e ∷ es) = e.host

-- Whether the host was queued, `dropped_host` (a buffer of `host_max` bytes), and the queue.
unfoldable pub add : List Entry → List ℕ → ℕ → List ℕ → ℕ → Bool × List ℕ × List Entry
add queue host control_port password demoted_until =
    let new = new_entry host control_port password demoted_until in
    let slot = find host control_port queue in
    let shorter = remove_at queue 0 in
    if has_nothing_to_stop host
    then (false, [], queue)
    else if slot == queue_max
    then (true, oldest_host queue, write_at shorter (length shorter) new)
    else (true, [], write_at queue slot new)

unfoldable pub cancel : List Entry → List ℕ → ℕ → Bool × List Entry
cancel queue host control_port =
    let index = find host control_port queue in
    if ltb index (length queue) then (true, remove_at queue index) else (false, queue)

-- One more failed attempt for the entry, in the 32 bits of the counter.
unfoldable pub record_failure : List Entry → ℕ → ℕ → Bool × List Entry
record_failure [] index max_attempts = (false, [])
record_failure (e ∷ es) zero max_attempts =
    let attempts = (e.attempts + 1) % 2 ^ 32 in
    (leb max_attempts attempts, record e { attempts = attempts } ∷ es)
record_failure (e ∷ es) (suc index) max_attempts =
    let rest = record_failure es index max_attempts in (rest.0, e ∷ rest.1)
