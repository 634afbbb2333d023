-- ===== src/Device/StopQueue/Entries.antt =====
-- One entry per device, four at most: what adding, cancelling and counting failures do.
use c64stream.Base.{
  ℕ, zero, suc, ◌≤◌, ◌<◌, ◌≡◌, ◌∙◌, sym, ap, ap₂, subst, true, false, ◌&&◌, List, [], ◌∷◌, ◌++◌,
  refl, arith,
}
use c64stream.Base.Bools.{◌==◌}
use c64stream.Base.Lists.{All-append, All-left, All-right, length, length-append, take}
use c64stream.Device.StopQueue.{Entry, same_text, matches, queue_max}
use c64stream.Device.StopQueue.Keys.{Absent, matches-eq, matches_symmetric}

abbrev pub Distinct : List Entry → Type 0
Distinct [] = Unit
Distinct (e ∷ es) = Absent e.host e.control_port es × Distinct es

-- No device is queued twice, and the queue is within its array.
abbrev pub IsQueue : List Entry → Type 0
IsQueue es = Distinct es × (length es ≤ queue_max)

Absent-replace :
    (host : List ℕ) (port : ℕ) (early late : List Entry) (e new : Entry)
    → matches host port new ≡ matches host port e
    → Absent host port (early ++ e ∷ late)
    → Absent host port (early ++ new ∷ late)
Absent-replace host port [] late e new k a = (k ∙ a.0, a.1)
Absent-replace host port (x ∷ early) late e new k a =
    (a.0, Absent-replace host port early late e new k a.1)

Distinct-replace :
    (early late : List Entry) (e new : Entry)
    → new.host ≡ e.host
    → new.control_port ≡ e.control_port
    → Distinct (early ++ e ∷ late)
    → Distinct (early ++ new ∷ late)
Distinct-replace [] late e new h p d = (
  subst (λ x. Absent x new.control_port late) (sym h)
      (subst (λ x. Absent e.host x late) (sym p) d.0),
  d.1,
)
Distinct-replace (x ∷ early) late e new h p d = (
  Absent-replace x.host x.control_port early late e new
      (ap₂ (λ a b. same_text a x.host && b == x.control_port) h p) d.0,
  Distinct-replace early late e new h p d.1,
)

Distinct-snoc :
    (es : List Entry) (new : Entry)
    → Distinct es
    → Absent new.host new.control_port es
    → Distinct (es ++ new ∷ [])
Distinct-snoc [] new d a = (tt, tt)
Distinct-snoc (x ∷ es) new d a = (
  All-append (λ e. matches x.host x.control_port e ≡ false) es (new ∷ []) d.0
      (matches_symmetric new x a.0, tt),
  Distinct-snoc es new d.1 a.1,
)

pub Distinct-drop :
    (early late : List Entry) (e : Entry) → Distinct (early ++ e ∷ late) → Distinct (early ++ late)
Distinct-drop [] late e d = d.1
Distinct-drop (x ∷ early) late e d =
    let P = λ (y : Entry). matches x.host x.control_port y ≡ false in
    (
      All-append P early late (All-left P early (e ∷ late) d.0)
          (All-right P early (e ∷ late) d.0).1,
      Distinct-drop early late e d.1,
    )

-- What becomes of the queue when `new` is added.
pub data Added (queue : List Entry) (new : Entry) (dropped : List ℕ) (after : List Entry)
    : Type 0 where
  refreshed :
      (early late : List Entry) (e : Entry)
      → queue ≡ early ++ e ∷ late
      → matches new.host new.control_port e ≡ true
      → dropped ≡ []
      → after ≡ early ++ new ∷ late
      → Added queue new dropped after
  queued :
      Absent new.host new.control_port queue
      → length queue < queue_max
      → dropped ≡ []
      → after ≡ queue ++ new ∷ []
      → Added queue new dropped after
  displaced :
      (e : Entry) (rest : List Entry)
      → queue ≡ e ∷ rest
      → length queue ≡ queue_max
      → Absent new.host new.control_port queue
      → dropped ≡ e.host
      → after ≡ rest ++ new ∷ []
      → Added queue new dropped after

pub take-short : (n : ℕ) (xs : List ℕ) → length xs ≤ n → take n xs ≡ xs
take-short zero [] h = refl
take-short zero (x ∷ xs) h = absurd (omega arith)
take-short (suc n) [] h = refl
take-short (suc n) (x ∷ xs) h = ap (λ r. x ∷ r) (take-short n xs (omega arith))

pub Added-IsQueue :
    {queue after : List Entry} {new : Entry} {dropped : List ℕ}
    → IsQueue queue
    → Added queue new dropped after
    → IsQueue after
Added-IsQueue {queue} {after} {new} (d, l) (refreshed early late e q m _ a) =
    let (h, p) = matches-eq new.host new.control_port e m in
    subst IsQueue (sym a) (
      Distinct-replace early late e new (sym h) (sym p) (subst Distinct q d),
      omega (arith, length-append early (e ∷ late), length-append early (new ∷ late), ap length q),
    )
Added-IsQueue {queue} {after} {new} (d, l) (queued n s _ a) =
    subst IsQueue (sym a)
      (Distinct-snoc queue new d n, omega (arith, length-append queue (new ∷ [])))
Added-IsQueue {queue} {after} {new} (d, l) (displaced e rest q _ n _ a) = subst IsQueue (sym a) (
  Distinct-snoc rest new (subst Distinct q d).1 (subst (Absent new.host new.control_port) q n).1,
  omega (arith, length-append rest (new ∷ []), ap length q),
)
