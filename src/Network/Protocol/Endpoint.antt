-- ===== src/Network/Protocol/Endpoint.antt =====
-- The destination string "IP:PORT": when it is built, and what it says.
use c64stream.Base.{
  ℕ, zero, suc, ◌+◌, ◌-◌, ◌*◌, ◌/◌, ◌%◌, ◌^◌, ◌≤◌, ◌<◌, ◌≡◌, ◌∙◌, sym, ap, ◌⊎◌, inl, inr, true,
  false, false≢true, List, [], ◌∷◌, ◌++◌, refl, arith,
}
use native.Mathlib.Nat.{pow-suc}
use native.Mathlib.Decide.{dec_lt}
use c64stream.Base.Bools.{ltb, Bool-cases}
use c64stream.Base.Lists.{All, All-append, length, take, length-append}
use c64stream.Network.Protocol.{
  decimal, build_stream_dest, stream_dest_is_ipv4, default_ports_for_pair,
}
use c64stream.Network.Protocol.Destination.{IsDigit, IsDotted, value_from, stream_dest_is_ipv4_iff}

value_from-append :
    (v : ℕ) (ds : List ℕ) (d : ℕ) → value_from v (ds ++ d ∷ []) ≡ value_from v ds * 10 + (d - b'0')
unfolding value_from
value_from-append v [] d = refl
value_from-append v (e ∷ ds) d = value_from-append (v * 10 + (e - b'0')) ds d

-- The digits printed stand for the number.
decimal-value :
    (fuel n : ℕ)
    → n < 10 ^ fuel
    → 0 < fuel
    → (value_from 0 (decimal fuel n) ≡ n) × All IsDigit (decimal fuel n)
unfolding decimal value_from
decimal-value zero n h k = absurd (omega arith)
decimal-value (suc zero) n h k = ground arith
decimal-value (suc (suc f)) n h k =
    let below : n < 10 ^ suc f * 10 = rw (← pow-suc 10 (suc f)) h in
    let (v, d) = decimal-value (suc f) (n / 10) (omega arith) (omega arith) in
    elim (Bool-cases (ltb n 10)) [
      | inl small ↦ rw small (ground arith)
      | inr large ↦ rw large (
        value_from-append 0 (decimal (suc f) (n / 10)) (b'0' + n % 10) ∙ omega (arith, v),
        All-append IsDigit (decimal (suc f) (n / 10)) ((b'0' + n % 10) ∷ []) d (omega arith, tt),
      )
    ]

take-length : (n : ℕ) (xs : List ℕ) → length xs ≤ n → take n xs ≡ xs
take-length zero [] h = refl
take-length zero (x ∷ xs) h = absurd (omega arith)
take-length (suc n) [] h = refl
take-length (suc n) (x ∷ xs) h = ap (λ t. x ∷ t) (take-length n xs (omega arith))

abbrev pub text_of : List ℕ → ℕ → List ℕ
text_of ip port = ip ++ b':' ∷ decimal 5 port

module _ (out : List ℕ) (out_size : ℕ) (ip : List ℕ) (port : ℕ) where
  built :
      stream_dest_is_ipv4 ip ≡ true
      → length (text_of ip port) < out_size
      → build_stream_dest out out_size ip port ≡ (true, text_of ip port)
  unfolding build_stream_dest
  built good fits = ground (
    arith,
    take-length (out_size - 1) (text_of ip port) (omega arith),
    length-append ip (b':' ∷ decimal 5 port),
  )

  too_long :
      ¬ (length (text_of ip port) < out_size) → (build_stream_dest out out_size ip port).0 ≡ false
  unfolding build_stream_dest
  too_long long = ground arith

  refused : stream_dest_is_ipv4 ip ≡ false → (build_stream_dest out out_size ip port).0 ≡ false
  unfolding build_stream_dest
  refused bad = ground arith

-- For a port of 16 bits the destination is built exactly when the address is dotted and the text
-- fits with its terminating zero; then the buffer holds the address, a colon and digits whose value
-- is the port, and otherwise the call fails.
pub build_stream_dest_cases :
    (out : List ℕ) (out_size : ℕ) (ip : List ℕ) (port : ℕ)
    → port < 2 ^ 16
    → IsDotted ip
        × (length (text_of ip port) < out_size)
        × (build_stream_dest out out_size ip port ≡ (true, ip ++ b':' ∷ decimal 5 port))
        × (value_from 0 (decimal 5 port) ≡ port)
        × All IsDigit (decimal 5 port)
      ⊎ ¬ (IsDotted ip × (length (text_of ip port) < out_size))
        × ((build_stream_dest out out_size ip port).0 ≡ false)
build_stream_dest_cases out out_size ip port h = elim (Bool-cases (stream_dest_is_ipv4 ip)) [
  | inl good ↦ elim (dec_lt (length (text_of ip port)) out_size) [
    | yes fits ↦
        let (v, d) = decimal-value 5 port (omega arith) (omega arith) in
        inl ((stream_dest_is_ipv4_iff ip).0 good, fits, built out out_size ip port good fits, v, d)
    | no long ↦ inr ((λ h. long h.1), too_long out out_size ip port long)
  ]
  | inr bad ↦ inr (
    (λ h. false≢true (sym bad ∙ (stream_dest_is_ipv4_iff ip).1 h.0)),
    refused out out_size ip port bad,
  )
]

-- Two instances never share a default port, as long as the ports do not wrap in 32 bits: each has
-- two ports, one after the other, below both of every later instance.
pub default_ports-ordered :
    (i j : ℕ)
    → i < j
    → 21001 + 2 * j < 2 ^ 32
    → let (v, a) = default_ports_for_pair i in
      let (w, b) = default_ports_for_pair j in (a ≡ v + 1) × (b ≡ w + 1) × (a < w)
unfolding default_ports_for_pair
default_ports-ordered i j h k = omega arith
