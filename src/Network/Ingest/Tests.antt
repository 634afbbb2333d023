-- ===== src/Network/Ingest/Tests.antt =====
-- A device switch from address 7 to address 9.
use c64stream.Base.{ℕ, ◌≡◌, ◌≢◌, List, refl, inl, inr, true, false, [], ◌∷◌, arith}
use c64stream.Network.Ingest.{Source, packet_admit}
use c64stream.Network.Ingest.Switch.{IsExpected, SwitchesOver, admit_all, admit_all-SwitchesOver}

abbrev switching : Source
switching = record {
  expected_peer_ip_set = true;
  expected_peer_ip = 9;
  expected_peer_alt_ip_set = false;
  expected_peer_alt_ip = 0;
  learned_peer_ip_set = false;
  learned_peer_ip = 0;
  handover_peer_ip_set = true;
  handover_peer_ip = 7;
  handover_flush_pending = false;
  rejected_peer_ip = 0;
}

is_foreign : (from : ℕ) → from ≢ 9 → IsExpected switching from → from ≡ 7
is_foreign from ne h = ground (arith, ne, h)

-- Two packets of the old device, one of a stranger, one of the new device, and the old one again.
abbrev senders : List ℕ
senders = 7 ∷ 7 ∷ 8 ∷ 9 ∷ 7 ∷ 9 ∷ []

answers_test : (admit_all switching senders).0 ≡ true ∷ true ∷ false ∷ true ∷ false ∷ true ∷ []
unfolding admit_all packet_admit
answers_test = refl

admit_all-SwitchesOver_example :
    SwitchesOver 7
      (IsExpected switching)
      (7 ∷ 7 ∷ 8 ∷ [])
      (7 ∷ 9 ∷ [])
      (admit_all switching senders)
admit_all-SwitchesOver_example =
    admit_all-SwitchesOver switching (7 ∷ 7 ∷ 8 ∷ []) 9 (7 ∷ 9 ∷ []) refl refl
      (λ _. refl, (λ _. refl, (is_foreign 8 (omega arith), tt))) (inr (inl refl)) (omega arith)
