-- ===== src/Network/Protocol/Tests.antt =====
-- Concrete packets, generations and destinations, and the theorems at them.
use c64stream.Base.{
  ℕ, ◌<◌, ◌≡◌, ◌⊎◌, ◌↔◌, true, false, none, some, List, [], ◌∷◌, ◌++◌, refl, arith,
}
use c64stream.Base.Lists.{All, length, replicate}
use c64stream.Network.Protocol.{
  PaletteState, parse_palette_packet, decimal, build_stream_dest, stream_dest_is_ipv4,
}
use c64stream.Network.Protocol.Palette.{
  encode, colors_of, IsEncoded, payload, parse_palette_packet_iff,
}
use c64stream.Network.Protocol.Generation.{accept_all, newest, holding, accept_all-newest}
use c64stream.Network.Protocol.Destination.{IsDigit, IsDotted, value_from, stream_dest_is_ipv4_iff}
use c64stream.Network.Protocol.Endpoint.{text_of, build_stream_dest_cases}

-- The sixteen colors, each with its index as red.
abbrev grays : List (ℕ × ℕ × ℕ)
grays =
    (0, 1, 2)
    ∷ (1, 1, 2)
    ∷ (2, 1, 2)
    ∷ (3, 1, 2)
    ∷ (4, 1, 2)
    ∷ (5, 1, 2)
    ∷ (6, 1, 2)
    ∷ (7, 1, 2)
    ∷ (8, 1, 2)
    ∷ (9, 1, 2)
    ∷ (10, 1, 2)
    ∷ (11, 1, 2)
    ∷ (12, 1, 2)
    ∷ (13, 1, 2)
    ∷ (14, 1, 2)
    ∷ (15, 1, 2)
    ∷ []

short_packet : parse_palette_packet (replicate 59 239) ≡ none
unfolding parse_palette_packet
short_packet = refl

abbrev restarted : PaletteState
restarted = record { colors = []; generation = 7; colors_valid = true; ordering_valid = false }

abbrev reordered : List (ℕ × List ℕ)
reordered = (65537, 3 ∷ []) ∷ (65536, 2 ∷ []) ∷ (65537, 4 ∷ []) ∷ []

accept_all-newest_example :
    accept_all restarted ((65535, 1 ∷ []) ∷ reordered) ≡ holding (newest (65535, 1 ∷ []) reordered)
accept_all-newest_example = accept_all-newest restarted 65535 (1 ∷ []) reordered refl (omega arith)

dotted : List ℕ
dotted = b'1' ∷ b'0' ∷ b'.' ∷ b'0' ∷ b'.' ∷ b'0' ∷ b'.' ∷ b'7' ∷ []

dest_runs :
    build_stream_dest [] 80 dotted 21000
    ≡ (true, dotted ++ b':' ∷ b'2' ∷ b'1' ∷ b'0' ∷ b'0' ∷ b'0' ∷ [])
unfolding build_stream_dest stream_dest_is_ipv4 decimal dotted
dest_runs = refl

dest_too_small : (build_stream_dest [] 14 dotted 21000).0 ≡ false
unfolding build_stream_dest stream_dest_is_ipv4 decimal dotted
dest_too_small = refl

parse_palette_packet_iff_example :
    (parse_palette_packet (encode 0x1234 0 0 grays) ≡ some (0x1234, colors_of grays))
    ↔ IsEncoded (encode 0x1234 0 0 grays) 0x1234 (colors_of grays)
parse_palette_packet_iff_example =
    parse_palette_packet_iff (encode 0x1234 0 0 grays) 0x1234 (colors_of grays)
      (unfold encode payload in omega arith)

stream_dest_is_ipv4_iff_example : (stream_dest_is_ipv4 dotted ≡ true) ↔ IsDotted dotted
stream_dest_is_ipv4_iff_example = stream_dest_is_ipv4_iff dotted

build_stream_dest_cases_example :
    IsDotted dotted
      × (length (text_of dotted 21000) < 80)
      × (build_stream_dest [] 80 dotted 21000 ≡ (true, dotted ++ b':' ∷ decimal 5 21000))
      × (value_from 0 (decimal 5 21000) ≡ 21000)
      × All IsDigit (decimal 5 21000)
    ⊎ ¬ (IsDotted dotted × (length (text_of dotted 21000) < 80))
      × ((build_stream_dest [] 80 dotted 21000).0 ≡ false)
build_stream_dest_cases_example = build_stream_dest_cases [] 80 dotted 21000 (omega arith)
