-- ===== src/Network/Protocol.antt =====
-- src/network/c64-protocol.h: ports, the palette packet, the stream destination.
-- A packet is the list of its bytes, a C string the list of its bytes before the terminating zero.
pub mod Palette
pub mod Generation
pub mod Destination
pub mod Endpoint
mod Tests
use c64stream.Base.{
  ℕ, zero, suc, ◌+◌, ◌-◌, ◌*◌, ◌/◌, ◌%◌, ◌^◌, Bool, true, false, not, ◌&&◌, ◌||◌, Option, none,
  some, List, [], ◌∷◌, ◌++◌,
}
use c64stream.Base.Bools.{◌==◌, leb, ltb, if◌then◌else◌}
use c64stream.Base.Int.{pos, ltb_ℤ}
use c64stream.Base.Words.{diff16, add32}
use c64stream.Base.Lists.{length, get_or, take}

abbrev pub palette_packet_size : ℕ
palette_packet_size = 60

abbrev pub video_header_size : ℕ
video_header_size = 12

abbrev pub pal_height : ℕ
pal_height = 272

abbrev pub ntsc_height : ℕ
ntsc_height = 240

-- The video and the audio port of instance `pair_index`, which is not negative; `long` has 64 bits.
unfoldable pub default_ports_for_pair : ℕ → ℕ × ℕ
default_ports_for_pair pair_index =
    let video = add32 21000 ((pair_index * 2) % 2 ^ 32) in (video, add32 video 1)

unfoldable pub palette_generation_is_newer : ℕ → ℕ → Bool
palette_generation_is_newer candidate current = ltb_ℤ (pos 0) (diff16 candidate current)

pub record PaletteState : Type 0 where
  pub colors : List ℕ
  pub generation : ℕ
  pub colors_valid : Bool
  pub ordering_valid : Bool

-- `palette[i]` from its three bytes. The parts that the source joins by `|` share no bit, so the
-- sum is the same.
unfoldable pub color_of : ℕ → ℕ → ℕ → ℕ
color_of r g b = 0xFF000000 + r + g * 2 ^ 8 + b * 2 ^ 16

-- The loop over the sixteen entries, `n` of them still to read from byte `at` on.
unfoldable pub read_colors : List ℕ → ℕ → ℕ → List ℕ
unfolding color_of
read_colors packet zero at = []
read_colors packet (suc n) at =
    color_of (get_or packet at 0) (get_or packet (at + 1) 0) (get_or packet (at + 2) 0)
    ∷ read_colors packet n (at + 3)

has_palette_header : List ℕ → Bool
has_palette_header packet =
    get_or packet 4 0 == 239
    && get_or packet 5 0 == 0
    && get_or packet 6 0 == 0x80
    && get_or packet 7 0 == 0x01
    && get_or packet 8 0 == 1
    && get_or packet 9 0 == 4
    && get_or packet 10 0 == 1
    && get_or packet 11 0 == 0

-- The generation and the palette of a palette packet.
unfoldable pub parse_palette_packet : List ℕ → Option (ℕ × List ℕ)
unfolding has_palette_header
parse_palette_packet packet =
    if length packet == palette_packet_size && has_palette_header packet
    then some
        (get_or packet 0 0 + get_or packet 1 0 * 2 ^ 8, read_colors packet 16 video_header_size)
    else none

-- Whether the palette is taken, and the state.
unfoldable pub palette_state_accept : PaletteState → ℕ → List ℕ → Bool × PaletteState
unfolding palette_generation_is_newer
palette_state_accept state generation palette =
    if state.ordering_valid && not (palette_generation_is_newer generation state.generation)
    then (false, state)
    else (
      true,
      record {
        colors = palette;
        generation = generation;
        colors_valid = true;
        ordering_valid = true;
      },
    )

unfoldable pub clamp_frame_height : ℕ → ℕ
clamp_frame_height height =
    if ltb height ntsc_height
    then ntsc_height
    else if ltb pal_height height
    then pal_height
    else height

-- The loop of c64_stream_dest_is_ipv4 over the rest of the text; the end of the list is the
-- terminating zero.
unfoldable pub ipv4_scan : List ℕ → ℕ → ℕ → Bool → Bool
ipv4_scan [] octets value have_digit = have_digit && octets + 1 == 4
ipv4_scan (ch ∷ rest) octets value have_digit =
    let next = value * 10 + (ch - b'0') in
    let on_digit = ipv4_scan rest octets next true in
    let on_dot = ipv4_scan rest (octets + 1) 0 false in
    if leb b'0' ch && leb ch b'9'
    then if ltb 255 next then false else on_digit
    else if ch == b'.' && have_digit
    then on_dot
    else false

unfoldable pub stream_dest_is_ipv4 : List ℕ → Bool
unfolding ipv4_scan
stream_dest_is_ipv4 [] = false
stream_dest_is_ipv4 (ch ∷ rest) = ipv4_scan (ch ∷ rest) 0 0 false

-- `%u` at a number below 10 ^ fuel.
unfoldable pub decimal : ℕ → ℕ → List ℕ
decimal zero n = []
decimal (suc fuel) n =
    let more = decimal fuel (n / 10) in
    if ltb n 10 then (b'0' + n) ∷ [] else more ++ (b'0' + n % 10) ∷ []

-- `out` is what the buffer holds before the call; the answer comes with the text that it holds
-- afterwards. `snprintf` cuts the text off at `out_size - 1` bytes and returns its whole length.
unfoldable pub build_stream_dest : List ℕ → ℕ → List ℕ → ℕ → Bool × List ℕ
build_stream_dest out out_size obs_ip port =
    if out_size == 0 || not (stream_dest_is_ipv4 obs_ip)
    then (false, out)
    else let text = obs_ip ++ b':' ∷ decimal 5 port in
      (ltb 0 (length text) && ltb (length text) out_size, take (out_size - 1) text)
