-- ===== src/Tests/Text.antt =====
-- The theorems on packets as texts, on concrete ones.
use netwingfs.Prelude.{◌≡◌, refl, some, [], ◌∷◌, ◌++◌, arith}
use netwingfs.Prelude.Bytes.{codes, has_prefix}
use netwingfs.Fsd.Command.{message, text}
use netwingfs.Packet.Lines.{parser_command_line, make_packet, split_sign}
use netwingfs.Packet.Lines.MakePacket.{join, make_packet-eq}
use netwingfs.Packet.Lines.RoundTrip.{parser_command_line-join}
use netwingfs.Packet.Framing.{scan, index_of}
use netwingfs.Packet.Framing.Chunks.{scan-stream}

make_packet-eq_example :
    make_packet message (codes "A" ∷ codes "B" ∷ [])
    ≡ some (text message ++ (join (codes "A" ∷ codes "B" ∷ []) ++ split_sign))
make_packet-eq_example = make_packet-eq message (codes "A" ∷ codes "B" ∷ [])

parser_command_line-join_example :
    parser_command_line (text message ++ join (codes "A" ∷ codes "B" ∷ []))
    ≡ (message, codes "A" ∷ codes "B" ∷ [])
parser_command_line-join_example =
    parser_command_line-join message (codes "A") (codes "B" ∷ []) refl
      ((ground arith, tt), ((ground arith, tt), tt))

scan-stream_example :
    scan 6 [] ((codes "AB" ++ 13 ∷ []) ∷ (10 ∷ codes "C") ∷ split_sign ∷ [])
    ≡ codes "AB" ∷ codes "C" ∷ []
unfolding index_of has_prefix
scan-stream_example =
    scan-stream 6 [] ((codes "AB" ++ 13 ∷ []) ∷ (10 ∷ codes "C") ∷ split_sign ∷ [])
      (codes "AB" ∷ codes "C" ∷ []) (refl, (refl, tt)) (ground arith) refl
