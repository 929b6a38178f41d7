-- ===== src/Packet/Lines/RoundTrip.antt =====
-- What `makePacket` joins `parserCommandLine` splits, and a valid callsign is such a field.
use netwingfs.Prelude.{ℕ, ◌≡◌, ◌≢◌, refl, ap, ◌∙◌, true, false, List, [], ◌∷◌, ◌++◌, arith, All}
use netwingfs.Prelude.Bytes.{Bytes}
use netwingfs.Fsd.Command.{Command, text, is_possible}
use netwingfs.Fsd.Command.{wind_delta, error, temp_data}
use netwingfs.Packet.Lines.{
  split_colon, parser_command_line, callsign_valid, any_byte, contains_byte, forbidden_chars,
}
use netwingfs.Packet.Lines.MakePacket.{join}

-- No colon stands in the field.
abbrev pub IsField : Bytes → Type 0
IsField = All (λ c. c ≢ b':')

split_colon-IsField : (s : Bytes) → IsField s → split_colon s ≡ s ∷ []
unfolding split_colon
split_colon-IsField [] h = refl
split_colon-IsField (x ∷ s) h = ground (arith, split_colon-IsField s h.1)

split_colon-append : (s t : Bytes) → IsField s → split_colon (s ++ b':' ∷ t) ≡ s ∷ split_colon t
unfolding split_colon
split_colon-append [] t h = refl
split_colon-append (x ∷ s) t h = ground (arith, split_colon-append s t h.1)

split_colon-join :
    (part : Bytes) (parts : List Bytes)
    → All IsField (part ∷ parts)
    → split_colon (join (part ∷ parts)) ≡ part ∷ parts
split_colon-join part [] h = split_colon-IsField part h.0
split_colon-join part (next ∷ parts) h =
    split_colon-append part (join (next ∷ parts)) h.0
    ∙ ap (◌∷◌ part) (split_colon-join next parts h.1)

-- No command that a client may send is a prefix of another.
parser_command_line-text :
    (c : Command) (rest : Bytes)
    → is_possible c ≡ true
    → parser_command_line (text c ++ rest) ≡ (c, split_colon rest)
unfolding parser_command_line
parser_command_line-text wind_delta rest h = cc
parser_command_line-text error rest h = cc
parser_command_line-text temp_data rest h = cc
parser_command_line-text c rest h = refl

-- For a command that a client may send and one or more fields without colons, `parserCommandLine`
-- recovers the command and the fields from the line of their packet.
pub parser_command_line-join :
    (c : Command) (part : Bytes) (parts : List Bytes)
    → is_possible c ≡ true
    → All IsField (part ∷ parts)
    → parser_command_line (text c ++ join (part ∷ parts)) ≡ (c, part ∷ parts)
parser_command_line-join c part parts h fields =
    parser_command_line-text c (join (part ∷ parts)) h
    ∙ ap (λ fs. (c, fs)) (split_colon-join part parts fields)

forbidden_colon : (x : ℕ) → contains_byte forbidden_chars x ≡ false → x ≢ b':'
forbidden_colon x h e = ground arith

no_forbidden-IsField : (s : Bytes) → any_byte (contains_byte forbidden_chars) s ≡ false → IsField s
no_forbidden-IsField [] h = tt
no_forbidden-IsField (x ∷ s) h =
    (forbidden_colon x (ground arith), no_forbidden-IsField s (ground arith))

-- A valid callsign holds no colon, so it survives as a field of a packet.
pub callsign_valid-IsField : (s : Bytes) → callsign_valid s ≡ true → IsField s
unfolding callsign_valid
callsign_valid-IsField s h = no_forbidden-IsField s (ground arith)
