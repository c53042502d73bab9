-- ===== src/Relay/Reader/Examples.antt =====
-- The theorem on a client's reads at a concrete stream.
use wsl_win_relay.Base.{List, [], ◌∷◌}
use wsl_win_relay.Protocol.Frame.{type_data, type_half_close}
use wsl_win_relay.Relay.Reader.{Pick, handles, takes_event, new_reader, read}
use wsl_win_relay.Relay.Reader.Returned.{Returns}
use wsl_win_relay.Relay.Reader.EndOfFile.{Use, gets, reads, uses, uses-Returns}

-- Three bytes arrive, two of them are read, and the server half-closes.
abbrev short_file : List Use
short_file =
    gets type_data (1 ∷ 2 ∷ 3 ∷ []) ∷ reads 2 (takes_event ∷ []) ∷ gets type_half_close [] ∷ []

-- another byte comes while the next read waits
abbrev late_byte : List Pick
late_byte = handles type_data (4 ∷ []) ∷ takes_event ∷ []

uses-Returns_example :
    Returns (uses (new_reader []) short_file) (read 8 late_byte (uses (new_reader []) short_file))
uses-Returns_example = uses-Returns [] short_file 8 late_byte
