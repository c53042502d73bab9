-- ===== src/Framed/Examples.antt =====
-- The theorems on links at concrete schedules.
use wsl_win_relay.Base.{List, [], ◌∷◌, none, some, true, false, accepting}
use wsl_win_relay.Protocol.Frame.{Frame, type_close}
use wsl_win_relay.Protocol.Write.{encoding}
use wsl_win_relay.Framed.Link.{
  Endpoint, Link, new_link, Operation, attaches, detaches, loses, closes, operations,
}
use wsl_win_relay.Framed.Traffic.{read_frame, Round, write_frame}
use wsl_win_relay.Framed.Whole.{IsRead, read_frame-IsRead}
use wsl_win_relay.Framed.Delivered.{IsWritten, write_frame-IsWritten}
use wsl_win_relay.Framed.Owner.{IsLinked, operations-new-IsLinked}

-- CLOSE of stream 7
abbrev close_frame : Frame
close_frame = record { kind = type_close; stream_id = 7; payload = [] }

abbrev first_endpoint : Endpoint
first_endpoint = record {
  input = encoding close_frame;
  output = accepting [];
  closer = true;
  close_failure = none;
  shut = false;
}

abbrev second_endpoint : Endpoint
second_endpoint = record first_endpoint { input = [] }

-- a link whose owner is the first endpoint
abbrev first_link : Link
first_link = record {
  current = some 0;
  is_closed = false;
  attachments = record { endpoint = first_endpoint; released = false; failure = none } ∷ [];
}

-- While the first endpoint is read, it is replaced.
abbrev replaced_meanwhile : List (List Operation)
replaced_meanwhile = (attaches second_endpoint ∷ []) ∷ []

read_frame-IsRead_example : IsRead first_link (read_frame replaced_meanwhile first_link)
read_frame-IsRead_example = read_frame-IsRead replaced_meanwhile first_link

-- The first round finds itself overtaken at the lock, the second one writes.
abbrev two_rounds : List Round
two_rounds =
    record { before = attaches second_endpoint ∷ []; during = []; gives_up = false }
    ∷ record { before = []; during = closes ∷ []; gives_up = false }
    ∷ []

write_frame-IsWritten_example :
    IsWritten close_frame first_link (write_frame close_frame two_rounds first_link)
write_frame-IsWritten_example = write_frame-IsWritten close_frame two_rounds first_link

abbrev some_operations : List Operation
some_operations = attaches first_endpoint ∷ attaches second_endpoint ∷ loses 0 ∷ detaches 0 ∷ []

operations-new-IsLinked_example : IsLinked (operations new_link some_operations)
operations-new-IsLinked_example = operations-new-IsLinked some_operations
