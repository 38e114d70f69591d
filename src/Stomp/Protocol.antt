-- ===== src/Stomp/Protocol.antt =====
-- What the frames that a STOMP client sends say to the server, as the STOMP specification has it:
-- which subscriptions are open.
pub mod Frames
use msgs.Js.Value
use msgs.Js.Value.{Value, to_string}
use msgs.Js.Object.{Object, delete, put}
use msgs.Js.Text.{Str, str_eq, text}
use msgs.Message.{Message, header}
use msgs.Stomp.Frame.{parse}
use msgs.Base.{if◌then◌else◌, ◌==◌, nat_eq}

-- The destination of each open subscription, by the subscription's id.
abbrev pub OpenSubscriptions : Type 0
OpenSubscriptions = Object Str

unfoldable pub on_command : Message → Value → OpenSubscriptions → OpenSubscriptions
on_command m (Value.str command) o =
    if command == text "SUBSCRIBE"
    then put o (to_string (header m (text "id"))) (to_string (header m (text "destination")))
    else if command == text "UNSUBSCRIBE"
    then delete o (to_string (header m (text "id")))
    else o
on_command m _ o = o

-- After a frame of the client.
unfoldable pub on_client_frame : Str → OpenSubscriptions → OpenSubscriptions
unfolding on_command
on_client_frame s o =
    let (m, f) = parse (record { bus_id = 0; next_message = 0 }) (Value.str s) in
    on_command m (header m (text "command")) o
