-- ===== src/Adapters/Sockets.antt =====
-- adapters/webSocket.js, adapters/stream.js and adapters/messagePort.js.
use msgs.Adapters.{Attachment, Options, outbound, sending, leaving, when_given, first_argument}
use msgs.Base.{List}
use msgs.Js.Effect.{Js, Outcome, ok, pure, ◌>>=◌, ◌>>◌}
use msgs.Js.Text.{text}
use msgs.Js.Value.{Value}

-- `data v` is `v.data`, of the events of sockets and ports.
module _ {H W : Type 0} (attachment : Attachment H W) (data_of : Value → Outcome Value) where
  open attachment use {listen}

  -- `function (message) { return message.data; }`
  read_data : List Value → Outcome Value
  read_data args = data_of (first_argument args)

  -- `noop` returns its first argument.
  read_first : List Value → Outcome Value
  read_first args = ok (first_argument args)

  unfoldable pub inbound_web_socket_adapter : Options → Js W (Unit {0})
  unfolding read_data
  inbound_web_socket_adapter opts = listen (text "message") (sending opts.output read_data)

  -- `socket_send` is `socket.send.bind(socket)`.
  unfoldable pub outbound_web_socket_adapter : (Value → Js W Value) → Options → Js W H
  unfolding outbound
  outbound_web_socket_adapter socket_send opts = do
    h ← outbound attachment socket_send opts.input
    listen (text "close") (leaving opts.input h)
    pure h

  unfoldable pub web_socket_gateway : (Value → Js W Value) → Options → Js W (Unit {0})
  unfolding inbound_web_socket_adapter outbound_web_socket_adapter read_first
  web_socket_gateway socket_send opts = do
    when_given opts.output (inbound_web_socket_adapter opts)
    when_given opts.input (outbound_web_socket_adapter socket_send opts >> pure tt)
    when_given opts.error (listen (text "error") (sending opts.error read_first))

  unfoldable pub inbound_stream_adapter : Options → Js W (Unit {0})
  unfolding read_first
  inbound_stream_adapter opts = listen (text "data") (sending opts.output read_first)

  -- `write` is `stream.write.bind(stream)`.
  unfoldable pub outbound_stream_adapter : (Value → Js W Value) → Options → Js W H
  unfolding outbound
  outbound_stream_adapter write opts = do
    h ← outbound attachment write opts.input
    listen (text "close") (leaving opts.input h)
    pure h

  unfoldable pub stream_gateway : (Value → Js W Value) → Options → Js W (Unit {0})
  unfolding inbound_stream_adapter outbound_stream_adapter read_first
  stream_gateway write opts = do
    when_given opts.output (inbound_stream_adapter opts)
    when_given opts.input (outbound_stream_adapter write opts >> pure tt)
    when_given opts.error (listen (text "error") (sending opts.error read_first))

  unfoldable pub inbound_message_port_adapter : Options → Js W (Unit {0})
  unfolding read_data
  inbound_message_port_adapter opts = listen (text "message") (sending opts.output read_data)

  -- `post_message` is `port.postMessage`, called without its port.
  unfoldable pub outbound_message_port_adapter : (Value → Js W Value) → Options → Js W H
  unfolding outbound
  outbound_message_port_adapter post_message opts = outbound attachment post_message opts.input

  unfoldable pub message_port_gateway : (Value → Js W Value) → Options → Js W (Unit {0})
  unfolding inbound_message_port_adapter outbound_message_port_adapter read_first
  message_port_gateway post_message opts = do
    when_given opts.output (inbound_message_port_adapter opts)
    when_given opts.input (outbound_message_port_adapter post_message opts >> pure tt)
    when_given opts.error (listen (text "error") (sending opts.error read_first))
