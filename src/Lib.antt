-- ===== src/Lib.antt =====
-- A WebSocket endpoint, client and server, over tokio (the crate of src/lib.rs). Modelled and proved
-- here are the opening handshake; the path of the bytes, from a message to frames and to bytes at
-- one end, and from bytes to frames, to handlers and to events at the other; and the tasks and the
-- handle of a connection.
--
-- The parts of the program and the files about them:
--   src/role.rs (RolePolicy), src/lib.rs (limits), src/error.rs (CloseReason, UpgradeError): Role,
--     Frames/Limits, Error. The role, a type parameter there, is an argument here.
--   src/frames/opcode.rs: Frames/Opcode.
--   src/protocol/mask.rs: Protocol/Mask, the portable loop `mask_lin`, and Mask/Simd, the vector
--     loop `mask_avx2`.
--   src/protocol/ping.rs (PingStats): Protocol/Ping, with Ping/History, Ping/Average, Ping/Nonce.
--   src/frames/control.rs (ping, pong, close, encode): Frames/Control, with Control/Layout and
--     Control/Close. Every slice and copy has its bounds check, and `none` is a panic.
--   src/frames/data.rs (data, all_frames, single_frame): Frames/Data, with Data/Layout,
--     Data/Message, Data/Parts and Data/Fragments. `data` is `data_frames`.
--   src/frames/decode.rs (FrameDecoder): Frames/Decode and Decode/Parse. `step` is a round of the
--     loop of `next_frame`. Decode/Progress is about its end, Decode/Resume about bytes that come
--     later, Decode/Frames about its invariant, Decode/Stream about calling it again and again.
--   Frames/Wire is the layout of a frame in RFC 6455, written down apart from the encoders and the
--     decoder. Frames/RoundTrip, Frames/Delivery and Frames/Sequence put both ends together.
--   src/ws/event.rs (Event, PartialMessage): Ws/Event.
--   src/ws/frame_handler.rs (handle_frame and the handlers it calls): Ws/FrameHandler, with
--     FrameHandler/Safety, FrameHandler/Kept, FrameHandler/Assembly and FrameHandler/Compression;
--     FrameHandler/Interleaved has pings between the frames of a message, FrameHandler/Runs one
--     run of frames behind another. The state of the connection is `Conn`;
--     the sends of a handler are a list of `Action`.
--   src/ws/websocket.rs, the task of `reader_loop`: Ws/Reader, with Reader/Safety.
--     Reader/Outcome is about one call of `on_bytes`, Reader/Errors about an error in it, and
--     Reader/Pieces about bytes that come in several reads. Reader/Delivery takes a message from
--     `all_frames` at one end to its event at the other, Reader/Pings has pings among the frames.
--   src/ws/websocket.rs, the task of `writer_loop`: Ws/Writer. Writer/Order, with Chunks and
--     InOrder, has the sends and the turns of the task as a step relation, Writer/Drain is about
--     what waits in the channels.
--   src/ws/websocket.rs, the task of `ping_loop`: Ws/PingLoop, with PingLoop/Timeouts.
--   src/ws/websocket.rs, the calls of `WebSocket` and `recv_loop`: Ws/WebSocket, with
--     WebSocket/Sends. WebSocket/Plain and WebSocket/Compressed take a message to the reader of the
--     other end, and WebSocket/Conversation does so for all messages of a new connection, which
--     WebSocket/Messages describes. Ws/Stream puts the writer task in between. Ws/Closing is the
--     closing handshake, with Reader/Closing, a close frame as the reader task takes it, and
--     Ws/PingPong a ping and its pong, with Reader/OneFrame.
--   src/server.rs (parse_extensions, try_upgrade, the choice in `run`): Server; `bind`, the accept
--     loop and the task of a connection are in Server/Run, with Server/Policy.
--   src/bin/server.rs (EchoHandler): Echo, with messages that go to the echo server and back.
--   src/bin/client.rs (as_url, what `main` sends and writes): Echo/Transfer and Echo/Sending.
--   Session puts the handshake and the conversation together, Session/Copy the two programs.
--   src/client.rs (connect, connect_timeout, try_upgrade): Client and Client/Connect.
--   Both handshakes, and `hash_key` and `validate_header` of src/ws/websocket.rs, use Http: Text has
--     the operations of the standard library on text, Headers the table of headers. Handshake puts
--     the two ends together: Handshake/Lines is about header lines, Response and Reply about the
--     response as the client reads it, RequestText and Request about the request as the server
--     reads it, Offers about what the server accepts.
--   Examples has tests, and the theorems at concrete inputs.
--
-- Bytes are natural numbers, and what wraps in the program (`as u8`, `u16` sums) wraps here. `usize`
-- has 64 bits. Random bytes and times are arguments: a function from the number of the draw to a
-- key, an instant in milliseconds. A text of the handshake is the list of its code points; what a
-- user sends is the list of its bytes.
--
-- Parameters: `Sender` (in Channel) is the channel of tokio, `Deflater` and `Inflater` are the
-- streams of flate2, `Digest` (in Http/Accept) stands for sha1 and base64, `Lowercase` (in
-- Http/Headers) for `to_lowercase`, `LineReader` (in Handshake/Lines) for `read_line` on a stream
-- with a given text, `Network` (in Client/Connect) for url, tokio and rustls, `Codec` (in
-- WebSocket/Compressed) for how the two streams of flate2 belong together. Examples has instances
-- of all of them.
--
-- Fuel: the loop of `next_frame` has five rounds, one for each of its states. The loops that call it
-- have the number of buffered bytes and two more, since a frame takes two bytes or more, but for
-- one whose header was read before. The vector loop has one round more than there are blocks of 32
-- bytes. The digits of a port are at most five.
--
-- Not modelled: the configuration of TLS in src/server.rs and src/client.rs, which reads files and
-- fills in a structure of rustls; the addresses that a handle keeps, but for the two that the server
-- passes; the feature `autobahn`; the command lines and the printing of the programs in src/bin;
-- logging. The tasks of a connection are modelled one by one; of
-- what the others do meanwhile, each has what it depends on as an argument or as a step.
pub mod Prelude
pub mod Role
pub mod Error
pub mod Channel
pub mod Protocol
pub mod Frames
pub mod Http
pub mod Server
pub mod Client
pub mod Handshake
pub mod Echo
pub mod Session
pub mod Ws
pub mod Examples
