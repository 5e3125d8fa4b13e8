-- ===== src/Examples/Setup.antt =====
-- A channel that keeps what is sent, a deflate stream that stores its input, and the bytes of a
-- masked text frame that a server may read.
use wust_socket.Prelude.{
  ℕ, ◌≡◌, refl, sym, List, [], ◌∷◌, ◌++◌, append-nil, none, true, false, ok, err,
}
use wust_socket.Channel.{Sender, Inflater}
use wust_socket.Role.{Role}
use wust_socket.Protocol.Mask.{MaskKey}
use wust_socket.Protocol.Ping
use wust_socket.Frames.Opcode.{Opcode}
use wust_socket.Frames.Wire.{Header}
use wust_socket.Frames.Decode
use wust_socket.Frames.Decode.Parse.{FrameDecoder}
use wust_socket.Prelude.Slices.{as_chunks}
use wust_socket.Frames.RoundTrip.{IsReady}
use wust_socket.Frames.Data.{all_frames, all_frames_by, send_chunks, send_remainder}
use wust_socket.Ws.FrameHandler.{Conn}
use wust_socket.Ws.Reader.{Reader}

pub never_fails : {s t : List (List ℕ)} {u : Unit {0}} {b : List ℕ} → ok u ≡ err b → s ≡ t
never_fails e = cc

abbrev pub list_sender : Sender (List ℕ)
list_sender = record {
  State = List (List ℕ);
  send = λ a s. (ok tt, s ++ a ∷ []);
  sent = λ s. s;
  send_ok = λ a s u e. refl;
  send_err = λ a b s e. never_fails e;
}

abbrev pub stored : Inflater
stored = record {
  Decoder = List ℕ;
  reset = λ d. [];
  write_all = λ bytes d. (true, d ++ bytes);
  flush = λ d. (true, d);
  get_ref = λ d. d;
  write_all_appends = λ bytes d. (bytes, refl);
  flush_appends = λ d. ([], sym (append-nil d));
}

abbrev pub key : MaskKey
key = record { k0 = 1; k1 = 2; k2 = 3; k3 = 4 }

abbrev pub keys : ℕ → MaskKey
keys i = key

-- "Hi" as a client sends it.
abbrev pub hi : List ℕ
hi = 72 ∷ 105 ∷ []

abbrev pub hi_frame : List ℕ
hi_frame = 0x81 ∷ 0x82 ∷ 1 ∷ 2 ∷ 3 ∷ 4 ∷ 73 ∷ 107 ∷ []

abbrev pub text_header : Header
text_header = record { fin = true; rsv1 = false; opcode = Opcode.text }

abbrev pub start : FrameDecoder
start = Decode.new false

abbrev pub conn : Conn stored
conn = record {
  ping_stats = Ping.new 100;
  closing = false;
  closed = false;
  partial_msg = none;
  inflater = none;
}

abbrev pub reader : Reader stored Role.server false keys
reader = record { decoder = start; conn = conn; last_seen = 100; draws = 0; actions = [] }

pub start-IsReady : IsReady start false []
unfolding Decode.new
start-IsReady = record { at_start = refl; buffered = refl; setting = refl }

-- All sends of "Hi" succeed.
pub all_frames-ok : (all_frames list_sender Role.client Opcode.text hi false keys []).0 ≡ ok tt
unfolding all_frames all_frames_by send_remainder send_chunks as_chunks
all_frames-ok = refl
