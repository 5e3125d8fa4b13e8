-- ===== src/Examples/Conversation.antt =====
-- Two ends of a connection at concrete messages, with streams that mark each byte that they take.
use wust_socket.Prelude.{
  ℕ, ◌≡◌, ◌⊎◌, inl, inr, refl, sym, ap, ◌∙◌, arith, List, [], ◌∷◌, ◌++◌, some, true, ◌==◌,
  if◌then◌else◌, concat, drop, drop-length, take, take-append-drop, append-nil,
}
use wust_socket.Prelude.Slices.{as_chunks}
use wust_socket.Prelude.Utf8.{is_utf8, utf8_run, utf8_next}
use wust_socket.Role.{Role}
use wust_socket.Channel.{Deflater, Inflater}
use wust_socket.Protocol.Mask.{MaskKey}
use wust_socket.Frames.Data.{
  data_frames, all_frames, all_frames_by, send_chunks, send_remainder, deflate,
}
use wust_socket.Ws.Event.{Text}
use wust_socket.Ws.Reader.{Reader, Ended, reader_loop, new_reader}
use wust_socket.Ws.WebSocket.{WebSocket, from_stream, send_text}
use wust_socket.Ws.WebSocket.Compressed.{Codec}
use wust_socket.Ws.WebSocket.Messages.{Sends, as_events}
use wust_socket.Ws.WebSocket.Conversation.{from_stream-delivers}
use wust_socket.Ws.Reader.Pieces.{as_reads, bytes_of}
use wust_socket.Ws.WebSocket.{Message, send_bytes}
use wust_socket.Examples.Setup.{list_sender, key, keys, hi}

unfoldable pub marked : List ℕ → List ℕ
marked [] = []
marked (b ∷ bytes) = 1 ∷ b ∷ marked bytes

unfoldable pub unmarked : List ℕ → List ℕ
unmarked [] = []
unmarked (m ∷ []) = []
unmarked (m ∷ b ∷ rest) = let later = unmarked rest in if m == 1 then b ∷ later else later

pub unmarked-marked :
    (bytes tail : List ℕ)
    → (tail ≡ []) ⊎ (tail ≡ 0 ∷ 0 ∷ 0xFF ∷ 0xFF ∷ [])
    → unmarked (marked bytes ++ tail) ≡ bytes
unfolding marked unmarked
unmarked-marked [] tail (inl e) = rw e refl
unmarked-marked [] tail (inr e) = rw e refl
unmarked-marked (b ∷ bytes) tail h = ap (◌∷◌ b) (unmarked-marked bytes tail h)

abbrev pub marks : Deflater
marks = record {
  Encoder = List ℕ;
  reset = λ e. [];
  write_all = λ bytes e. e ++ marked bytes;
  flush = λ e. e;
  get_ref = λ e. e;
  write_all_appends = λ bytes e. (marked bytes, refl);
  flush_appends = λ e. ([], sym (append-nil e));
}

abbrev pub unmarks : Inflater
unmarks = record {
  Decoder = List ℕ;
  reset = λ d. [];
  write_all = λ bytes d. (true, d ++ unmarked bytes);
  flush = λ d. (true, d);
  get_ref = λ d. d;
  write_all_appends = λ bytes d. (unmarked bytes, refl);
  flush_appends = λ d. ([], sym (append-nil d));
}

abbrev pub codec : Codec marks unmarks
codec = record {
  Linked = λ e d. Unit {0};
  Usable = λ d. Unit {0};
  linked_usable = λ e d l. tt;
  fresh = λ e d u. (tt, refl);
  reset_encoder = λ e. refl;
  inflates = λ bytes e d l. (
    refl,
    refl,
    ap (λ out. d ++ unmarked out) (drop-length e (marked bytes))
        ∙ ap (λ x. d ++ unmarked x) (sym (append-nil (marked bytes)))
        ∙ ap (λ x. d ++ x) (unmarked-marked bytes [] (inl refl)),
    tt,
  );
  inflates_padded = λ bytes e d l. (
    refl,
    refl,
    ap (λ out. d ++ unmarked (out ++ 0 ∷ 0 ∷ 0xFF ∷ 0xFF ∷ [])) (drop-length e (marked bytes))
        ∙ ap (λ x. d ++ x) (unmarked-marked bytes (0 ∷ 0 ∷ 0xFF ∷ 0xFF ∷ []) (inr refl)),
    tt,
  );
}

abbrev pub draws : ℕ → ℕ → MaskKey
draws call frame = key

abbrev pub hi_text : Text
hi_text = record { inner = hi }

abbrev pub client : WebSocket list_sender marks
client = from_stream list_sender marks 100 [] [] [] [] true true

hi-utf8 : is_utf8 hi ≡ true
hi-utf8 = unfold is_utf8 utf8_run utf8_next in refl

abbrev two_bytes : List ℕ
two_bytes = 0 ∷ 200 ∷ []

abbrev pub both : List Message
both = Message.text hi ∷ Message.binary two_bytes ∷ []

-- A text and some bytes, sent by either end.
abbrev after_text : Role → WebSocket list_sender marks
after_text r = (send_text list_sender marks r draws hi_text client).1

abbrev pub after_both : Role → WebSocket list_sender marks
after_both r = (send_bytes list_sender marks r draws two_bytes (after_text r)).1

pub two_messages :
    Sends list_sender marks Role.server true draws both client (after_both Role.client)
unfolding from_stream send_text send_bytes data_frames deflate all_frames all_frames_by
    send_remainder send_chunks as_chunks marked
two_messages =
    Sends.text hi_text tt refl hi-utf8 (omega arith)
      (Sends.binary two_bytes tt refl (omega arith) Sends.done)

pub two_echoes : Sends list_sender marks Role.client true draws both client (after_both Role.server)
unfolding from_stream send_text send_bytes data_frames deflate all_frames all_frames_by
    send_remainder send_chunks as_chunks marked
two_echoes =
    Sends.text hi_text tt refl hi-utf8 (omega arith)
      (Sends.binary two_bytes tt refl (omega arith) Sends.done)

-- The bytes arrive in two reads, cut inside the first header.
abbrev pub cut : List ℕ → List (ℕ × List ℕ)
cut bytes = (200, take 1 bytes) ∷ (300, drop 1 bytes) ∷ []

pub bytes_of-cut : (bytes : List ℕ) → bytes_of (cut bytes) ≡ bytes
bytes_of-cut bytes =
    ap (λ x. take 1 bytes ++ x) (append-nil (drop 1 bytes)) ∙ take-append-drop 1 bytes

abbrev fresh_reader : (r : Role) → Reader unmarks r true keys
fresh_reader r = new_reader unmarks r true keys 100 (some [])

from_stream-delivers_example :
    (s' : Reader unmarks Role.server true keys) × (reader_loop unmarks Role.server true keys
        (as_reads (cut (concat (after_both Role.client).data_tx)))
        (fresh_reader Role.server)
      ≡ some (Ended.breaks s'))
    × (s'.actions ≡ as_events both)
from_stream-delivers_example =
    from_stream-delivers list_sender marks unmarks codec Role.server true true keys draws 100 [] []
      [] [] [] (after_both Role.client).data_tx (cut (concat (after_both Role.client).data_tx)) tt
      two_messages refl (bytes_of-cut (concat (after_both Role.client).data_tx))
