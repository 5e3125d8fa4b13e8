-- ===== src/Echo/Sending.antt =====
-- src/bin/client.rs: the ping and the sends of the example client, each send with `?`, and when all
-- of them succeed.
use wust_socket.Prelude.{
  Option, ◌++◌, ◌∙◌, some, ℕ, ◌*◌, ◌≤◌, ◌≡◌, refl, sym, ap, arith, List, [], ◌∷◌, none, Bool, true,
  Result, ok, err, length, All, Result-cases, inl, inr,
}
use mathlib.Core.Path.{subst}
use wust_socket.Channel.{send-handed, Sender, Deflater}
use wust_socket.Role.{Role, peer}
use wust_socket.Protocol.Mask.{MaskKey}
use wust_socket.Prelude.Utf8.{is_utf8}
use wust_socket.Frames.Limits.{max_message_size}
use wust_socket.Frames.Opcode.{Opcode}
use wust_socket.Frames.Data.{data_frames}
use wust_socket.Protocol.Ping.{nonce_len}
use wust_socket.Frames.Wire.{wire}
use wust_socket.Frames.Control.Layout.{control_header}
use wust_socket.Ws.PingPong.{pinged, ping-lem}
use wust_socket.Ws.WebSocket.{ping, WebSocket, Message, send_data, send_text, send_bytes}
use wust_socket.Ws.WebSocket.Plain.{content, IsProper}
use wust_socket.Ws.WebSocket.Messages.{Sends, sent_payload}
use wust_socket.Echo.Transfer.{transfer, as_binary, chunks, chunks-parts}

module _ (tx : Sender (List ℕ)) (zd : Deflater) (r : Role) (keys : ℕ → ℕ → MaskKey) where
  abbrev pub send_message : Message → WebSocket tx zd → Result (List ℕ) (Unit {0}) × WebSocket tx zd
  send_message (Message.text v) ws = send_text tx zd r keys (record { inner = v }) ws
  send_message (Message.binary b) ws = send_bytes tx zd r keys b ws

  -- The sends of `main`, up to the first that fails.
  unfoldable pub send_all :
      List Message → WebSocket tx zd → Result (List ℕ) (Unit {0}) × WebSocket tx zd
  send_all [] ws = (ok tt, ws)
  send_all (m ∷ ms) ws =
      let (sent, ws') = send_message m ws in
      elim sent [ err e ↦ (err e, ws') | ok _ ↦ send_all ms ws' ]

  abbrev pub after_ping :
      List Message
      → Option (Result (List ℕ) (Unit {0}) × WebSocket tx zd)
      → Option (Result (List ℕ) (Unit {0}) × WebSocket tx zd)
  after_ping ms none = none
  after_ping ms (some (err b, ws)) = none
  after_ping ms (some (ok _, ws)) = some (send_all ms ws)

  -- `main` from its ping on, at the time `now` and with a random nonce, up to its last send. A ping
  -- that fails is a panic.
  unfoldable pub send_transfer :
      ℕ
      → List ℕ
      → List ℕ
      → List ℕ
      → WebSocket tx zd
      → Option (Result (List ℕ) (Unit {0}) × WebSocket tx zd)
  send_transfer now nonce lorem file ws =
      after_ping (transfer lorem file) (ping tx zd r keys now nonce ws)

  send_data-plain :
      (bytes : List ℕ) (o : Opcode) (ws : WebSocket tx zd)
      → ws.deflater ≡ none
      → (send_data tx zd r keys bytes o ws).1.deflater ≡ none
  unfolding send_data data_frames
  send_data-plain bytes o ws plain = rw plain refl

  send_message-plain :
      (m : Message) (ws : WebSocket tx zd)
      → ws.deflater ≡ none
      → (send_message m ws).1.deflater ≡ none
  unfolding send_text send_bytes
  send_message-plain (Message.text v) ws plain = send_data-plain v Opcode.text ws plain
  send_message-plain (Message.binary b) ws plain = send_data-plain b Opcode.bin ws plain

  -- The first send succeeds, and then the others do.
  send_all-ok :
      (m : Message) (ms : List Message) (ws ws' : WebSocket tx zd) (u : Unit {0})
      → send_all (m ∷ ms) ws ≡ (ok u, ws')
      → (v : Unit {0}) × ((send_message m ws).0 ≡ ok v)
        × (send_all ms (send_message m ws).1 ≡ (ok u, ws'))
  unfolding send_all
  send_all-ok m ms ws ws' u h = elim (Result-cases (send_message m ws).0) [
    | inl (v, e) ↦ (v, e, rw (e, send_all) at h)
    | inr (x, e) ↦ absurd (ground arith)
  ]

  send_message-ctrl_tx :
      (m : Message) (ws : WebSocket tx zd) → (send_message m ws).1.ctrl_tx ≡ ws.ctrl_tx
  unfolding send_text send_bytes send_data
  send_message-ctrl_tx (Message.text v) ws = refl
  send_message-ctrl_tx (Message.binary b) ws = refl

  -- Messages use the channel of data only.
  send_all-ctrl_tx :
      (ms : List Message) (ws : WebSocket tx zd) → (send_all ms ws).1.ctrl_tx ≡ ws.ctrl_tx
  unfolding send_all
  send_all-ctrl_tx [] ws = refl
  send_all-ctrl_tx (m ∷ ms) ws = elim (Result-cases (send_message m ws).0) [
    | inl (v, e) ↦
        rw (e, send_all) (send_all-ctrl_tx ms (send_message m ws).1 ∙ send_message-ctrl_tx m ws)
    | inr (x, e) ↦ rw (e, send_all) (send_message-ctrl_tx m ws)
  ]

  after_ping-ok :
      (ms : List Message) (result : Result (List ℕ) (Unit {0})) (ws ws' : WebSocket tx zd)
      (u : Unit {0})
      → after_ping ms (some (result, ws)) ≡ some (ok u, ws')
      → send_all ms ws ≡ (ok u, ws')
  after_ping-ok ms (ok v) ws ws' u h = ground arith
  after_ping-ok ms (err x) ws ws' u h = absurd (ground arith)

  -- If all of it succeeds, the messages are sent behind the ping, whose frame is the only one that
  -- was handed over on the channel of control frames.
  pub send_transfer-ok :
      (now : ℕ) (nonce lorem file frame : List ℕ) (ws ws' : WebSocket tx zd) (u : Unit {0})
      → length nonce ≡ nonce_len
      → send_transfer now nonce lorem file ws ≡ some (ok u, ws')
      → tx.sent ws'.ctrl_tx ≡ tx.sent ws.ctrl_tx ++ frame ∷ []
      → (send_all (transfer lorem file) (pinged tx zd r keys now nonce ws).1 ≡ (ok u, ws'))
        × (frame ≡ wire r (control_header Opcode.ping) (keys ws.calls 0) nonce)
  unfolding send_transfer
  send_transfer-ok now nonce lorem file frame ws ws' u size h handed =
      let ms = transfer lorem file in
      let ws1 = (pinged tx zd r keys now nonce ws).1 in
      let sends =
        after_ping-ok ms (pinged tx zd r keys now nonce ws).0 ws1 ws' u
          (ap (after_ping ms) (sym (ping-lem tx zd r keys now nonce ws size)) ∙ h) in
      let kept : ws'.ctrl_tx ≡ ws1.ctrl_tx =
        ap (λ x. x.1.ctrl_tx) (sym sends) ∙ send_all-ctrl_tx ms ws1 in
      (
        sends,
        sym (
            send-handed tx (wire r (control_header Opcode.ping) (keys ws.calls 0) nonce) frame
              ws.ctrl_tx (ap tx.sent (sym kept) ∙ handed)),
      )

-- A message that can be sent: text is valid UTF-8, and it is not longer than the limit.
abbrev pub IsSendable : Message → Type 0
IsSendable m = IsProper m × (length (content m) ≤ max_message_size)

-- Without compression, all sends without an error are messages sent.
pub send_all-Sends :
    (tx : Sender (List ℕ)) (zd : Deflater) (r : Role) (use_context : Bool) (keys : ℕ → ℕ → MaskKey)
    (ms : List Message) (ws ws' : WebSocket tx zd) (u : Unit {0})
    → ws.deflater ≡ none
    → All IsSendable ms
    → send_all tx zd (peer r) keys ms ws ≡ (ok u, ws')
    → Sends tx zd r use_context keys ms ws ws'
unfolding send_all
send_all-Sends tx zd r use_context keys [] ws ws' u plain sendable h =
    subst (Sends tx zd r use_context keys [] ws) (ap (λ x. x.1) h) Sends.done
send_all-Sends tx zd r use_context keys (Message.text v ∷ ms) ws ws' u plain sendable h =
    let m = Message.text v in
    let (w, first, rest) = send_all-ok tx zd (peer r) keys m ms ws ws' u h in
    Sends.text (record { inner = v }) w first sendable.0.0
      (subst (λ o. length (sent_payload tx zd r use_context keys o m) ≤ max_message_size)
        (sym plain) sendable.0.1)
      (send_all-Sends tx zd r use_context keys ms _ ws' u
        (send_message-plain tx zd (peer r) keys m ws plain) sendable.1 rest)
send_all-Sends tx zd r use_context keys (Message.binary b ∷ ms) ws ws' u plain sendable h =
    let m = Message.binary b in
    let (w, first, rest) = send_all-ok tx zd (peer r) keys m ms ws ws' u h in
    Sends.binary b w first
      (subst (λ o. length (sent_payload tx zd r use_context keys o m) ≤ max_message_size)
        (sym plain) sendable.0.1)
      (send_all-Sends tx zd r use_context keys ms _ ws' u
        (send_message-plain tx zd (peer r) keys m ws plain) sendable.1 rest)

as_binary-IsSendable :
    (bs : List (List ℕ)) → All (λ b. length b ≤ 32 * 1024) bs → All IsSendable (as_binary bs)
as_binary-IsSendable [] h = tt
as_binary-IsSendable (b ∷ bs) h = ((tt, omega (arith, h.0)), as_binary-IsSendable bs h.1)

-- All that the example client sends can be sent, whatever its file.
pub transfer-IsSendable :
    (lorem file : List ℕ)
    → is_utf8 lorem ≡ true
    → length lorem ≤ max_message_size
    → All IsSendable (transfer lorem file)
unfolding transfer
transfer-IsSendable lorem file utf8 fits =
    let (_, sizes) = chunks-parts (32 * 1024) file (omega arith) in
    ((utf8, fits), ((utf8, fits), as_binary-IsSendable (chunks (32 * 1024) file) sizes))
