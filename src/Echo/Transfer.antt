-- ===== src/Echo/Transfer.antt =====
-- src/bin/client.rs: what the example client sends to the echo server, and the file that it writes.
-- What it prints is left out; the text LOREM and the contents of its file are arguments.
use wust_socket.Prelude.{
  ℕ, ◌*◌, ◌≤◌, ◌<◌, Bool-cases, inl, inr, ◌≡◌, refl, sym, ap, ◌∙◌, arith, List, [], ◌∷◌, ◌++◌,
  Option, none, some, length, is_empty, as_chunks, as_chunks-parts, concat, All, All-append,
  append_assoc, append-nil, if◌then◌else◌, codes,
}
use wust_socket.Frames.Data.Parts.{All-mono, concat-snoc, is_empty-eq}
use wust_socket.Client.{display_u16}
use wust_socket.Ws.Event.{Event}
use wust_socket.Ws.WebSocket.{Message}
use wust_socket.Ws.WebSocket.Messages.{as_events}
use wust_socket.Echo.{events}

-- `Args::as_url`
unfoldable pub as_url : List ℕ → ℕ → List ℕ
as_url addr port = codes "ws://" ++ addr ++ codes ":" ++ display_u16 port

-- `chunks` of a slice: the last one may be shorter.
unfoldable pub chunks : ℕ → List ℕ → List (List ℕ)
chunks n file =
    let c = as_chunks n file in
    if is_empty c.remainder then c.chunked else c.chunked ++ c.remainder ∷ []

abbrev pub as_binary : List (List ℕ) → List Message
as_binary [] = []
as_binary (b ∷ bs) = Message.binary b ∷ as_binary bs

-- The messages that `main` sends, behind its ping (Sending).
unfoldable pub transfer : List ℕ → List ℕ → List Message
transfer lorem file = Message.text lorem ∷ Message.text lorem ∷ as_binary (chunks (32 * 1024) file)

-- The file that `main` writes of what `recv_timeout` gives.
unfoldable pub write_events : List (Option Event) → List ℕ → List ℕ
write_events [] file = file
write_events (none ∷ rest) file = file
write_events (some Event.closed ∷ rest) file = file
write_events (some (Event.binary b) ∷ rest) file = write_events rest (file ++ b)
write_events (some (Event.text t) ∷ rest) file = write_events rest file
write_events (some (Event.pong latency) ∷ rest) file = write_events rest file

pub chunks-parts :
    (n : ℕ) (file : List ℕ)
    → 0 < n
    → (concat (chunks n file) ≡ file) × All (λ x. length x ≤ n) (chunks n file)
unfolding chunks
chunks-parts n file p =
    let c = as_chunks n file in
    let (whole, sizes, rest) = as_chunks-parts n file p in
    let full : All (λ x. length x ≤ n) c.chunked = All-mono (λ x e. omega arith) c.chunked sizes in
    elim (Bool-cases (is_empty c.remainder)) [
      | inl none_left ↦
          let nothing = is_empty-eq c.remainder none_left in
          rw none_left (
            sym (append-nil (concat c.chunked))
                ∙ ap (λ t. concat c.chunked ++ t) (sym nothing)
                ∙ whole,
            full,
          )
      | inr more ↦ rw more (
        concat-snoc c.chunked c.remainder ∙ whole,
        All-append (λ x. length x ≤ n) c.chunked (c.remainder ∷ []) full (omega arith, tt),
      )
    ]

-- The events but the pongs.
abbrev pub without_pongs : List Event → List Event
without_pongs [] = []
without_pongs (Event.pong latency ∷ es) = without_pongs es
without_pongs (Event.text t ∷ es) = Event.text t ∷ without_pongs es
without_pongs (Event.binary b ∷ es) = Event.binary b ∷ without_pongs es
without_pongs (Event.closed ∷ es) = Event.closed ∷ without_pongs es

-- `recv_timeout` gives these events.
abbrev pub in_time : List Event → List (Option Event)
in_time [] = []
in_time (e ∷ es) = some e ∷ in_time es

-- Messages that come back are no pongs.
pub without_pongs-as_events :
    (ms : List Message) → without_pongs (events (as_events ms)) ≡ events (as_events ms)
without_pongs-as_events [] = refl
without_pongs-as_events (Message.text v ∷ ms) =
    ap (λ es. Event.text (record { inner = v }) ∷ es) (without_pongs-as_events ms)
without_pongs-as_events (Message.binary b ∷ ms) =
    ap (λ es. Event.binary b ∷ es) (without_pongs-as_events ms)

write_events-without_pongs :
    (es : List Event) (later : List (Option Event)) (file : List ℕ)
    → write_events (in_time es ++ none ∷ later) file
      ≡ write_events (in_time (without_pongs es) ++ none ∷ later) file
unfolding write_events
write_events-without_pongs [] later file = refl
write_events-without_pongs (Event.pong latency ∷ es) later file =
    write_events-without_pongs es later file
write_events-without_pongs (Event.text t ∷ es) later file = write_events-without_pongs es later file
write_events-without_pongs (Event.binary b ∷ es) later file =
    write_events-without_pongs es later (file ++ b)
write_events-without_pongs (Event.closed ∷ es) later file = refl

write_events-as_binary :
    (bs : List (List ℕ)) (later : List (Option Event)) (file : List ℕ)
    → write_events (in_time (events (as_events (as_binary bs))) ++ none ∷ later) file
      ≡ file ++ concat bs
unfolding write_events
write_events-as_binary [] later file = sym (append-nil file)
write_events-as_binary (b ∷ bs) later file =
    write_events-as_binary bs later (file ++ b) ∙ append_assoc file b (concat bs)

-- If what comes back is what the client has sent, with any pongs in between, and then nothing in
-- time, the file that the client writes is the file that it has read.
pub write_events-transfer :
    (lorem file : List ℕ) (es : List Event) (later : List (Option Event))
    → without_pongs es ≡ events (as_events (transfer lorem file))
    → write_events (in_time es ++ none ∷ later) [] ≡ file
unfolding transfer
write_events-transfer lorem file es later h =
    write_events-without_pongs es later []
    ∙ ap (λ x. write_events (in_time x ++ none ∷ later) []) h
    ∙ unfold write_events in
      write_events-as_binary (chunks (32 * 1024) file) later []
      ∙ (chunks-parts (32 * 1024) file (omega arith)).0
