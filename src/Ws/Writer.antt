-- ===== src/Ws/Writer.antt =====
-- The writer task of src/ws/websocket.rs, `writer_loop`: a loop over a biased `select!` of three
-- channels. What goes on beside the task, sends and dropped senders, are steps between its turns.
pub mod Chunks
pub mod InOrder
pub mod Order
pub mod Drain
use wust_socket.Prelude.{ℕ, List, [], ◌∷◌, ◌++◌, Bool, true, false, ◌&&◌, ◌||◌, ◌≡◌, if◌then◌else◌}

-- A channel: what waits in it, and whether a sender is left.
pub record Channel : Type 0 where
  pub queue : List (List ℕ)
  pub is_open : Bool

-- What was written, by the channel that it came from.
pub data Chunk : Type 0 where
  close ctrl data_frame : List ℕ → Chunk

pub record Writer : Type 0 where
  pub close_rx : Channel
  pub ctrl_rx : Channel
  pub data_rx : Channel
  pub written : List Chunk
  pub running : Bool

-- Whether `write_all` and `flush` succeed in this turn.
pub record Io : Type 0 where
  pub writes : Bool
  pub flushes : Bool

abbrev pub received : Channel → List (List ℕ) → Channel
received c rest = record c { queue = rest }

abbrev pub logged : Io → Chunk → List Chunk
logged io chunk = if io.writes then chunk ∷ [] else []

-- A chunk is written out, and the loop goes on if that succeeds.
abbrev pub pass_on : Io → Chunk → Writer → Writer
pass_on io chunk w = record w {
  written = w.written ++ logged io chunk;
  running = io.writes && io.flushes;
}

-- A close frame is written, the stream is shut down, and the loop ends.
abbrev pub finish : Io → List ℕ → Writer → Writer
finish io frame w = record w {
  written = w.written ++ logged io (Chunk.close frame);
  running = false;
}

-- `else => break`, if all channels are closed; otherwise the task waits.
abbrev pub idle : Writer → Writer
idle w = record w { running = w.close_rx.is_open || w.ctrl_rx.is_open || w.data_rx.is_open }

-- `select!` on what waits in the channels: the first of them that has something.
unfoldable pub select : Io → List (List ℕ) → List (List ℕ) → List (List ℕ) → Writer → Writer
select io (b ∷ rest) ctrls datas w = finish io b (record w { close_rx = received w.close_rx rest })
select io [] (b ∷ rest) datas w =
    pass_on io (Chunk.ctrl b) (record w { ctrl_rx = received w.ctrl_rx rest })
select io [] [] (b ∷ rest) w =
    pass_on io (Chunk.data_frame b) (record w { data_rx = received w.data_rx rest })
select io [] [] [] w = idle w

-- A turn of the loop.
unfoldable pub turn : Io → Writer → Writer
unfolding select
turn io w = if w.running then select io w.close_rx.queue w.ctrl_rx.queue w.data_rx.queue w else w

unfoldable pub start : Writer
start = record {
  close_rx = record { queue = []; is_open = true };
  ctrl_rx = record { queue = []; is_open = true };
  data_rx = record { queue = []; is_open = true };
  written = [];
  running = true;
}
