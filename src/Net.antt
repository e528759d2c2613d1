-- ===== src/Net.antt =====
-- common/include/net/session.hpp and common/src/net/session.cpp: the state of a connection, what
-- `send` and the completion handlers do with it, and the parts of Asio that they drive. A lambda
-- that `asio::post` queued waits in `posted`; one that a thread has begun to run, and that has asked
-- whether the queue was empty but not pushed its text, stands in `looked`, with the answer; each `async_write` that was started is an entry of
-- `wire`, with the channel of its socket, and `outstanding` counts those not completed yet.
pub mod Events
pub mod Order
pub mod Server
pub mod Stopped
mod Tests
use email_server.Base.{
  ℕ, zero, suc, Bool, true, false, ◌||◌, List, [], ◌∷◌, ◌++◌, is_empty, if◌then◌else◌,
}
use email_server.Text.{Text, crlf, strip_cr}
use email_server.Text.Stream.{first_line}

pub data Channel : Type 0 where
  plain tls : Channel

pub record Session : Type 0 where
  pub is_tls : Bool
  pub write_queue : List Text
  pub authenticated : Bool
  pub username : Text
  pub domain : Text
  pub stopped : Bool
  pub posted : List Text
  pub looked : List (Bool × Text)
  pub outstanding : ℕ
  pub wire : List (Channel × Text)

-- `Session::Session`: over a plain socket, or over TLS from the start.
abbrev pub connect : Bool → Session
connect over_tls = record {
  is_tls = over_tls;
  write_queue = [];
  authenticated = false;
  username = [];
  domain = [];
  stopped = false;
  posted = [];
  looked = [];
  outstanding = 0;
  wire = [];
}

-- `Session::send`: the lambda is posted, and not run.
unfoldable pub send : Text → Session → Session
send text s = record s { posted = s.posted ++ text ∷ [] }

unfoldable pub send_line : Text → Session → Session
unfolding send
send_line line = send (line ++ crlf)

-- `Session::stop`; the timer, the log and the closing of the socket keep no state here.
unfoldable pub stop : Session → Session
stop s = if s.stopped then s else record s { stopped = true }

-- The alternative of the socket's variant that a write goes to.
abbrev pub channel : Session → Channel
channel s = if s.is_tls then tls else plain

-- `async_write` on the front of the queue.
unfoldable pub start_write : List Text → Session → Session
start_write [] s = s
start_write (front ∷ rest) s = record s {
  outstanding = suc s.outstanding;
  wire = s.wire ++ (channel s, front) ∷ [];
}

unfoldable pub do_write : Session → Session
unfolding start_write
do_write s = if s.stopped || is_empty s.write_queue then s else start_write s.write_queue s

-- The body of the lambda that `send` posts.
unfoldable pub run_posted : Text → Session → Session
unfolding do_write
run_posted text s =
    let pushed = record s { write_queue = s.write_queue ++ text ∷ [] } in
    if is_empty s.write_queue then do_write pushed else pushed

-- The body of that lambda in its two parts, between which another thread may run: `empty` is asked,
-- and then the text is pushed and written according to the answer.
unfoldable pub look : Text → Session → Session
look text s = record s { looked = s.looked ++ (is_empty s.write_queue, text) ∷ [] }

unfoldable pub push : Bool → Text → Session → Session
unfolding do_write
push was_empty text s =
    let pushed = record s { write_queue = s.write_queue ++ text ∷ [] } in
    if was_empty then do_write pushed else pushed

-- `pop_front`.
abbrev pub pop_front : List Text → List Text
pop_front [] = []
pop_front (x ∷ xs) = xs

-- `Session::handle_write`; the flag says whether the error code is set.
unfoldable pub handle_write : Bool → Session → Session
unfolding do_write stop
handle_write failed s =
    let popped = record s { write_queue = pop_front s.write_queue } in
    if s.stopped
    then s
    else if failed
    then stop s
    else if is_empty (pop_front s.write_queue)
    then popped
    else do_write popped

-- `Session::handle_timeout`; the flag says whether the timer was cancelled.
unfoldable pub handle_timeout : Bool → Session → Session
unfolding stop
handle_timeout cancelled s = if cancelled then s else if s.stopped then s else stop s

-- `Session::start_tls`: the socket is replaced at once, and the handshake is started.
unfoldable pub start_tls : Session → Session
start_tls s = if s.is_tls then s else record s { is_tls = true }

-- The line that `handle_read` takes out of the read buffer: up to the first newline, without one
-- return at its end.
unfoldable pub received_line : Text → Text
received_line buffer = strip_cr (first_line buffer)
