-- ===== src/Smtp/Dialogue.antt =====
-- `send_to_server`, `read_response`, `send_command`, `expect_code` and `deliver_remote` of
-- smtp/src/smtp_relay.cpp: the dialogue with another server. The sockets and the resolver are
-- parameters.
pub mod Sent
pub mod Remote
mod Tests
use email_server.Base.{
  ℕ, suc, ◌^◌, Bool, true, false, not, ◌||◌, ◌&&◌, List, [], ◌∷◌, ◌++◌, Option, none, some, ◌==◌,
  ltb, if◌then◌else◌, is_empty, length, take, drop,
}
use email_server.Smtp.Relay.{message_lines}
use email_server.Text.Numbers.{scan_digits, is_digit}
use email_server.Text.Stream.{skip_ws}
use email_server.Text.{Text, codes, crlf, strip_cr, byte_at_is, find_char}

pub record DeliveryResult : Type 0 where
  pub success : Bool
  pub reply_code : ℕ
  pub reply_message : Text
  pub error : Text

-- `connect` resolves a name and connects, and `write` is `asio::write`: the flags say that neither
-- threw. `receive` gives the lines that reach one call of `read_response`, up to the end of the
-- connection. `lookup_mx` gives the names of the mail exchangers in the order of their priority, and
-- `what` is the text of an exception.
pub record Network (W : Type 0) : Type 0 where
  pub connect : W → Text → ℕ → W × Bool
  pub write : W → Text → W × Bool
  pub receive : W → W × List Text
  pub lookup_mx : W → Text → List Text
  pub what : Text

-- The early returns, and an exception caught at the end of `send_to_server`.
unfoldable pub failed : Text → DeliveryResult
failed error = record { success = false; reply_code = 0; reply_message = []; error = error }

unfoldable pub delivered : DeliveryResult
delivered = record {
  success = true;
  reply_code = 250;
  reply_message = codes "Message delivered";
  error = [];
}

-- `line.length() >= 4 && line[3] == ' '`.
unfoldable pub is_last : Text → Bool
unfolding byte_at_is
is_last line = byte_at_is b' ' line 3

-- The loop of `read_response`, from a response read so far; `none` where the connection ends before
-- a last line.
unfoldable pub response_from : Text → List Text → Option Text
unfolding is_last
response_from response [] = none
response_from response (line ∷ rest) =
    let read = response ++ strip_cr line in
    let more = response_from (read ++ b'\n' ∷ []) rest in
    if is_last (strip_cr line) then some read else more

-- `std::stoi` of a positive or negative number: whether there is a minus sign, and the magnitude.
-- Three characters never leave the range of an `int`.
unfoldable pub value : Bool → Text → Option (Bool × ℕ)
unfolding scan_digits
value negative [] = none
value negative (c ∷ s) = if is_digit c then some (negative, scan_digits 0 (c ∷ s)) else none

unfoldable pub stoi : Text → Option (Bool × ℕ)
unfolding value
stoi [] = none
stoi (c ∷ s) =
    if c == b'-' then value true s else if c == b'+' then value false s else value false (c ∷ s)

-- `SMTPRelay::expect_code`.
unfoldable pub expect_code : Text → ℕ → Bool
unfolding stoi
expect_code response expected =
    if ltb (length response) 3 then false else elim (stoi (skip_ws (take 3 response))) [
      | none ↦ false
      | some (negative, code) ↦ (code == expected) && (not negative || code == 0)
    ]

-- One command's answer: an exception, a refusal, or the way on.
unfoldable pub proceed {ℓ} :
    {W : Type ℓ}
    → Text
    → (Text → Bool)
    → Text
    → (W → W × DeliveryResult)
    → W × Option Text
    → W × DeliveryResult
unfolding failed
proceed what good refused next (w, none) = (w, failed what)
proceed what good refused next (w, some response) =
    if good response then next w else (w, failed (refused ++ response))

module _ {W : Type 0} (n : Network W) (hostname : Text) where
  -- `send_command`, then `read_response`.
  unfoldable pub ask : W → Text → W × Option Text
  unfolding response_from
  ask w command =
      let (w1, sent) = n.write w (command ++ crlf) in
      let (w2, lines) = n.receive w1 in if sent then (w2, response_from [] lines) else (w1, none)

  -- The lines of a message, one `send_command` each.
  unfoldable pub send_lines : List Text → W → W × Bool
  send_lines [] w = (w, true)
  send_lines (line ∷ rest) w =
      let (w1, sent) = n.write w (line ++ crlf) in
      let others = send_lines rest w1 in if sent then others else (w1, false)

  -- QUIT: its reply is read and ignored, but an exception while it is read is not.
  unfoldable pub say_quit : W → W × DeliveryResult
  unfolding proceed delivered
  say_quit w = proceed n.what (λ response. true) [] (λ w'. (w', delivered)) (ask w (codes "QUIT"))

  unfoldable pub say_content : Text → W → W × DeliveryResult
  unfolding say_quit
  say_content content w =
      let (w1, sent) = send_lines (message_lines content) w in
      let ended =
        proceed n.what (λ response. expect_code response 250) (codes "Message rejected: ") say_quit
          (ask w1 (codes ".")) in
      if sent then ended else (w1, failed n.what)

  unfoldable pub say_data : Text → W → W × DeliveryResult
  unfolding say_content
  say_data content w =
      proceed n.what (λ response. expect_code response 354) (codes "DATA rejected: ")
        (say_content content) (ask w (codes "DATA"))

  unfoldable pub say_recipient : Text → Text → W → W × DeliveryResult
  unfolding say_data
  say_recipient recipient content w =
      proceed n.what (λ response. expect_code response 250 || expect_code response 251)
        (codes "RCPT TO rejected: ") (say_data content)
        (ask w (codes "RCPT TO:<" ++ (recipient ++ codes ">")))

  unfoldable pub say_sender : Text → Text → Text → W → W × DeliveryResult
  unfolding say_recipient
  say_sender sender recipient content w =
      proceed n.what (λ response. expect_code response 250) (codes "MAIL FROM rejected: ")
        (say_recipient recipient content) (ask w (codes "MAIL FROM:<" ++ (sender ++ codes ">")))

  unfoldable pub say_helo : Text → Text → Text → W → W × DeliveryResult
  unfolding say_sender
  say_helo sender recipient content w =
      proceed n.what (λ response. expect_code response 250) (codes "HELO rejected: ")
        (say_sender sender recipient content) (ask w (codes "HELO " ++ hostname))

  -- EHLO, and HELO where it is refused.
  unfoldable pub greet : Text → Text → Text → W × Option Text → W × DeliveryResult
  unfolding say_helo
  greet sender recipient content (w, none) = (w, failed n.what)
  greet sender recipient content (w, some response) =
      if expect_code response 250
      then say_sender sender recipient content w
      else say_helo sender recipient content w

  unfoldable pub say_hello : Text → Text → Text → W → W × DeliveryResult
  unfolding greet
  say_hello sender recipient content w =
      greet sender recipient content (ask w (codes "EHLO " ++ hostname))

  -- `SMTPRelay::send_to_server`.
  unfoldable pub send_to_server : W → Text → ℕ → Text → Text → Text → W × DeliveryResult
  unfolding say_hello
  send_to_server w server port sender recipient content =
      let (w1, connected) = n.connect w server port in
      let (w2, lines) = n.receive w1 in
      if connected
      then proceed n.what (λ response. expect_code response 220)
          (codes "Server rejected connection: ") (say_hello sender recipient content)
          (w2, response_from [] lines)
      else (w1, failed n.what)

  -- The loop over the mail exchangers, from a result so far: the first success ends it.
  unfoldable pub try_servers :
      List Text → Text → Text → Text → W → DeliveryResult → W × DeliveryResult
  unfolding send_to_server
  try_servers [] sender recipient content w result = (w, result)
  try_servers (server ∷ rest) sender recipient content w result =
      let (w', tried) = send_to_server w server 25 sender recipient content in
      let others = try_servers rest sender recipient content w' tried in
      if tried.success then (w', tried) else others

  -- The domain itself, where no mail exchanger is known.
  unfoldable pub servers : Text → List Text → List Text
  servers domain [] = domain ∷ []
  servers domain (mx ∷ others) = mx ∷ others

  -- `SMTPRelay::deliver_remote`.
  unfoldable pub deliver_remote : W → Text → Text → Text → W × DeliveryResult
  unfolding try_servers servers
  deliver_remote w recipient sender content = elim (find_char b'@' recipient) [
    | none ↦ (w, failed (codes "Invalid recipient address"))
    | some at ↦
        let domain = drop (suc at) recipient in
        try_servers (servers domain (n.lookup_mx w domain)) sender recipient content w (failed [])
  ]
