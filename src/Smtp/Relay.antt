-- ===== src/Smtp/Relay.antt =====
-- How `SMTPRelay::send_to_server` of smtp/src/smtp_relay.cpp cuts a message into the lines that it
-- sends.
use email_server.Base.{List, [], ◌∷◌, map, ◌==◌, if◌then◌else◌}
use email_server.Text.Stream.{lines}
use email_server.Text.{Text, strip_cr}

-- `if (!line.empty() && line[0] == '.') line = "." + line;`
unfoldable pub stuff : Text → Text
stuff [] = []
stuff (c ∷ s) = if c == b'.' then b'.' ∷ c ∷ s else c ∷ s

-- The lines that `send_to_server` sends for a message.
unfoldable pub message_lines : Text → List Text
unfolding stuff
message_lines content = map (λ line. stuff (strip_cr line)) (lines content)
