-- ===== src/Pop3/Response.antt =====
-- namespace response of pop3/include/pop3_commands.hpp.
use email_server.Base.{◌∷◌, ◌++◌, if◌then◌else◌, is_empty}
use email_server.Text.{Text, codes}

unfoldable pub okay : Text → Text
okay message = if is_empty message then codes "+OK" else codes "+OK" ++ (b' ' ∷ message)

unfoldable pub error : Text → Text
error message = if is_empty message then codes "-ERR" else codes "-ERR" ++ (b' ' ∷ message)
