-- ===== src/Imap/Response.antt =====
-- The replies of imap/include/imap_commands.hpp.
use email_server.Base.{◌++◌}
use email_server.Text.{Text, codes}

-- `response::ok`, `response::no`, `response::bad`, `response::untagged` and `response::bye`.
abbrev pub ok : Text → Text → Text
ok tag msg = tag ++ (codes " OK " ++ msg)

abbrev pub refused : Text → Text → Text
refused tag msg = tag ++ (codes " NO " ++ msg)

abbrev pub bad : Text → Text → Text
bad tag msg = tag ++ (codes " BAD " ++ msg)

abbrev pub untagged : Text → Text
untagged text = codes "* " ++ text

abbrev pub bye : Text → Text
bye msg = codes "* BYE " ++ msg
