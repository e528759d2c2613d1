-- ===== src/Smtp/Reply.antt =====
-- namespace reply of smtp/include/smtp_commands.hpp.
use email_server.Base.{ℕ, ◌≡◌, refl, false, List, [], ◌∷◌, ◌++◌, is_empty}
use email_server.Text.Numbers.{to_string}
use email_server.Text.{Text, crlf}

abbrev pub service_ready : ℕ
service_ready = 220

abbrev pub service_closing : ℕ
service_closing = 221

abbrev pub help_message : ℕ
help_message = 214

abbrev pub auth_success : ℕ
auth_success = 235

abbrev pub okay : ℕ
okay = 250

abbrev pub cannot_vrfy : ℕ
cannot_vrfy = 252

abbrev pub auth_continue : ℕ
auth_continue = 334

abbrev pub start_mail_input : ℕ
start_mail_input = 354

abbrev pub local_error : ℕ
local_error = 451

abbrev pub syntax_error : ℕ
syntax_error = 500

abbrev pub syntax_error_params : ℕ
syntax_error_params = 501

abbrev pub command_not_implemented : ℕ
command_not_implemented = 502

abbrev pub bad_sequence : ℕ
bad_sequence = 503

abbrev pub param_not_implemented : ℕ
param_not_implemented = 504

abbrev pub auth_required : ℕ
auth_required = 530

abbrev pub auth_invalid : ℕ
auth_invalid = 535

abbrev pub mailbox_not_found : ℕ
mailbox_not_found = 550

abbrev pub exceeded_storage : ℕ
exceeded_storage = 552

-- `make`: the code, a space and the message.
unfoldable pub make : ℕ → Text → Text
make code message = to_string code ++ (b' ' ∷ message)

-- `make_multi`: a dash instead of the space on all lines but the last.
unfoldable pub make_multi : ℕ → List Text → Text
make_multi code [] = []
make_multi code (line ∷ []) = to_string code ++ (b' ' ∷ line)
make_multi code (line ∷ next ∷ rest) =
    to_string code ++ (b'-' ∷ (line ++ (crlf ++ make_multi code (next ∷ rest))))

is_empty-append : (s : Text) (c : ℕ) (t : Text) → is_empty (s ++ (c ∷ t)) ≡ false
is_empty-append [] c t = refl
is_empty-append (d ∷ s) c t = refl

-- A reply is never empty.
pub is_empty-make : (code : ℕ) (message : Text) → is_empty (make code message) ≡ false
is_empty-make code message = unfold make in is_empty-append (to_string code) b' ' message
