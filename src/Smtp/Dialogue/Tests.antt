-- ===== src/Smtp/Dialogue/Tests.antt =====
-- The dialogue with a server that answers, and with one that hangs up at QUIT.
use email_server.Base.{
  ℕ, suc, ◌≡◌, refl, true, false, List, [], ◌∷◌, ◌++◌, ◌==◌, if◌then◌else◌, length,
}
use email_server.Smtp.Dialogue.{
  Network, send_to_server, deliver_remote, ask, expect_code, response_from, send_lines,
}
use email_server.Smtp.Dialogue.Remote.{
  EndsInTransaction, HangsUp, deliver_remote-EndsInTransaction, deliver_remote-Fails,
}
use email_server.Smtp.Dialogue.Sent.{Records, ended, greeting, transaction, send_to_server-log}
use email_server.Text.{Text, codes, text_eq, crlf, strip_cr, is_space, find_if}
use email_server.Text.Stream.{drop_while, lines}
use email_server.Smtp.Relay.{message_lines}

-- The answer after so many texts, DATA being the fourth.
abbrev answer : ℕ → Text
answer sent =
    if sent == 0
    then b'2' ∷ b'2' ∷ b'0' ∷ b' ' ∷ []
    else if sent == 4
    then b'3' ∷ b'5' ∷ b'4' ∷ b' ' ∷ []
    else b'2' ∷ b'5' ∷ b'0' ∷ b' ' ∷ []

-- The world is the list of the texts that were written.
abbrev polite : Network (List Text)
polite = record {
  connect = λ w server port. (w, true);
  write = λ w text. (w ++ text ∷ [], true);
  receive = λ w. (w, answer (length w) ∷ []);
  lookup_mx = λ w domain. [];
  what = [];
}

polite-Records : Records polite (λ w. w)
polite-Records = record {
  write = λ w text sent. refl;
  receive = λ w. refl;
  connect = λ w server port. refl;
}

-- The texts that were written, the last one first; no answer to QUIT.
abbrev curt : Network (List Text)
curt = record {
  connect = λ w server port. (w, true);
  write = λ w text. (text ∷ w, true);
  receive = λ w. elim w [
    | [] ↦ ([], answer 0 ∷ [])
    | last ∷ rest ↦ (
      last ∷ rest,
      if text_eq last (codes "QUIT" ++ crlf) then [] else answer (suc (length rest)) ∷ [],
    )
  ];
  lookup_mx = λ w domain. [];
  what = [];
}

curt-HangsUp : HangsUp curt (codes "h")
unfolding ask codes text_eq response_from
curt-HangsUp w = refl

send_to_server-log_example :
    (send_to_server polite (codes "h") [] (codes "m") 25 (codes "a@c") (codes "b@d") (codes "hi")).0
    ≡ []
      ++ ended (greeting (codes "h") false ++ transaction (codes "a@c") (codes "b@d") (codes "hi"))
unfolding send_to_server codes response_from strip_cr expect_code drop_while is_space ask send_lines
    message_lines lines
send_to_server-log_example =
    send_to_server-log polite (codes "h") (λ w. w) polite-Records [] (codes "m") 25 (codes "a@c")
      (codes "b@d") (codes "hi") refl

deliver_remote-EndsInTransaction_example :
    EndsInTransaction
      (codes "h")
      (deliver_remote polite (codes "h") [] (codes "b@d") (codes "a@c") (codes "hi")).0
      (codes "a@c")
      (codes "b@d")
      (codes "hi")
unfolding deliver_remote codes find_if response_from strip_cr expect_code drop_while is_space ask
    send_lines message_lines lines
deliver_remote-EndsInTransaction_example =
    deliver_remote-EndsInTransaction polite (codes "h") (λ w. w) polite-Records [] (codes "b@d")
      (codes "a@c") (codes "hi") refl

deliver_remote-Fails_example :
    (deliver_remote curt (codes "h") [] (codes "b@d") (codes "a@c") (codes "hi")).1.success ≡ false
deliver_remote-Fails_example =
    deliver_remote-Fails curt (codes "h") curt-HangsUp [] (codes "b@d") (codes "a@c") (codes "hi")
