-- ===== src/Client/Tests.antt =====
-- A reply over one connection.
mod Answered
use cc_utils.Base.{◌≡◌, refl, true, some, [], ◌∷◌, arith}
use cc_utils.Base.Outcome.{ok}
use cc_utils.Base.Int.{pos}
use cc_utils.Base.Bytes.{Bytes}
use cc_utils.Cli.Io.{done}
use cc_utils.Cli.Loopback.{Line, loopback, calm}
use cc_utils.Client.{Desktop, reply_loop}
use cc_utils.Client.Reply.{reply_loop-reply}

abbrev desktop : Desktop
desktop = record {
  net = loopback;
  is_socket = λ path. some true;
  strtol = λ text. (7, 0);
  is_process = λ pid. true;
  socket = λ s. (done 3, s);
  connect = λ s fd path. (done tt, s);
  select = λ s fd. (pos 1, s);
}

abbrev success_text : Bytes
success_text = b'o' ∷ b'k' ∷ []

abbrev replied : Line
replied = record { input = success_text; output = [] }

reply_loop-reply_example :
    (s' : Line) × (reply_loop desktop 5 204 replied 3 [] ≡ ok (success_text, s')) × (s'.input ≡ [])
reply_loop-reply_example =
    reply_loop-reply desktop calm 5 204 replied 3 success_text refl (omega arith) (omega arith)
      (omega arith) (refl, (refl, tt))
