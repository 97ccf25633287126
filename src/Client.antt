-- ===== src/Client.antt =====
-- The command line client, src/cli/cli_client.c. What it prints beside the reply is left out.
pub mod Reply
pub mod Exchange
mod Tests
use cc_utils.Base.{
  ℕ, zero, suc, ◌+◌, ◌-◌, Bool, true, false, ◌&&◌, ◌||◌, Option, none, some, List, [], ◌∷◌, ◌++◌,
  ltb, leb, ◌==◌, if◌then◌else◌, length, take, drop, replicate,
}
use cc_utils.Base.Outcome.{Outcome, ok, fault, out_of_fuel, ◌>>=◌}
use cc_utils.Base.Int.{ℤ, pos, negsuc}
use cc_utils.Base.Bytes.{Bytes, bytes_eq}
use cc_utils.Cli.{command_max_len}
use cc_utils.Cli.Io.{Result, done, failed, Sockets, safe_read, safe_write}
use cc_utils.Cli.Message.{msg_encode}

-- The system's other calls: stat() and S_ISSOCK of a path, `*e` and the value of strtol, lstat() and
-- S_ISDIR of the directory of a process, socket(), connect() and select() with its timeout.
pub record Desktop : Type 1 where
  pub net : Sockets
  pub is_socket : Bytes → Option Bool
  pub strtol : Bytes → ℕ × ℕ
  pub is_process : ℕ → Bool
  pub socket : net.State → Result ℕ × net.State
  pub connect : net.State → ℕ → Bytes → Result (Unit {0}) × net.State
  pub select : net.State → ℕ → ℤ × net.State

-- The checks of the arguments, the program's name in front: the error, if any.
abbrev pub too_long : List Bytes → Bool
too_long [] = false
too_long (a ∷ argv) = ltb command_max_len (length a + 1) || too_long argv

unfoldable pub check_arguments : List Bytes → Option ℤ
check_arguments argv =
    if ltb (length argv) 3
    then some (negsuc 21)
    else if ltb 32 (length argv - 3)
    then some (negsuc 21)
    else if too_long argv
    then some (negsuc 21)
    else none

-- SOCKET_PATH_DIR "/"
abbrev pub socket_dir : Bytes
socket_dir = b'/' ∷ b'v' ∷ b'a' ∷ b'r' ∷ b'/' ∷ b't' ∷ b'm' ∷ b'p' ∷ b'/' ∷ b'/' ∷ []

-- What PRINT("%s", buffer) prints of the characters in front of the terminator: it ends at a 0.
abbrev pub printed : Bytes → Bytes
printed [] = []
printed (x ∷ b) = let rest = printed b in if x == 0 then [] else x ∷ rest

module _ (os : Desktop) where
  unfoldable pub pid_exist : Bytes → Bool
  pid_exist pid = if (os.strtol pid).1 == 0 then os.is_process (os.strtol pid).0 else false

  -- `strncmp(name, proc_name, strlen(proc_name)) == 0`, and a process behind the name and a character
  unfoldable pub is_server : Bytes → Bytes → Bool
  is_server proc_name name =
      bytes_eq (take (length proc_name) name) proc_name
      && (ltb (length proc_name + 2) (length name) && pid_exist (drop (length proc_name + 1) name))

  abbrev pub socket_at : Bytes → Bool
  socket_at path = elim (os.is_socket path) [ none ↦ false | some b ↦ b ]

  -- The loop over the directory: the path of the first server of the name.
  unfoldable pub find_server : Bytes → List Bytes → Option Bytes
  find_server proc_name [] = none
  find_server proc_name (entry ∷ entries) =
      let path = socket_dir ++ entry in
      let rest = find_server proc_name entries in
      if leb 108 (length path + 1)
      then rest
      else if socket_at path && is_server proc_name entry
      then some path
      else rest

  -- A round of the loop that reads the reply, behind its safe_read, with what was read before. At the
  -- end what was read is printed; where nothing was read, the loop goes on behind a character that was
  -- never set. A buffer that is full gets its terminator behind its end.
  unfoldable pub reply_round :
      (os.net.State → Bytes → Outcome (Bytes × os.net.State))
      → ℕ
      → Bytes
      → Result Bytes × os.net.State
      → Outcome (Bytes × os.net.State)
  reply_round rest stale buf (done (x ∷ _), s) =
      let more = rest s (buf ++ (x ∷ [])) in if leb 1024 (length buf + 1) then fault else more
  reply_round rest stale [] (done [], s) = rest s (stale ∷ [])
  reply_round rest stale (c ∷ buf) (done [], s) = ok (printed (c ∷ buf), s)
  reply_round rest stale [] (failed e, s) = rest s (stale ∷ [])
  reply_round rest stale (c ∷ buf) (failed e, s) = ok (printed (c ∷ buf), s)

  unfoldable pub reply_loop : ℕ → ℕ → os.net.State → ℕ → Bytes → Outcome (Bytes × os.net.State)
  reply_loop zero stale s fd buf = out_of_fuel
  reply_loop (suc fuel) stale s fd buf =
      safe_read os.net (suc fuel) s fd 1
      >>= reply_round (λ s buf. reply_loop fuel stale s fd buf) stale buf

  -- Behind select(): what main returns, and the reply that it prints.
  unfoldable pub selected : ℕ → ℕ → ℕ → ℤ × os.net.State → Outcome (ℤ × Option Bytes × os.net.State)
  selected fuel stale fd (negsuc n, s) = ok (negsuc n, none, os.net.close s fd)
  selected fuel stale fd (pos zero, s) = ok (negsuc 109, none, os.net.close s fd)
  selected fuel stale fd (pos (suc n), s) = do
    (reply, s) ← reply_loop fuel stale s fd []
    ok (pos 0, some reply, os.net.close s fd)

  -- The message is sent; safe_write gives no -1.
  unfoldable pub connected :
      ℕ
      → ℕ
      → ℕ
      → Bytes
      → List Bytes
      → Result (Unit {0}) × os.net.State
      → Outcome (ℤ × Option Bytes × os.net.State)
  connected fuel stale fd command argv (failed e, s) = ok (pos e, none, os.net.close s fd)
  connected fuel stale fd command argv (done _, s) = do
    (n, buffer) ← msg_encode (replicate 1024 stale) command argv
    (_, s) ← safe_write os.net fuel s fd (take n buffer)
    selected fuel stale fd (os.select s fd)

  unfoldable pub request :
      ℕ
      → ℕ
      → Bytes
      → Bytes
      → List Bytes
      → Result ℕ × os.net.State
      → Outcome (ℤ × Option Bytes × os.net.State)
  request fuel stale path command argv (failed e, s) = ok (pos e, none, s)
  request fuel stale path command argv (done fd, s) =
      connected fuel stale fd command argv (os.connect s fd path)

  -- main behind the search for the server, and behind the checks of its arguments.
  unfoldable pub with_server :
      ℕ
      → ℕ
      → Bytes
      → List Bytes
      → os.net.State
      → Option Bytes
      → Outcome (ℤ × Option Bytes × os.net.State)
  with_server fuel stale command argv s none = ok (negsuc 1, none, s)
  with_server fuel stale command argv s (some path) =
      request fuel stale path command argv (os.socket s)

  unfoldable pub with_arguments :
      Option ℤ
      → Outcome (ℤ × Option Bytes × os.net.State)
      → os.net.State
      → Outcome (ℤ × Option Bytes × os.net.State)
  with_arguments (some e) goes_on s = ok (e, none, s)
  with_arguments none goes_on s = goes_on

  unfoldable pub main :
      ℕ → ℕ → List Bytes → List Bytes → os.net.State → Outcome (ℤ × Option Bytes × os.net.State)
  main fuel stale entries (program ∷ proc_name ∷ command ∷ argv) s =
      with_arguments (check_arguments (program ∷ proc_name ∷ command ∷ argv))
        (with_server fuel stale command argv s (find_server proc_name entries)) s
  main fuel stale entries _ s = ok (negsuc 21, none, s)
