-- ===== src/Binlog/Handle.antt =====
-- binlog_create and binlog_destroy of src/binlog/binlog.c: the handle of a log.
use cc_utils.Base.{ℕ, inl, inr, Option, none, some, [], ◌∷◌, ◌++◌, ltb, ◌⊎◌, if◌then◌else◌, length}
use cc_utils.Base.Bytes.{Bytes}

-- `binlog_handle_t` at its address
pub record Handle : Type 0 where
  pub address : ℕ
  pub fd : ℕ
  pub name : Bytes

-- The system's calls: `none` is a malloc() that fails, and open() gives an errno or a descriptor.
pub record System : Type 1 where
  pub State : Type 0
  pub malloc : State → Option ℕ × State
  pub free : State → ℕ → State
  pub open_file : State → Bytes → (ℕ ⊎ ℕ) × State
  pub close : State → ℕ → State

-- "/var/log/tmp/"
abbrev pub log_dir : Bytes
log_dir =
    b'/' ∷ b'v' ∷ b'a' ∷ b'r' ∷ b'/' ∷ b'l' ∷ b'o' ∷ b'g' ∷ b'/' ∷ b't' ∷ b'm' ∷ b'p' ∷ b'/' ∷ []

-- sizeof(handle->name)
abbrev pub name_size : ℕ
name_size = 128

module _ (os : System) where
  unfoldable pub open_log : ℕ → Bytes → (ℕ ⊎ ℕ) × os.State → Option Handle × os.State
  open_log address name (inl errno, s) = (none, os.free s address)
  open_log address name (inr fd, s) = (some (record { address = address; fd = fd; name = name }), s)

  unfoldable pub with_handle : Bytes → Option ℕ × os.State → Option Handle × os.State
  with_handle name (none, s) = (none, s)
  with_handle name (some address, s) =
      let path = log_dir ++ name in
      if ltb (length path) name_size
      then open_log address path (os.open_file s path)
      else (none, os.free s address)

  unfoldable pub binlog_create : os.State → Bytes → Option Handle × os.State
  binlog_create s name = with_handle name (os.malloc s)

  unfoldable pub binlog_destroy : os.State → Handle → os.State
  binlog_destroy s h = os.free (os.close s h.fd) h.address
