-- ===== src/Binlog/Laws/Held.antt =====
-- What binlog_create of src/binlog/binlog.c takes of the system is given back.
use cc_utils.Base.{
  ℕ, ◌≡◌, refl, ◌∙◌, Bool-cases, inl, inr, Option, none, some, List, ◌∷◌, ◌++◌, ltb, ◌⊎◌, length,
}
use cc_utils.Base.Bytes.{Bytes}
use cc_utils.Binlog.Handle.{
  Handle, System, log_dir, name_size, open_log, with_handle, binlog_create, binlog_destroy,
}

-- The blocks and the descriptors that the process holds, the newest in front, and what the system's
-- calls are documented to do to them.
pub record Holdings (os : System) : Type 0 where
  pub blocks : os.State → List ℕ
  pub fds : os.State → List ℕ
  pub malloc_none :
      (s s' : os.State) → os.malloc s ≡ (none, s') → (blocks s' ≡ blocks s) × (fds s' ≡ fds s)
  pub malloc_some :
      (s s' : os.State) (a : ℕ)
      → os.malloc s ≡ (some a, s')
      → (blocks s' ≡ a ∷ blocks s) × (fds s' ≡ fds s)
  pub open_failed :
      (s s' : os.State) (path : Bytes) (errno : ℕ)
      → os.open_file s path ≡ (inl errno, s')
      → (blocks s' ≡ blocks s) × (fds s' ≡ fds s)
  pub open_done :
      (s s' : os.State) (path : Bytes) (fd : ℕ)
      → os.open_file s path ≡ (inr fd, s')
      → (blocks s' ≡ blocks s) × (fds s' ≡ fd ∷ fds s)
  pub freed :
      (s : os.State) (a : ℕ) (rest : List ℕ)
      → blocks s ≡ a ∷ rest
      → (blocks (os.free s a) ≡ rest) × (fds (os.free s a) ≡ fds s)
  pub closed :
      (s : os.State) (fd : ℕ) (rest : List ℕ)
      → fds s ≡ fd ∷ rest
      → (blocks (os.close s fd) ≡ blocks s) × (fds (os.close s fd) ≡ rest)

module _ (os : System) (holds : Holdings os) where
  -- The process holds what it held before.
  abbrev pub Same : os.State → os.State → Type 0
  Same s s' = (holds.blocks s' ≡ holds.blocks s) × (holds.fds s' ≡ holds.fds s)

  -- A log that was created is destroyed.
  abbrev pub given_back : Option Handle × os.State → os.State
  given_back (none, s) = s
  given_back (some h, s) = binlog_destroy os s h

  open_log-Same :
      (s s₁ : os.State) (address : ℕ) (name path : Bytes) (r : ℕ ⊎ ℕ) (s₂ : os.State)
      → os.open_file s₁ path ≡ (r, s₂)
      → (holds.blocks s₁ ≡ address ∷ holds.blocks s) × (holds.fds s₁ ≡ holds.fds s)
      → Same s (given_back (open_log os address name (r, s₂)))
  unfolding open_log binlog_destroy
  open_log-Same s s₁ address name path (inl errno) s₂ e (blocks, fds) =
      let (b, f) = holds.open_failed s₁ s₂ path errno e in
      let (b', f') = holds.freed s₂ address (holds.blocks s) (b ∙ blocks) in (b', f' ∙ f ∙ fds)
  open_log-Same s s₁ address name path (inr fd) s₂ e (blocks, fds) =
      let (b, f) = holds.open_done s₁ s₂ path fd e in
      let (b', f') = holds.closed s₂ fd (holds.fds s₁) f in
      let (b'', f'') = holds.freed (os.close s₂ fd) address (holds.blocks s) (b' ∙ b ∙ blocks) in
      (b'', f'' ∙ f' ∙ fds)

  with_handle-Same :
      (s : os.State) (name : Bytes) (r : Option ℕ) (s₁ : os.State)
      → os.malloc s ≡ (r, s₁)
      → Same s (given_back (with_handle os name (r, s₁)))
  unfolding with_handle
  with_handle-Same s name none s₁ e = holds.malloc_none s s₁ e
  with_handle-Same s name (some address) s₁ e =
      let path = log_dir ++ name in
      let (b, f) = holds.malloc_some s s₁ address e in
      elim (Bool-cases (ltb (length path) name_size)) [
        | inl fits ↦ rw fits (
            open_log-Same s s₁ address path path (os.open_file s₁ path).0 (os.open_file s₁ path).1
              refl (b, f))
        | inr long ↦
            let (b', f') = holds.freed s₁ address (holds.blocks s) b in rw long (b', f' ∙ f)
      ]

  -- Where binlog_create returns NULL, whatever failed, the process holds the blocks and the
  -- descriptors that it held before, and where it returns a handle, it does so once binlog_destroy
  -- was called.
  pub binlog_destroy-binlog_create :
      (s : os.State) (name : Bytes) → Same s (given_back (binlog_create os s name))
  unfolding binlog_create
  binlog_destroy-binlog_create s name = with_handle-Same s name (os.malloc s).0 (os.malloc s).1 refl
