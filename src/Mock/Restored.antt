-- ===== src/Mock/Restored.antt =====
-- A function that src/mock.c replaced jumps to its replacement, and comes back as it was.
use cc_utils.Base.{
  ℕ, ◌+◌, ◌*◌, ◌≡◌, ◌≤◌, ◌<◌, ◌⊎◌, inl, inr, refl, ◌∙◌, Bool, true, false, [], ◌∷◌, length, arith,
  ltb, if◌then◌else◌, ◌%◌, ◌^◌, ◌-◌,
}
use cc_utils.Base.Outcome.{ok}
use cc_utils.Base.Int.{pos}
use cc_utils.Base.Bytes.{Bytes, word, length-word}
use cc_utils.Base.Memory.{
  put_byte, read_at, put_all, put_all-outside, put_all-read_at, length-read_at, read_at-put_all,
}
use cc_utils.Mock.{
  Pages, Mock, mock_jmpq, alignpage, distance, Machine, write_at, mprotect_write, mprotect_recovery,
  patch, set_behind, mock_set, reset_behind, mock_reset,
}

decide_within : (x a n : ℕ) → ((a ≤ x) × (x < a + n)) ⊎ (x < a ⊎ a + n ≤ x)
decide_within x a n = ground arith

decide_ahead : (fn mock_fn : ℕ) → (fn + 5 ≤ mock_fn) ⊎ (mock_fn < fn + 5)
decide_ahead fn mock_fn = ground arith

-- Where the processor goes from a relative jump with a displacement of 32 bits, which it takes with its
-- sign, in front of the instruction at `next`.
abbrev pub target : ℕ → ℕ → ℕ
target next d =
    if ltb d (2 ^ 31) then (next + d) % 2 ^ 64 else (next + d + 2 ^ 64 - 2 ^ 32) % 2 ^ 64

module _ (os : Pages) where
  -- A write within a page that is writable.
  write_at-put_all :
      (m : Machine os) (k a : ℕ) (bs : Bytes)
      → os.writable m.pages (k * 4096) ≡ true
      → k * 4096 ≤ a
      → a + length bs ≤ k * 4096 + 4096
      → write_at os m a bs ≡ ok (record { bytes = put_all m.bytes a bs; pages = m.pages })
  unfolding write_at
  write_at-put_all m k a [] w low high = refl
  write_at-put_all m k a (b ∷ bs) w low high =
      let page : alignpage a ≡ k * 4096 = omega arith in
      rw (page, w)
        (write_at-put_all (record m { bytes = put_byte m.bytes a b }) k (a + 1) bs w (omega arith)
          (omega arith))

  -- mprotect() succeeds.
  abbrev pub Grants : Type 0
  Grants =
      (s : os.State) (page : ℕ) (write : Bool)
      → (s' : os.State) × (os.mprotect s page write ≡ (pos 0, s'))

  -- The jump that is written at fn.
  abbrev jump : ℕ → ℕ → Bytes
  jump fn mock_fn = mock_jmpq ∷ word 4 (distance os fn mock_fn)

  -- What mock_set keeps.
  abbrev kept : Machine os → Mock → ℕ → Mock
  kept m k fn = record { fn = fn; mock = read_at m.bytes fn k.len; len = k.len }

  patch-jump :
      (m : Machine os) (k : Mock) (fn mock_fn page : ℕ)
      → os.writable m.pages (page * 4096) ≡ true
      → page * 4096 ≤ fn
      → fn + 5 ≤ page * 4096 + 4096
      → patch os m k fn mock_fn
        ≡ ok (kept m k fn, record { bytes = put_all m.bytes fn (jump fn mock_fn); pages = m.pages })
  unfolding patch
  patch-jump m k fn mock_fn page w low high =
      let first = write_at-put_all m page fn (mock_jmpq ∷ []) w low (omega arith) in
      let rest =
        write_at-put_all (record m { bytes = put_byte m.bytes fn mock_jmpq }) page (fn + 1)
          (word 4 (distance os fn mock_fn)) w (omega arith)
          (rw (length-word 4 (distance os fn mock_fn)) (omega arith)) in
      rw (first, rest) refl

  mock_set-jump :
      (m : Machine os) (k : Mock) (fn mock_fn page : ℕ)
      → Grants
      → page * 4096 ≤ fn
      → fn + 5 ≤ page * 4096 + 4096
      → (s : os.State) × (mock_set os m k fn mock_fn
          ≡ ok (
            pos 0,
            kept m k fn,
            record { bytes = put_all m.bytes fn (jump fn mock_fn); pages = s },
          ))
  unfolding mock_set set_behind mprotect_write mprotect_recovery
  mock_set-jump m k fn mock_fn page grants low high =
      let start : alignpage fn ≡ page * 4096 = omega arith in
      let (s, writes) = grants m.pages (page * 4096) true in
      let (s', back) = grants s (page * 4096) false in
      let w = os.granted m.pages s (page * 4096) true writes in
      let patched = patch-jump (record m { pages = s }) k fn mock_fn page w low high in
      (s', rw (start, writes, patched, back) refl)

  mock_reset-put_all :
      (m : Machine os) (k : Mock) (page : ℕ)
      → Grants
      → page * 4096 ≤ k.fn
      → k.fn < page * 4096 + 4096
      → k.fn + length k.mock ≤ page * 4096 + 4096
      → (s : os.State) × (mock_reset os m k
          ≡ ok (pos 0, record { bytes = put_all m.bytes k.fn k.mock; pages = s }))
  unfolding mock_reset reset_behind mprotect_write mprotect_recovery
  mock_reset-put_all m k page grants low below high =
      let start : alignpage k.fn ≡ page * 4096 = omega arith in
      let (s, writes) = grants m.pages (page * 4096) true in
      let (s', back) = grants s (page * 4096) false in
      let w = os.granted m.pages s (page * 4096) true writes in
      let restored = write_at-put_all (record m { pages = s }) page k.fn k.mock w low high in
      (s', rw (start, writes, restored, back) refl)

  restored :
      (m : Machine os) (k : Mock) (fn mock_fn : ℕ)
      → 5 ≤ k.len
      → (x : ℕ)
      → put_all (put_all m.bytes fn (jump fn mock_fn)) fn (read_at m.bytes fn k.len) x ≡ m.bytes x
  restored m k fn mock_fn long x =
      let size = length-read_at m.bytes fn k.len in
      let written = put_all m.bytes fn (jump fn mock_fn) in
      elim (decide_within x fn k.len) [
        | inl (low, high) ↦ put_all-read_at written m.bytes fn k.len x low high
        | inr out ↦
            put_all-outside written fn (read_at m.bytes fn k.len) x (rw size out)
            ∙ put_all-outside m.bytes fn (jump fn mock_fn) x (ground (arith, out))
      ]

  distance-target :
      (fn mock_fn : ℕ)
      → fn + 5 < 2 ^ 64
      → mock_fn < 2 ^ 64
      → mock_fn < fn + 5 + 2 ^ 31
      → fn + 5 ≤ mock_fn + 2 ^ 31
      → target (fn + 5) (distance os fn mock_fn) ≡ mock_fn
  distance-target fn mock_fn a b high low = elim (decide_ahead fn mock_fn) [
    | inl ahead ↦
        let d : distance os fn mock_fn ≡ mock_fn - (fn + 5) = omega arith in rw d (ground arith)
    | inr back ↦
        let d : distance os fn mock_fn ≡ 2 ^ 32 - (fn + 5 - mock_fn) = omega arith in
        rw d (ground arith)
  ]

  -- Where mprotect() succeeds, the function's first bytes, the kept ones and at least the five of the jump,
  -- lie in one page, and the replacement is within 2^31 bytes of the function's byte 5, mock_set returns 0
  -- with a jump at the function (the byte e9 and a displacement of four bytes) whose target, as the
  -- processor takes it, is the replacement, and mock_reset then returns 0 with every byte of the memory as
  -- it was before.
  pub mock_reset-mock_set :
      (m : Machine os) (k : Mock) (fn mock_fn page : ℕ)
      → Grants
      → page * 4096 ≤ fn
      → fn + k.len ≤ page * 4096 + 4096
      → 5 ≤ k.len
      → fn + 5 < 2 ^ 64
      → mock_fn < 2 ^ 64
      → mock_fn < fn + 5 + 2 ^ 31
      → fn + 5 ≤ mock_fn + 2 ^ 31
      → (k' : Mock) × (m₁ m₂ : Machine os) × (mock_set os m k fn mock_fn ≡ ok (pos 0, k', m₁))
        × ((d : ℕ) × (read_at m₁.bytes fn 5 ≡ 0xe9 ∷ word 4 d)
            × (d < 2 ^ 32)
            × (target (fn + 5) d ≡ mock_fn))
        × (mock_reset os m₁ k' ≡ ok (pos 0, m₂))
        × ((x : ℕ) → m₂.bytes x ≡ m.bytes x)
  mock_reset-mock_set m k fn mock_fn page grants low high long a b near far =
      let (s, set) = mock_set-jump m k fn mock_fn page grants low (omega arith) in
      let size = length-read_at m.bytes fn k.len in
      let m₁ : Machine os = record { bytes = put_all m.bytes fn (jump fn mock_fn); pages = s } in
      let (s', reset) =
        mock_reset-put_all m₁ (kept m k fn) page grants low (omega arith) (rw size high) in
      (
        kept m k fn,
        m₁,
        record { bytes = put_all m₁.bytes fn (read_at m.bytes fn k.len); pages = s' },
        set,
        (
          distance os fn mock_fn,
          read_at-put_all m.bytes fn (jump fn mock_fn),
          omega arith,
          distance-target fn mock_fn a b near far,
        ),
        reset,
        restored m k fn mock_fn long,
      )
