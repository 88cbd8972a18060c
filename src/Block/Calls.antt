-- ===== src/Block/Calls.antt =====
-- What a successful call of the block device has done.
use ferros.Prelude.{ℕ, ◌≡◌, ◌≢◌, sym, ap, ◌∙◌, ok, Bytes, length}
use ferros.Block.{BlockDevice, Laws, sector_size}

module _ (d : BlockDevice) (laws : Laws d) where
  pub read-image :
      (i : ℕ) (s s' : d.Dev) (b : Bytes)
      → d.read_sector i s ≡ (ok b, s')
      → (b ≡ laws.image s i) × ((j : ℕ) → laws.image s' j ≡ laws.image s j)
  read-image i s s' b e = (
    laws.read-ok s i (ap (λ r. r.0) e),
    λ j. sym (ap (λ r. laws.image r.1 j) e) ∙ laws.image-read s i j,
  )

  pub write-image :
      (i : ℕ) (b : Bytes) (s s' : d.Dev)
      → length b ≡ sector_size
      → d.write_sector i b s ≡ (ok tt, s')
      → (laws.image s' i ≡ b) × ((j : ℕ) → i ≢ j → laws.image s' j ≡ laws.image s j)
  write-image i b s s' h e = (
    sym (ap (λ r. laws.image r.1 i) e) ∙ laws.write-ok s i b h (ap (λ r. r.0) e),
    λ j ne. sym (ap (λ r. laws.image r.1 j) e) ∙ laws.image-write_ne s i j b ne,
  )
