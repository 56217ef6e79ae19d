-- ===== src/Storage/Shared.antt =====
-- `store_block` of cfs/src/storage.c where the block may be stored already, as it is when files
-- share it.
use fusefs_block.Base.{
  ℕ, ◌+◌, ◌≤◌, ◌<◌, ◌≡◌, ◌≢◌, ◌⊎◌, inl, inr, refl, sym, true, false, none, some, ℤ, pos, is_neg,
  length, take, Bytes, CString,
}
use fusefs_block.Posix.{Posix}
use fusefs_block.Posix.View.{View, stored, put_file_self, put_file_ne}
use fusefs_block.Posix.Laws.{IsPosix}
use fusefs_block.Posix.Runs.{Runs}
use fusefs_block.Io.Write.{IsWhole}
use fusefs_block.Storage.{BlkStore, block_path, block_size}
use fusefs_block.Storage.Block.{store_block}
use fusefs_block.Storage.Refs.{block_file}
use fusefs_block.Storage.Blocks.{Runs-store_block_new, Runs-store_block_known}

-- The name of a block is free, or holds the same bytes.
abbrev pub Keeps : View → CString → Bytes → Type 0
Keeps v path bytes =
    (v.files path ≡ none) ⊎ ((refs : ℕ) × (v.files path ≡ some (block_file refs bytes)))

module _ (v : View) (path : CString) (bytes : Bytes) where
  abbrev pub after_store : Keeps v path bytes → View
  after_store (inl absent) = stored v path (some (block_file 1 bytes))
  after_store (inr known) = v

  abbrev pub refs_after : Keeps v path bytes → ℕ
  refs_after (inl absent) = 1
  refs_after (inr (refs, _)) = refs

  pub after_store_holds :
      (keeps : Keeps v path bytes)
      → (after_store keeps).files path ≡ some (block_file (refs_after keeps) bytes)
  after_store_holds (inl absent) = put_file_self path _ v.files
  after_store_holds (inr (refs, h)) = h

  pub after_store_other :
      (keeps : Keeps v path bytes) (p : CString)
      → p ≢ path
      → (after_store keeps).files p ≡ v.files p
  after_store_other (inl absent) p ne = put_file_ne path p _ v.files (λ e. ne (sym e))
  after_store_other (inr known) p ne = refl

  pub after_store-descriptors :
      (keeps : Keeps v path bytes) → (after_store keeps).descriptors ≡ v.descriptors
  after_store-descriptors (inl absent) = refl
  after_store-descriptors (inr known) = refl

  abbrev pub store_result : ℕ → Keeps v path bytes → ℤ
  store_result size (inl absent) = pos size
  store_result size (inr known) = pos 0

  pub store_result_well :
      (size : ℕ) (keeps : Keeps v path bytes) → is_neg (store_result size keeps) ≡ false
  store_result_well size (inl absent) = refl
  store_result_well size (inr known) = refl

module _ {os : Posix} (law : IsPosix os) (whole : IsWhole os) {signals : ℕ} (fuel : ℕ)
    (enough : block_size + signals < fuel) (storage : BlkStore) (hash : Bytes) (v : View)
    (usable : law.usable (block_path storage hash) ≡ true) (buffer : Bytes) (size : ℕ)
    (some_bytes : 0 < size) (le : size ≤ block_size) (fits : size ≤ length buffer) where
  pub Runs-store_block :
      (keeps : Keeps v (block_path storage hash) (take size buffer))
      → Runs law signals
          (store_block os fuel storage buffer size hash)
          v
          (store_result v (block_path storage hash) (take size buffer) size keeps)
          (after_store v (block_path storage hash) (take size buffer) keeps)
  Runs-store_block (inl absent) =
      Runs-store_block_new law whole fuel enough storage hash v usable buffer size absent some_bytes
        le fits
  Runs-store_block (inr (refs, h)) =
      Runs-store_block_known law whole fuel enough storage hash v usable buffer size h
