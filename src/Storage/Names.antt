-- ===== src/Storage/Names.antt =====
-- The names of block files, and the buffers of cfs/src/storage.c that hold them.
use mathlib.Core.List.{append_assoc}
use fusefs_block.Base.{
  ℕ, zero, suc, ◌+◌, ◌≤◌, ◌≡◌, ◌↔◌, refl, sym, ap, ◌∙◌, ◌≢◌, some, [], ◌∷◌, ◌++◌, arith, length,
  length-take, take, drop, drop-append, All, Bytes, CString, IsByte, Option,
}
use fusefs_block.Util.{combine, hexify, dir_separator}
use fusefs_block.Util.Combine.{length-combine, combine_joint, without_trailing}
use fusefs_block.Util.Hexify.{
  hex_text, hexify_lem, length-hex_text, unhex, unhex-hex_text, hex_text-without_leading,
}
use fusefs_block.Storage.{
  BlkStore, block_path, init_paths, blocks_path_size, blocks_directory, hash_length,
}

-- The text of a hash is that of its first 19 bytes.
block_path-hex_text :
    (storage : BlkStore) (hash : Bytes)
    → length hash ≡ hash_length
    → block_path storage hash ≡ combine (some storage.blocks_path) (some (hex_text (take 19 hash)))
block_path-hex_text storage hash h =
    path
    ∙ ap (λ (r : ℕ × Option CString). combine (some storage.blocks_path) r.1)
        (hexify_lem hash 20 40 (omega arith) (omega arith) (omega arith))
  where
    path : block_path storage hash ≡ combine (some storage.blocks_path) (hexify hash 20 40).1
    path = unfold block_path in refl

All-take : (n : ℕ) (xs : Bytes) → All IsByte xs → All IsByte (take n xs)
All-take zero xs h = tt
All-take (suc n) [] h = tt
All-take (suc n) (x ∷ xs) (hx, hs) = (hx, All-take n xs hs)

-- The directory, one separator, and 38 digits.
pub block_path-shape :
    (storage : BlkStore) (hash : Bytes)
    → storage.blocks_path ≢ []
    → length hash ≡ hash_length
    → All IsByte hash
    → block_path storage hash
      ≡ (without_trailing storage.blocks_path ++ (dir_separator ∷ [])) ++ hex_text (take 19 hash)
block_path-shape storage hash some_dir h bytes =
    block_path-hex_text storage hash h
    ∙ combine_joint storage.blocks_path (hex_text (take 19 hash)) some_dir nonempty
    ∙ ap (λ t. without_trailing storage.blocks_path ++ (dir_separator ∷ t))
        (hex_text-without_leading _ (All-take 19 hash bytes))
    ∙ sym (append_assoc (without_trailing storage.blocks_path) (dir_separator ∷ []) _)
  where
    nonempty : hex_text (take 19 hash) ≢ []
    nonempty e = omega (arith, ap length e, length-hex_text (take 19 hash), length-take 19 hash)

-- Two hashes name the same block file exactly when their first 19 bytes are equal: the last byte
-- of a hash does not reach the name. Both hashes have 20 bytes, and the path of the directory is
-- not empty.
pub block_path-eq_iff :
    (storage : BlkStore) (g h : Bytes)
    → storage.blocks_path ≢ []
    → length g ≡ hash_length
    → All IsByte g
    → length h ≡ hash_length
    → All IsByte h
    → (block_path storage g ≡ block_path storage h) ↔ (take 19 g ≡ take 19 h)
block_path-eq_iff storage g h some_dir lg bg lh bh = (same_front, same_name)
  where
    dir : CString
    dir = without_trailing storage.blocks_path ++ (dir_separator ∷ [])

    digits :
        block_path storage g ≡ block_path storage h → hex_text (take 19 g) ≡ hex_text (take 19 h)
    digits e =
        sym (drop-append (length dir) dir (hex_text (take 19 g)) refl)
        ∙ ap (drop (length dir)) (
            sym (block_path-shape storage g some_dir lg bg)
            ∙ e
            ∙ block_path-shape storage h some_dir lh bh)
        ∙ drop-append (length dir) dir (hex_text (take 19 h)) refl

    same_front : block_path storage g ≡ block_path storage h → take 19 g ≡ take 19 h
    same_front e =
        sym (unhex-hex_text _ (All-take 19 g bg))
        ∙ ap unhex (digits e)
        ∙ unhex-hex_text _ (All-take 19 h bh)

    same_name : take 19 g ≡ take 19 h → block_path storage g ≡ block_path storage h
    same_name e =
        block_path-hex_text storage g lg
        ∙ ap (λ t. combine (some storage.blocks_path) (some (hex_text t))) e
        ∙ sym (block_path-hex_text storage h lh)

-- For a root of any length and a hash of 20 bytes: the paths fit the buffers that `init_storage`
-- sizes, with their terminators.
pub paths_fit :
    (root : CString) (hash : Bytes)
    → length hash ≡ hash_length
    → (length (init_paths root).blocks_path + 1 ≤ blocks_path_size root)
      × (length (block_path (init_paths root) hash) + 1 ≤ (init_paths root).block_fname_size)
paths_fit root hash h =
    let dir = length-combine (some root) (some blocks_directory) in
    let file =
      length-combine (some (init_paths root).blocks_path) (some (hex_text (take 19 hash))) in
    (
      omega (arith, dir),
      rw (block_path-hex_text (init_paths root) hash h)
          (omega (arith, dir, file, length-hex_text (take 19 hash), length-take 19 hash)),
    )
