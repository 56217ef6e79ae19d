-- ===== src/Tests/Present.antt =====
-- A block at an index that the file has, on a system in memory.
use fusefs_block.Base.{ℕ, ◌∙◌, ◌≡◌, ◌≢◌, refl, sym, none, some, inl, [], ◌∷◌, arith, pos, to_size}
use fusefs_block.Posix.{◌>>=◌}
use fusefs_block.Posix.View.{View, find_fd, put_file, put_file_self, put_file_ne}
use fusefs_block.Posix.Runs.{Ends}
use fusefs_block.Posix.Memory.{memory_os, memory_os-IsPosix}
use fusefs_block.Io.Opened.{IsOpened, at_file}
use fusefs_block.Util.{calculate_hash}
use fusefs_block.Storage.{block_path}
use fusefs_block.Storage.Refs.{block_file}
use fusefs_block.Storage.Shared.{Keeps, after_store}
use fusefs_block.Cfs.Blocks.{resized, cfs_file_register_block, cfs_file_read_block}
use fusefs_block.Cfs.Image.{image_bytes, find_pair}
use fusefs_block.Cfs.Load.{filled}
use fusefs_block.Cfs.Replace.{with_size}
use fusefs_block.Cfs.Contract.{hash_of, IsWritable}
use fusefs_block.Cfs.Present.{read-register_present}
use fusefs_block.Tests.Whole.{whole_memory}
use fusefs_block.Tests.Blocks.{
  path, storage, old_hash, image, file, garbage, sha1, at_end, view, new_block, file-Shows,
  new_path, old_path, differ, apart, apart_old,
}

-- The store holds the block of the pair.
abbrev pub known_view : View
known_view = record view { files = put_file old_path (some (block_file 1 (90 ∷ []))) view.files }

pub known-IsOpened : IsOpened known_view 3 path at_end
unfolding find_fd
known-IsOpened = record { found = refl; path_same = refl; reads = refl; writes = refl }

present-IsWritable :
    IsWritable storage (new_block (pos 5)) (hash_of sha1 (new_block (pos 5))) path 9 image
unfolding calculate_hash to_size
present-IsWritable = record {
  some_bytes = omega arith;
  at_most = omega arith;
  within = omega arith;
  pair = record { hash_length = refl; index_fits = refl; word_fits = omega arith };
  apart = apart;
  fits = omega arith;
  small = omega arith;
}

name_free : Keeps known_view (block_path storage (hash_of sha1 (new_block (pos 5)))) (65 ∷ 66 ∷ [])
unfolding calculate_hash
name_free = inl (put_file_ne old_path new_path _ _ differ ∙ put_file_ne path new_path _ _ apart)

pub present : find_pair (pos 5) image.pairs ≡ some old_hash
unfolding find_pair
present = refl

differ_hash : old_path ≢ block_path storage (hash_of sha1 (new_block (pos 5)))
unfolding calculate_hash
differ_hash = differ

read-register_present_example :
    (o : ℕ) × Ends
      (memory_os-IsPosix none none)
      2
      (cfs_file_register_block
          (memory_os none none)
          5000
          sha1
          garbage
          storage
          file
          (new_block (pos 5))
        >>= λ r.
            cfs_file_read_block
              (memory_os none none)
              5000
              garbage
              storage
              r.1
              (pos 5)
              (new_block (pos 0)))
      (record { shown = known_view; signals = 2 })
      (pos 1, filled (new_block (pos 0)) (pos 5) (90 ∷ []))
      (at_file
        (after_store known_view
          (block_path storage (hash_of sha1 (new_block (pos 5))))
          (65 ∷ 66 ∷ [])
          name_free)
        3
        path
        (image_bytes (with_size image (resized file (pos 9) 2).size))
        o)
read-register_present_example =
    read-register_present (memory_os-IsPosix none none) (whole_memory none) 2 5000 (omega arith)
      sha1 storage garbage file image 9 3 path at_end (new_block (pos 5)) file-Shows (omega arith)
      refl present-IsWritable (record { shown = known_view; signals = 2 }) (new_block (pos 0))
      old_hash 1 (90 ∷ []) present refl refl apart_old differ_hash
      (record { held = put_file_self _ _ _; some_bytes = omega arith; at_most = omega arith })
      known-IsOpened (put_file_ne old_path path _ _ (λ e. apart_old (sym e)) ∙ put_file_self _ _ _)
      name_free (record { hash_length = refl; passed = refl }) refl (omega arith)
