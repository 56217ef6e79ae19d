-- ===== src/Tests/ReadInside.antt =====
-- `bb_read` of cfs/src/bbfs.c inside a stored block, on a system in memory.
use fusefs_block.Base.{ℕ, refl, sym, ◌∙◌, none, some, [], ◌∷◌, arith, pos, Bytes}
use fusefs_block.Posix.View.{View, overwrite, find_fd, put_file, put_file_self, put_file_ne}
use fusefs_block.Posix.Runs.{Ends}
use fusefs_block.Posix.Memory.{memory_os, memory_os-IsPosix}
use fusefs_block.Io.Opened.{IsOpened, at_file}
use fusefs_block.Storage.Refs.{block_file}
use fusefs_block.Cfs.Image.{image_bytes}
use fusefs_block.Fuse.Data.{bb_read}
use fusefs_block.Fuse.Reading.{IsStored}
use fusefs_block.Fuse.Reading.Inside.{bb_read_inside}
use fusefs_block.Tests.Whole.{whole_memory}
use fusefs_block.Tests.Blocks.{
  path, storage, old_hash, image, file, garbage, at_end, view, file-Shows, old_path, apart_old,
}
use fusefs_block.Tests.Present.{present}
use fusefs_block.Tests.Write.{table, registered}

abbrev six : Bytes
six = 1 ∷ 2 ∷ 3 ∷ 4 ∷ 5 ∷ 6 ∷ []

abbrev six_view : View
six_view = record view { files = put_file old_path (some (block_file 1 six)) view.files }

six-IsOpened : IsOpened six_view 3 path at_end
unfolding find_fd
six-IsOpened = record { found = refl; path_same = refl; reads = refl; writes = refl }

six-IsStored : IsStored (memory_os-IsPosix none none) six_view storage path image 5 six
six-IsStored = record {
  hash = old_hash;
  refs = 1;
  found = present;
  hash_length = refl;
  usable = refl;
  apart = apart_old;
  known = put_file_self old_path _ _;
  some_bytes = omega arith;
  fits = omega arith;
}

-- Four bytes are asked for behind the first two, and two are read.
bb_read_inside_example :
    (o : ℕ) × Ends
      (memory_os-IsPosix none none)
      2
      (bb_read (memory_os none none) 5000 garbage table (pos 3) (9 ∷ 9 ∷ 9 ∷ 9 ∷ []) 4 20482)
      (record { shown = six_view; signals = 2 })
      (pos 4094, overwrite (9 ∷ 9 ∷ 9 ∷ 9 ∷ []) 0 (3 ∷ 4 ∷ []))
      (at_file six_view 3 path (image_bytes image) o)
bb_read_inside_example =
    bb_read_inside (memory_os-IsPosix none none) (whole_memory none) {signals = 2} 5000
      (omega arith) six_view 3 path at_end six-IsOpened garbage table file image file-Shows
      (omega arith) (record { hash_length = refl; passed = refl })
      (record { shown = six_view; signals = 2 }) (9 ∷ 9 ∷ 9 ∷ 9 ∷ []) 4 2 5 six registered refl
      (put_file_ne old_path path _ _ (λ e. apart_old (sym e)) ∙ put_file_self _ _ _) six-IsStored
      (omega arith) (omega arith) (omega arith) (omega arith)
