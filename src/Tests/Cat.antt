-- ===== src/Tests/Cat.antt =====
-- cfs/src/cfscat.c on a file with two pairs, on a system in memory.
use fusefs_block.Base.{
  true, ◌≡◌, refl, none, some, arith, [], ◌∷◌, pos, negsuc, to_size, replicate, CString,
}
use fusefs_block.Posix.{rd_only}
use fusefs_block.Posix.View.{View, put_file, put_file_self}
use fusefs_block.Posix.Runs.{Ends}
use fusefs_block.Posix.Memory.{Memory, memory_os, memory_os-IsPosix, next_fd}
use fusefs_block.Io.Held.{holding}
use fusefs_block.Util.{combine}
use fusefs_block.Storage.{BlkStore}
use fusefs_block.Cfs.{CfsFile, CfsState, Garbage}
use fusefs_block.Cfs.Table.{initial_state, cfs_get_file}
use fusefs_block.Cfs.Invariant.{initial-IsTable}
use fusefs_block.Cfs.Image.{Image, image_bytes}
use fusefs_block.Cfscat.{printed, list_file}
use fusefs_block.Cfscat.Lines.{lines_of}
use fusefs_block.Cfscat.Listing.{IsImage, list_file_lem}

abbrev root : CString
root = b'/' ∷ b'r' ∷ []

abbrev name : CString
name = b'f' ∷ []

abbrev path : CString
path = combine (some root) (some name)

abbrev image : Image
image = record {
  size = pos 9;
  pairs =
      record { index = pos 5; hash = replicate 20 1 }
      ∷ record { index = pos 2; hash = replicate 20 3 }
      ∷ [];
}

image-IsImage : IsImage image
unfolding to_size
image-IsImage = record {
  size_fits = refl;
  word_fits = omega arith;
  pairs_fit = (
    record { hash_length = refl; index_fits = refl; word_fits = omega arith },
    (record { hash_length = refl; index_fits = refl; word_fits = omega arith }, tt),
  );
  small = omega arith;
}

abbrev view : View
view = record { files = put_file path (some (image_bytes image)) (λ p. none); descriptors = [] }

abbrev memory : Memory
memory = record { shown = view; signals = 2 }

abbrev storage : BlkStore
storage = record { root_path = []; blocks_path = []; block_fname_size = 54 }

abbrev some_file : CfsFile
some_file = record { path = []; offset = pos 1; size = negsuc 4; total_blocks = pos 7; fd = pos 4 }

abbrev garbage : Garbage
garbage = record {
  file = some_file;
  fd = pos 0;
  index = pos 5;
  hash = replicate 20 0;
  magic_buff = [];
  refs_valid = true;
  sign_extended = true;
}

abbrev start : CfsState
start = initial_state garbage (pos 1024) storage

none_open : cfs_get_file start (pos (next_fd [])) ≡ none
unfolding cfs_get_file initial_state next_fd
none_open = refl

list_file_lem_example :
    Ends
      (memory_os-IsPosix (some 3) none)
      2
      (list_file (memory_os (some 3) none) 30 garbage start root name)
      memory
      (printed (pos 9) (pos 2) (lines_of image.pairs))
      (holding view 3 path rd_only 79)
unfolding next_fd initial_state
list_file_lem_example =
    list_file_lem (memory_os-IsPosix (some 3) none) 2 30 garbage start root name image image-IsImage
      (initial-IsTable garbage (pos 1024) storage) (omega arith) refl (omega arith) refl memory
      (put_file_self _ _ _) none_open (omega arith)
