-- ===== src/Tests/Fuse.antt =====
-- `bb_readdir` of cfs/src/bbfs.c on a directory with three entries and a buffer for one name.
use fusefs_block.Base.{Bool, true, false, List, [], ◌∷◌, CString}
use fusefs_block.Storage.{blocks_directory}
use fusefs_block.Fuse.Dir.{bb_readdir}
use fusefs_block.Fuse.Listing.{Lists, bb_readdir_lem}

abbrev room_for_one : List CString → CString → Bool
room_for_one [] name = false
room_for_one (_ ∷ _) name = true

abbrev names : List CString
names = (b'a' ∷ []) ∷ (b'b' ∷ []) ∷ []

bb_readdir_lem_example :
    Lists room_for_one []
      (blocks_directory ∷ names)
      (bb_readdir room_for_one (blocks_directory ∷ names) 0)
bb_readdir_lem_example = bb_readdir_lem room_for_one blocks_directory names 0
