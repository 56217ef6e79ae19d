-- ===== src/Fuse/Dir.antt =====
-- The directory callbacks of cfs/src/bbfs.c, which hide the directory of the block store.
use fusefs_block.Base.{
  ℕ, Bool, true, false, Option, none, some, List, [], ◌∷◌, ◌++◌, if◌then◌else◌, ℤ, pos, negsuc,
  CString, bytes_eq,
}
use fusefs_block.Log.{log_error}
use fusefs_block.Storage.{blocks_directory}

-- The result with the names that the filler has accepted. `full` is whether the filler returns
-- something other than 0 after the names before.
unfoldable pub readdir_loop :
    (List CString → CString → Bool) → List CString → List CString → ℤ × List CString
readdir_loop full given [] = (pos 0, given)
readdir_loop full given (name ∷ names) = elim (bytes_eq name blocks_directory) [
  | true ↦ readdir_loop full given names
  | false ↦ elim (full given name) [
    | true ↦ (negsuc 11, given)
    | false ↦ readdir_loop full (given ++ (name ∷ [])) names
  ]
]

-- The list is what the calls of `readdir` return, `errno` is set if the first returns null.
unfoldable pub bb_readdir : (List CString → CString → Bool) → List CString → ℕ → ℤ × List CString
unfolding readdir_loop
bb_readdir full [] errno = (log_error errno, [])
bb_readdir full (name ∷ names) errno = readdir_loop full [] (name ∷ names)

-- `opened` is the pointer that `opendir` returns for the full path, or `errno`. The results are
-- the status and `fi->fh`, where it is set.
pub data DirResult : Type 0 where
  dir : ℕ → DirResult
  null : ℕ → DirResult

unfoldable pub bb_opendir : CString → DirResult → ℤ × Option ℕ
bb_opendir path opened =
    if bytes_eq path blocks_directory
    then (negsuc 1, none)
    else elim opened [ dir dp ↦ (pos 0, some dp) | null errno ↦ (log_error errno, some 0) ]
