-- ===== src/Tests/Passed.antt =====
-- The callbacks of cfs/src/bbfs.c that pass requests on, on a system that writes down its calls,
-- and `main`.
use fusefs_block.Base.{
  ℕ, ◌≡◌, ◌↔◌, refl, true, some, arith, List, [], ◌∷◌, ◌++◌, length, replicate, pos, Bytes, CString,
}
use fusefs_block.Posix.{Sys, ok, fail}
use fusefs_block.Fuse.Call.{Call, Answer}
use fusefs_block.Fuse.Request
use fusefs_block.Fuse.Passed.{bb_readlink}
use fusefs_block.Fuse.Link.{bb_readlink_lem}
use fusefs_block.Fuse.Main.{main, fuse_main}
use fusefs_block.Fuse.Startup.{Mounts, Survives, main_lem}

-- Every call is written down, and fails.
abbrev writes_down : Call → List Call → Sys Answer × List Call
writes_down c s = (fail 13, c ∷ s)

abbrev root : CString
root = b'/' ∷ b'r' ∷ []

abbrev climbing : CString
climbing = b'/' ∷ b'.' ∷ b'.' ∷ []

-- A link to `ab`, whose text is put into a buffer of three bytes.
abbrev target : CString
target = b'a' ∷ b'b' ∷ []

abbrev reads_link : Call → ℕ → Sys Answer × ℕ
reads_link c s = (ok (record { value = 2; bytes = target }), s)

bb_readlink_lem_example :
    (rest : Bytes) × (s' : ℕ) × (bb_readlink reads_link root climbing (replicate 3 7) 3 0
      ≡ some ((pos 0, target ++ (0 ∷ rest)), s'))
    × (length (target ++ (0 ∷ rest)) ≡ 3)
bb_readlink_lem_example =
    bb_readlink_lem reads_link root climbing (replicate 3 7) 3 0 target refl (omega arith)
      (omega arith) refl (omega arith)

abbrev argv : List CString
argv = (b'b' ∷ []) ∷ (b'r' ∷ []) ∷ (b'm' ∷ []) ∷ []

main_lem_example :
    (main (λ p. some p) true (pos 1024) 1000 1000 argv
      ≡ fuse_main ((b'b' ∷ []) ∷ (b'm' ∷ []) ∷ []) (some (b'r' ∷ [])))
    ↔ ((front : List CString) × (dir : CString) × (mount : CString) × Mounts 1000 1000 argv front
          dir mount
        × (true ≡ true)
        × Survives (pos 1024) (some dir)
        × ((b'b' ∷ []) ∷ (b'm' ∷ []) ∷ [] ≡ front ++ (mount ∷ []))
        × (some (b'r' ∷ []) ≡ some dir))
main_lem_example =
    main_lem (λ p. some p) true (pos 1024) 1000 1000 argv ((b'b' ∷ []) ∷ (b'm' ∷ []) ∷ [])
      (some (b'r' ∷ []))
