-- ===== src/Fuse/Link.antt =====
-- What `bb_readlink` of cfs/src/bbfs.c leaves in its buffer.
use fusefs_block.Base.{
  ℕ, ◌-◌, ◌^◌, ◌≤◌, ◌<◌, ◌≡◌, refl, ap, ◌∙◌, some, arith, [], ◌∷◌, ◌++◌, pos, set, set-append,
  length, length-append, drop, length-drop, Bytes, CString,
}
use fusefs_block.Posix.{Sys, ok, pure, call, ◌>>=◌}
use fusefs_block.Log.{log_syscall}
use fusefs_block.Cfs.{overlay}
use fusefs_block.Fuse.{bb_fullpath}
use fusefs_block.Fuse.Call.{Call, Answer, readlink, value_of, bytes_of}
use fusefs_block.Fuse.Passed.{end_link, size_less_one, bb_readlink}

-- There is room behind the target for the terminator.
end_target :
    (target buf : Bytes)
    → length target < length buf
    → (rest : Bytes) × (set (overlay buf target) (length target) 0 ≡ target ++ (0 ∷ rest))
      × (length (target ++ (0 ∷ rest)) ≡ length buf)
unfolding overlay
end_target target buf room = go (drop (length target) buf) (length-drop (length target) buf)
  where
    go :
        (left : Bytes)
        → length left ≡ length buf - length target
        → (rest : Bytes) × (set (target ++ left) (length target) 0 ≡ target ++ (0 ∷ rest))
          × (length (target ++ (0 ∷ rest)) ≡ length buf)
    go [] e = absurd (omega arith)
    go (b ∷ rest) e =
        (rest, set-append target rest b 0, omega (arith, length-append target (0 ∷ rest)))

-- Where the system puts the target of a link, or the start of it, into no more room than it is
-- told, and returns its length, `bb_readlink` with a buffer of at least one byte returns 0, and
-- the buffer holds what was put there, followed by a NUL inside the buffer.
pub bb_readlink_lem :
    {S : Type 0} (perform : Call → S → Sys Answer × S) (rootdir path : CString) (buf : Bytes)
    (size : ℕ) (s : S) (target : Bytes)
    → length buf ≡ size
    → 0 < size
    → size < 2 ^ 64
    → (perform (readlink (bb_fullpath rootdir path) (size - 1)) s).0
      ≡ ok (record { value = length target; bytes = target })
    → length target ≤ size - 1
    → (rest : Bytes) × (s' : S) × (bb_readlink perform rootdir path buf size s
        ≡ some ((pos 0, target ++ (0 ∷ rest)), s'))
      × (length (target ++ (0 ∷ rest)) ≡ size)
unfolding bb_readlink call ◌>>=◌ pure bytes_of
bb_readlink_lem perform rootdir path buf size s target room some_room small answer fits =
    let less : size_less_one size ≡ size - 1 = omega arith in
    let (rest, ends, long) = end_target target buf (omega arith) in
    (
      rest,
      (perform (readlink (bb_fullpath rootdir path) (size_less_one size)) s).1,
      ap (λ r. some (r, (perform (readlink (bb_fullpath rootdir path) (size_less_one size)) s).1))
          (ap (λ a. end_link (log_syscall (value_of a)) (overlay buf (bytes_of a)))
              (ap (λ n. (perform (readlink (bb_fullpath rootdir path) n) s).0) less ∙ answer)
            ∙ ended
            ∙ ap (λ t. (pos 0, t)) ends),
      long ∙ room,
    )
  where
    ended :
        end_link
          (log_syscall (value_of (ok (record { value = length target; bytes = target }))))
          (overlay buf target)
        ≡ (pos 0, set (overlay buf target) (length target) 0)
    ended = unfold end_link log_syscall value_of in refl
