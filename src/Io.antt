-- ===== src/Io.antt =====
-- cfs/src/io.c: calls that are made again after a signal, and reads and writes that go on until
-- all bytes are transferred. The unbounded loops take fuel.
pub mod Read
pub mod Write
pub mod Seek
pub mod Held
pub mod Opened
pub mod Contract
use fusefs_block.Base.{
  ℕ, zero, suc, ◌&&◌, none, List, [], ◌∷◌, ◌++◌, ltb, ◌-◌, ◌==◌, if◌then◌else◌, ℤ, pos, negsuc,
  ◌==ℤ◌, to_int, length, drop, Bool, Bytes, CString,
}
use fusefs_block.Posix.{Posix, ok, fail, eintr, Whence, M, pure, call, ◌>>=◌}

-- `-1`
abbrev pub minus_one : ℤ
minus_one = negsuc 0

module _ (os : Posix) where
  unfoldable pub file_exists : CString → M os.State Bool
  file_exists path = call (os.access_f_ok path)

  -- The result passes through `int ret`. A retry happens only after a failure with `EINTR`.
  unfoldable pub s_lseek : ℕ → ℤ → ℤ → Whence → M os.State ℤ
  s_lseek zero fd offset whence s = none
  s_lseek (suc fuel) fd offset whence s =
      let again = s_lseek fuel fd offset whence in
      (do
        r ← call (os.seek_file fd offset whence)
        elim r [
          | ok n ↦ pure (to_int (pos n))
          | fail errno ↦ if errno == eintr then again else pure minus_one
        ])
        s

  -- `bytes_left` and the bytes that are in `buf` already: `count - bytes_left` is their number.
  unfoldable pub s_read_loop : ℕ → ℤ → ℕ → Bytes → M os.State (ℤ × Bytes)
  s_read_loop zero fd bytes_left buf s = none
  s_read_loop (suc fuel) fd bytes_left buf s =
      (do
        r ← call (os.read_file fd bytes_left)
        elim r [
          | fail errno ↦
              let again = s_read_loop fuel fd bytes_left buf in
              if errno == eintr
              then (if ltb 0 bytes_left then again else pure (pos (length buf), buf))
              else pure (minus_one, buf)
          | ok bytes ↦
              let again = s_read_loop fuel fd (bytes_left - length bytes) (buf ++ bytes) in
              if ltb (length bytes) bytes_left && ltb 0 (length bytes)
              then again
              else pure (pos (length (buf ++ bytes)), buf ++ bytes)
        ])
        s

  -- The result, and the bytes put into the buffer.
  unfoldable pub s_read : ℕ → ℤ → ℕ → M os.State (ℤ × Bytes)
  unfolding s_read_loop
  s_read fuel fd count = s_read_loop fuel fd count []

  -- The bytes are those still to be written. The result is that of the last `write`.
  unfoldable pub s_write : ℕ → ℤ → Bytes → M os.State ℤ
  s_write zero fd buf s = none
  s_write (suc fuel) fd buf s =
      (do
        r ← call (os.write_file fd buf)
        elim r [
          | fail errno ↦
              let again = s_write fuel fd buf in
              if errno == eintr
              then (if ltb 0 (length buf) then again else pure minus_one)
              else pure minus_one
          | ok bytes_written ↦
              let again = s_write fuel fd (drop bytes_written buf) in
              if ltb bytes_written (length buf) then again else pure (pos bytes_written)
        ])
        s
