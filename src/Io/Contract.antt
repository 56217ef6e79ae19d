-- ===== src/Io/Contract.antt =====
-- What `s_read` and `s_write` of cfs/src/io.c promise their callers.
use fusefs_block.Base.{ℕ, ◌+◌, ◌≤◌, ◌<◌, ◌≡◌, true, some, pos, length, take, drop, Bytes, CString}
use fusefs_block.Posix.{Posix}
use fusefs_block.Posix.View.{Descriptor, find_fd, can_read, can_write, moved}
use fusefs_block.Posix.Laws.{IsPosix}
use fusefs_block.Posix.Runs.{Ends}
use fusefs_block.Io.{s_read, s_write}
use fusefs_block.Io.Read.{Runs-s_read}
use fusefs_block.Io.Write.{IsWhole, written, Runs-s_write}

-- On a regular file that is open for reading, and with more fuel than bytes asked for and
-- pending signals together, `s_read` ends. Its result is the number of bytes read. They are the
-- `n` bytes from the offset on, or all up to the end of the file if there are fewer, whatever
-- short reads and interruptions happen on the way. The offset moves behind them, and nothing
-- else changes.
pub s_read_full :
    {os : Posix} (law : IsPosix os) (signals fuel fd n : ℕ) (s : os.State) (d : Descriptor)
    (p : CString) (c : Bytes)
    → find_fd fd (law.view s).descriptors ≡ some d
    → d.file ≡ some p
    → can_read d.access ≡ true
    → (law.view s).files p ≡ some c
    → law.pending s ≤ signals
    → n + signals < fuel
    → let bytes = take n (drop d.offset c) in
      Ends law signals
        (s_read os fuel (pos fd) n)
        s
        (pos (length bytes), bytes)
        (moved (law.view s) fd (d.offset + length bytes))
s_read_full law signals fuel fd n s d p c hd hp ha hc h f =
    (Runs-s_read law signals fd p c fuel n (law.view s) d hd hp ha hc f).from s (λ i. law.view s) h

-- As for `s_write_full`, on a system that takes all bytes of a call which is not interrupted:
-- the result is the number of bytes.
pub s_write_count :
    {os : Posix} (law : IsPosix os) (whole : IsWhole os) (signals fuel fd : ℕ) (buf : Bytes)
    (s : os.State) (d : Descriptor) (p : CString) (c : Bytes)
    → find_fd fd (law.view s).descriptors ≡ some d
    → d.file ≡ some p
    → can_write d.access ≡ true
    → (law.view s).files p ≡ some c
    → law.pending s ≤ signals
    → 0 < length buf
    → length buf + signals < fuel
    → Ends law signals
        (s_write os fuel (pos fd) buf)
        s
        (pos (length buf))
        (written (law.view s) fd d p c buf)
s_write_count law whole signals fuel fd buf s d p c hd hp ha hc h sl f =
    (Runs-s_write law whole fuel fd buf (law.view s) d p c hd hp ha hc sl f).from s
      (λ i. law.view s) h
