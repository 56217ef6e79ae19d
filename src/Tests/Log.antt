-- ===== src/Tests/Log.antt =====
-- The logging of cfs/src on a system that keeps what is printed in memory.
use fusefs_block.Base.{
  ℕ, ◌+◌, ◌≡◌, ◌≢◌, refl, List, [], ◌∷◌, ◌++◌, some, ◌==◌, sym, ◌∙◌, ==_refl, ==_iff, Bool-cases,
  inl, inr, if◌then◌else◌, pos, ◌-ℤ◌, negsuc, CString, arith,
}
use mathlib.Core.List.{append-nil}
use fusefs_block.Posix.{fail}
use fusefs_block.Log.{log_syscall}
use fusefs_block.Log.Stdio.{Stdio, IsStdio, Message}
use fusefs_block.Log.Report
use fusefs_block.Log.Report.{BbState}
use fusefs_block.Log.Names.{
  names_bytes, name_lines, length_line, log_attributes, log_attributes_lem,
}
use fusefs_block.Log.Contract.{report, log_syscall_lem}
use fusefs_block.Tests.Write.{table}

record Printed : Type 0 where
  errno : ℕ
  out : List (ℕ × Message)

abbrev lines_of : ℕ → List (ℕ × Message) → List Message
lines_of f [] = []
lines_of f ((g, l) ∷ out) = if f == g then l ∷ lines_of f out else lines_of f out

-- Printing adds `noise` to `errno`.
abbrev memory_io : ℕ → Stdio
memory_io noise = record {
  State = Printed;
  Stream = ℕ;
  stdout = 0;
  errno = λ s. s.errno;
  set_errno = λ n s. record s { errno = n };
  strerror = λ n. n ∷ [];
  vfprintf = λ f l s. record { errno = s.errno + noise; out = s.out ++ ((f, l) ∷ []) };
  fopen = λ path mode s. (some 1, s);
  perror = λ prefix s. s;
  set_line_buffered = λ f s. s;
}

lines_of-append :
    (f g : ℕ) (l : Message) (out : List (ℕ × Message))
    → lines_of f (out ++ ((g, l) ∷ [])) ≡ lines_of f out ++ lines_of f ((g, l) ∷ [])
lines_of-append f g l [] = refl
lines_of-append f g l ((h, k) ∷ out) = ground (arith, lines_of-append f g l out)

own_line :
    (f : ℕ) (l : Message) (out : List (ℕ × Message))
    → lines_of f (out ++ ((f, l) ∷ [])) ≡ lines_of f out ++ (l ∷ [])
own_line f l out = rw (lines_of-append f f l out, ==_refl f) refl

other_line :
    (f g : ℕ) (l : Message) (out : List (ℕ × Message))
    → f ≢ g
    → lines_of g (out ++ ((f, l) ∷ [])) ≡ lines_of g out
other_line f g l out ne = lines_of-append g f l out ∙ elim (Bool-cases (g == f)) [
  | inl e ↦ absurd (ne (sym ((==_iff g f).0 e)))
  | inr e ↦ rw e (append-nil (lines_of g out))
]

abbrev memory_io-IsStdio : (noise : ℕ) → IsStdio (memory_io noise)
memory_io-IsStdio noise = record {
  lines = λ f s. lines_of f s.out;
  errno-set = λ n s. refl;
  lines-set = λ f n s. refl;
  lines-print = λ f l s. own_line f l s.out;
  lines-print_ne = λ f g l s ne. other_line f g l s.out ne;
}

abbrev bb_data : (noise : ℕ) → BbState (memory_io noise)
bb_data noise = record { logfile = 1; rootdir = []; cfs_state = table }

abbrev before : ℕ → Printed
before errno = record { errno = errno; out = [] }

-- A call that fails with ENOENT.
log_syscall_lem_example :
    ((Report.log_syscall (memory_io 0) (bb_data 0) (b'f' ∷ []) (negsuc 0) (pos 0) (before 2)).0
      ≡ negsuc 1)
    × (lines_of 1
          (Report.log_syscall
            (memory_io 0)
            (bb_data 0)
            (b'f' ∷ [])
            (negsuc 0)
            (pos 0)
            (before 2)).1.out
        ≡ report (memory_io 0) (memory_io-IsStdio 0) (bb_data 0) (b'f' ∷ []) (fail 2))
    × ((Report.log_syscall
          (memory_io 0)
          (bb_data 0)
          (b'f' ∷ [])
          (negsuc 0)
          (pos 0)
          (before 2)).1.errno
        ≡ 2)
unfolding log_syscall
log_syscall_lem_example =
    log_syscall_lem (memory_io 0) (memory_io-IsStdio 0) (bb_data 0) (b'f' ∷ []) (fail 2) (before 2)
      refl (λ t. omega arith)

-- Where printing changes `errno`, another error is returned.
another_error :
    (Report.log_syscall (memory_io 3) (bb_data 3) (b'f' ∷ []) (negsuc 0) (pos 0) (before 2)).0
    ≡ negsuc 4
unfolding Report.log_syscall ◌-ℤ◌
another_error = refl

-- Two names, and a byte behind them.
abbrev names : List CString
names = (65 ∷ 66 ∷ []) ∷ (67 ∷ []) ∷ []

log_attributes_lem_example :
    (t : Printed) × (log_attributes
        (memory_io 0)
        (bb_data 0)
        3
        (pos 5)
        (some (65 ∷ 66 ∷ 0 ∷ 67 ∷ 0 ∷ 9 ∷ []))
        (before 0)
      ≡ some t)
    × (lines_of 1 t.out ≡ length_line 5 ∷ name_lines names)
unfolding names_bytes
log_attributes_lem_example =
    log_attributes_lem (memory_io 0) (bb_data 0) (memory_io-IsStdio 0) names 3 (9 ∷ []) (before 0)
      (
        ((λ e. absurd (omega arith)), ((λ e. absurd (omega arith)), tt)),
        (((λ e. absurd (omega arith)), tt), tt),
      )
      (omega arith)
