-- ===== src/Log/Contract.antt =====
-- What the functions of cfs/src/log.c promise the callbacks that return their results.
use fusefs_block.Base.{
  ℕ, zero, suc, ◌≡◌, refl, false, ap, ◌∙◌, List, [], ◌∷◌, ◌++◌, ℤ, pos, negsuc, ◌-ℤ◌, is_neg,
  CString, arith,
}
use mathlib.Core.List.{append_assoc}
use fusefs_block.Posix.{Sys, ok, fail}
use fusefs_block.Log.{log_error, log_syscall}
use fusefs_block.Log.Stdio.{Stdio, IsStdio, Message, number, string}
use fusefs_block.Log.Report
use fusefs_block.Log.Report.{BbState, log_msg}

-- What a system call gives the caller: its result, -1 if it failed.
abbrev pub retstat_of : Sys ℕ → ℤ
retstat_of (ok n) = pos n
retstat_of (fail errno) = negsuc 0

-- `errno` after it, which counts if it failed.
abbrev pub IsErrno : Sys ℕ → ℕ → Type 0
IsErrno (ok n) errno = Unit
IsErrno (fail e) errno = errno ≡ e

abbrev pub returned_line : CString → ℤ → Message
returned_line func retstat = record {
  format = "    %s returned %d\n";
  arguments = string func ∷ number retstat ∷ [];
}

module _ (io : Stdio) (is : IsStdio io) (bb_data : BbState io) where
  abbrev pub error_line : CString → ℕ → Message
  error_line func errno = record {
    format = "    ERROR %s: %s\n";
    arguments = string func ∷ string (io.strerror errno) ∷ [];
  }

  -- One line for the result, and one for the error if the call failed.
  abbrev pub report : CString → Sys ℕ → List Message
  report func (ok n) = returned_line func (pos n) ∷ []
  report func (fail errno) = returned_line func (negsuc 0) ∷ error_line func errno ∷ []

  -- `-errno` in C and as the callbacks' model has it.
  minus_errno : (n : ℕ) → (pos 0 -ℤ pos n) ≡ log_error n
  unfolding ◌-ℤ◌ log_error
  minus_errno zero = refl
  minus_errno (suc n) = ground arith

  -- `log_retstat` leaves `errno` as it was, whatever printing does to it, and writes one line.
  pub log_retstat_lem :
      (func : CString) (retstat : ℤ) (s : io.State)
      → (io.errno (Report.log_retstat io bb_data func retstat s) ≡ io.errno s)
        × (is.lines bb_data.logfile (Report.log_retstat io bb_data func retstat s)
            ≡ is.lines bb_data.logfile s ++ (returned_line func retstat ∷ []))
  unfolding Report.log_retstat log_msg
  log_retstat_lem func retstat s = (is.errno-set _ _, is.lines-set _ _ _ ∙ is.lines-print _ _ _)

  -- The line of an error is printed with the text of `errno`.
  log_error-lines :
      (func : CString) (t : io.State)
      → is.lines bb_data.logfile (Report.log_error io bb_data func t).1
        ≡ is.lines bb_data.logfile t ++ (error_line func (io.errno t) ∷ [])
  unfolding Report.log_error log_msg
  log_error-lines func t = is.lines-print bb_data.logfile _ t

  log_error_errno :
      (func : CString) (s t : io.State)
      → io.errno t ≡ io.errno s
      → ((u : io.State)
          → io.errno (io.vfprintf bb_data.logfile (error_line func (io.errno s)) u) ≡ io.errno u)
      → io.errno (Report.log_error io bb_data func t).1 ≡ io.errno s
  unfolding Report.log_error log_msg
  log_error_errno func s t same keeps =
      ap (λ n. io.errno (io.vfprintf bb_data.logfile (error_line func n) t)) same ∙ keeps t ∙ same

  not_neg : (n : ℕ) → is_neg (pos n -ℤ pos 0) ≡ false
  unfolding ◌-ℤ◌
  not_neg n = ground arith

  -- `log_syscall` with the result of a system call, as every callback calls it: it returns what
  -- the callbacks' model of it does, the result or the negated `errno`; it writes one line for the
  -- result and, if the call failed, one for the error; and it leaves `errno` as it was. This is
  -- where printing the line of the error does not change `errno`, which it reads again after that.
  pub log_syscall_lem :
      (func : CString) (call : Sys ℕ) (s : io.State)
      → IsErrno call (io.errno s)
      → ((t : io.State)
          → io.errno (io.vfprintf bb_data.logfile (error_line func (io.errno s)) t) ≡ io.errno t)
      → ((Report.log_syscall io bb_data func (retstat_of call) (pos 0) s).0 ≡ log_syscall call)
        × (is.lines bb_data.logfile
              (Report.log_syscall io bb_data func (retstat_of call) (pos 0) s).1
            ≡ is.lines bb_data.logfile s ++ report func call)
        × (io.errno (Report.log_syscall io bb_data func (retstat_of call) (pos 0) s).1 ≡ io.errno s)
  unfolding Report.log_syscall log_syscall ◌-ℤ◌
  log_syscall_lem func (ok n) s after keeps =
      let (same, shown) = log_retstat_lem func (pos n) s in
      rw (Report.log_syscall, not_neg n) (refl, shown, same)
  log_syscall_lem func (fail e) s after keeps =
      let (same, shown) = log_retstat_lem func (negsuc 0) s in
      let t : io.State = Report.log_retstat io bb_data func (negsuc 0) s in
      let kept : io.errno (Report.log_error io bb_data func t).1 ≡ io.errno s =
        log_error_errno func s t same keeps in
      (
        ap (λ n. pos 0 -ℤ pos n) (kept ∙ after) ∙ minus_errno e,
        log_error-lines func t
            ∙ (λ i. shown i ++ (error_line func ((same ∙ after) i) ∷ []))
            ∙ append_assoc (is.lines bb_data.logfile s) _ _,
        kept,
      )
