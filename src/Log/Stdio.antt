-- ===== src/Log/Stdio.antt =====
-- The functions of the C library that cfs/src/log.c and cfs/src/fakelog.c call, and what is relied
-- on. A call of `vfprintf` is a line: the format and its arguments.
use fusefs_block.Base.{ℕ, ◌≡◌, ◌≢◌, List, [], ◌∷◌, ◌++◌, Option, ℤ, CString}
use Prim.Native.String.{String}

pub data Argument : Type 0 where
  number : ℤ → Argument
  string : CString → Argument

pub record Message : Type 0 where
  pub format : String
  pub arguments : List Argument

pub record Stdio : Type 1 where
  pub State : Type 0
  pub Stream : Type 0
  pub stdout : Stream
  pub errno : State → ℕ
  pub set_errno : ℕ → State → State
  pub strerror : ℕ → CString
  pub vfprintf : Stream → Message → State → State
  pub fopen : String → String → State → Option Stream × State
  pub perror : String → State → State
  pub set_line_buffered : Stream → State → State

-- What a stream shows, and that a line is appended to its stream and to no other. `errno` is left
-- open where something is printed.
pub record IsStdio (io : Stdio) : Type 0 where
  pub lines : io.Stream → io.State → List Message
  pub errno-set : (n : ℕ) (s : io.State) → io.errno (io.set_errno n s) ≡ n
  pub lines-set : (f : io.Stream) (n : ℕ) (s : io.State) → lines f (io.set_errno n s) ≡ lines f s
  pub lines-print :
      (f : io.Stream) (l : Message) (s : io.State)
      → lines f (io.vfprintf f l s) ≡ lines f s ++ (l ∷ [])
  pub lines-print_ne :
      (f g : io.Stream) (l : Message) (s : io.State)
      → f ≢ g
      → lines g (io.vfprintf f l s) ≡ lines g s
