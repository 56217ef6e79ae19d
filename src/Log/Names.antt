-- ===== src/Log/Names.antt =====
-- The end of `bb_listxattr` of cfs/src/bbfs.c, which logs the names that a system call put into a
-- buffer, each ended by a NUL.
use fusefs_block.Base.{
  ℕ, zero, suc, ◌+◌, ◌<◌, ◌≡◌, ◌≢◌, refl, sym, ap, ◌∙◌, Option, none, some, List, [], ◌∷◌, ◌++◌,
  All, ℤ, pos, negsuc, length, length-append, drop, drop-append, drop-drop, ltb, lt→ltb, le→ltb,
  if◌then◌else◌, Bytes, CString, arith,
}
use mathlib.Core.List.{append_assoc}
use fusefs_block.Cfs.{c_string}
use fusefs_block.Log.Stdio.{Stdio, IsStdio, Message, number, string}
use fusefs_block.Log.Report.{BbState, log_msg}
use fusefs_block.Log.Dump.{log_lines, log_lines-lines}

abbrev pub name_line : CString → Message
name_line name = record { format = "    \"%s\"\n"; arguments = string name ∷ [] }

abbrev pub length_line : ℕ → Message
length_line retstat = record {
  format = "    returned attributes (length %d):\n";
  arguments = number (pos retstat) ∷ [];
}

module _ (io : Stdio) (bb_data : BbState io) where
  -- `for (ptr = list; ptr < list + retstat; ptr += strlen(ptr) + 1)`
  unfoldable pub names_loop : ℕ → Bytes → ℕ → ℕ → io.State → Option io.State
  unfolding log_msg c_string
  names_loop zero list ptr retstat s = none
  names_loop (suc rounds) list ptr retstat s =
      let name = c_string (drop ptr list) in
      let rest =
        names_loop rounds list (ptr + (length name + 1)) retstat
          (log_msg io bb_data (name_line name) s) in
      if ltb ptr retstat then rest else some s

  -- What is logged for the result and the buffer, which may be NULL.
  unfoldable pub log_attributes : ℕ → ℤ → Option Bytes → io.State → Option io.State
  unfolding log_msg names_loop
  log_attributes rounds (negsuc n) list s = some s
  log_attributes rounds (pos retstat) none s = some (
      log_msg io bb_data (record { format = "    (null)\n"; arguments = [] })
        (log_msg io bb_data (length_line retstat) s))
  log_attributes rounds (pos retstat) (some list) s =
      names_loop rounds list 0 retstat (log_msg io bb_data (length_line retstat) s)

-- How a system puts names into a buffer.
unfoldable pub names_bytes : List CString → Bytes
names_bytes [] = []
names_bytes (name ∷ names) = name ++ (0 ∷ names_bytes names)

-- A name holds no NUL.
abbrev pub IsName : CString → Type 0
IsName name = All (λ b. b ≢ 0) name

abbrev pub name_lines : List CString → List Message
name_lines [] = []
name_lines (name ∷ names) = name_line name ∷ name_lines names

c_string-append : (name rest : Bytes) → IsName name → c_string (name ++ (0 ∷ rest)) ≡ name
unfolding c_string
c_string-append [] rest is = refl
c_string-append (b ∷ name) rest (ne, is) = ground (arith, c_string-append name rest is)

-- The names of a buffer begin with the first one.
first_name :
    (name : CString) (names : List CString) (list behind : Bytes) (ptr : ℕ)
    → IsName name
    → drop ptr list ≡ names_bytes (name ∷ names) ++ behind
    → (c_string (drop ptr list) ≡ name)
      × (drop (ptr + (length name + 1)) list ≡ names_bytes names ++ behind)
unfolding names_bytes
first_name name names list behind ptr is here =
    let shape : drop ptr list ≡ name ++ (0 ∷ (names_bytes names ++ behind)) =
      here ∙ append_assoc name (0 ∷ names_bytes names) behind in
    (
      ap c_string shape ∙ c_string-append name (names_bytes names ++ behind) is,
      sym (drop-drop (length name + 1) ptr list)
          ∙ ap (drop (length name + 1))
              (shape ∙ sym (append_assoc name (0 ∷ []) (names_bytes names ++ behind)))
          ∙ drop-append (length name + 1) (name ++ (0 ∷ [])) _ (length-append name (0 ∷ [])),
    )

module _ (io : Stdio) (bb_data : BbState io) where
  -- The rounds from the first of some names on.
  names_loop-log_lines :
      (names : List CString) (rounds : ℕ) (list behind : Bytes) (ptr retstat : ℕ) (s : io.State)
      → All IsName names
      → drop ptr list ≡ names_bytes names ++ behind
      → ptr + length (names_bytes names) ≡ retstat
      → length names < rounds
      → names_loop io bb_data rounds list ptr retstat s
        ≡ some (log_lines io bb_data (name_lines names) s)
  unfolding names_loop names_bytes log_lines
  names_loop-log_lines names zero list behind ptr retstat s are here sum lt = absurd (omega arith)
  names_loop-log_lines [] (suc rounds) list behind ptr retstat s are here sum lt =
      rw (names_loop, le→ltb ptr retstat (omega arith)) refl
  names_loop-log_lines (name ∷ names) (suc rounds) list behind ptr retstat s (is, are) here sum lt =
      let (found, next) = first_name name names list behind ptr is here in
      rw
        (
          names_loop,
          lt→ltb ptr retstat (omega (arith, length-append name (0 ∷ names_bytes names))),
          found,
        )
        (names_loop-log_lines names rounds list behind (ptr + (length name + 1)) retstat
          (log_msg io bb_data (name_line name) s) are next
          (omega (arith, length-append name (0 ∷ names_bytes names))) (omega arith))

  -- Where the system has put names into the buffer and returned their length, what `bb_listxattr`
  -- logs behind the result of the call is that length and the names, in order, whatever stands
  -- behind them in the buffer; and its loop ends after a round for each name. A name holds no NUL.
  pub log_attributes_lem :
      (is : IsStdio io) (names : List CString) (rounds : ℕ) (behind : Bytes) (s : io.State)
      → All IsName names
      → length names < rounds
      → (t : io.State) × (log_attributes io bb_data rounds
            (pos (length (names_bytes names)))
            (some (names_bytes names ++ behind))
            s
          ≡ some t)
        × (is.lines bb_data.logfile t
            ≡ is.lines bb_data.logfile s
              ++ (length_line (length (names_bytes names)) ∷ name_lines names))
  unfolding log_attributes log_msg
  log_attributes_lem is names rounds behind s are lt =
      let u : io.State = io.vfprintf bb_data.logfile (length_line (length (names_bytes names))) s in
      (
        log_lines io bb_data (name_lines names) u,
        names_loop-log_lines names rounds (names_bytes names ++ behind) behind 0
            (length (names_bytes names)) u are refl (omega arith) lt,
        log_lines-lines io bb_data is (name_lines names) u
            ∙ ap (λ ls. ls ++ name_lines names) (is.lines-print bb_data.logfile _ s)
            ∙ append_assoc (is.lines bb_data.logfile s) _ (name_lines names),
      )
