-- ===== src/Fuse/Main.antt =====
-- `main` of cfs/src/bbfs.c: how it reads its arguments, up to the call of libfuse.
use fusefs_block.Base.{
  ℕ, ◌-◌, Bool, true, false, ◌||◌, ltb, ◌==◌, Option, none, some, List, [], ◌∷◌, if◌then◌else◌,
  length, take, set, get_elem?, ℤ, pos, negsuc, CString,
}

-- `exit_status` is an end of the program before anything is mounted, `usage` an abort behind the
-- usage, `crashed` a null pointer given to `strlen`, and `fuse_main` the call of libfuse with these
-- arguments and this root directory, which is null if `realpath` failed.
pub data Startup : Type 0 where
  exit_status : ℕ → Startup
  usage : Startup
  crashed : Startup
  fuse_main : List CString → Option CString → Startup

-- `argv[i][0] == '-'`
unfoldable pub is_option : Option CString → Bool
is_option none = false
is_option (some []) = false
is_option (some (c ∷ s)) = c == b'-'

-- `argv[argc-2] = argv[argc-1]; argc--`
unfoldable pub drop_root : List CString → List CString
drop_root argv = elim (get_elem? argv (length argv - 1)) [
  | none ↦ argv
  | some mount ↦ take (length argv - 1) (set argv (length argv - 2) mount)
]

-- From `log_open` on, which ends the program where the log cannot be opened. `cfs_init` is called
-- next, and its result is not looked at: it gives up first where `sysconf` gives a negative number,
-- and else `init_storage` measures the root directory. Its table is `cfs_init` of Cfs/Table.
unfoldable pub start : Bool → ℤ → List CString → Option CString → Startup
start false max_fds argv root = exit_status 1
start true (negsuc n) argv root = fuse_main argv root
start true (pos n) argv none = crashed
start true (pos n) argv (some root) = fuse_main argv (some root)

-- `realpath` is the C library's, `log_opens` says whether `fopen` opens the log, and `max_fds` is
-- what `sysconf` gives; the allocations of `main` succeed.
unfoldable pub main : (CString → Option CString) → Bool → ℤ → ℕ → ℕ → List CString → Startup
unfolding is_option drop_root start
main realpath log_opens max_fds uid euid argv =
    if (uid == 0) || (euid == 0)
    then exit_status 1
    else if ltb (length argv) 3
        || (is_option (get_elem? argv (length argv - 2))
            || is_option (get_elem? argv (length argv - 1)))
    then usage
    else start log_opens max_fds (drop_root argv)
        (elim (get_elem? argv (length argv - 2)) [ none ↦ none | some root ↦ realpath root ])
