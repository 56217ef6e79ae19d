-- ===== src/Cfs/Table.antt =====
-- The table of open files of cfs/src/cfs.c: `cfs_init`, `cfs_register_file`,
-- `cfs_release_file` and `cfs_get_file`. The table is a pair of arrays of `fds_cap` entries;
-- an entry is free where `fds` holds -1.
use mathlib.Core.Option
use fusefs_block.Base.{
  ℕ, zero, suc, ◌+◌, ◌-◌, ◌*◌, ◌/◌, ◌%◌, ◌^◌, Bool, Option, none, some, List, [], ◌∷◌, ◌++◌, leb,
  if◌then◌else◌, ℤ, pos, is_neg, ◌==ℤ◌, int_or, to_int, length, get_elem?, set, replicate, Bytes,
  CString,
}
use fusefs_block.Posix.{Posix, seek_set, M, pure, ◌>>=◌}
use fusefs_block.Io.{minus_one, s_lseek, s_read}
use fusefs_block.Storage.{BlkStore, init_storage}
use fusefs_block.Cfs.{CfsFile, CfsState, Garbage, magic_size, off_size, fds_store_initial, put_off}

-- `for (; i < fds_cap; i++) fds[i] = -1`, with the rounds left.
unfoldable pub clear_from : ℕ → ℕ → List ℤ → List ℤ
clear_from zero i fds = fds
clear_from (suc rounds) i fds = clear_from rounds (i + 1) (set fds i minus_one)

-- `realloc` to a larger array.
unfoldable pub realloc {ℓ} : {A : Type ℓ} → A → List A → ℕ → List A
realloc garbage xs n = xs ++ replicate (n - length xs) garbage

-- The table is made twice as large once half of it is in use.
unfoldable pub grow : Garbage → CfsState → CfsState
unfolding realloc clear_from
grow garbage state =
    if leb (state.fds_cap / 2) state.n_fds
    then (let cap = state.fds_cap * 2 in
        let i = state.fds_cap - 1 in
        record state {
          files = realloc garbage.file state.files cap;
          fds = clear_from (cap - i) i (realloc garbage.fd state.fds cap);
          fds_cap = cap;
        })
    else state

-- The loops that look for an entry of `fds`, from index `i` on.
unfoldable pub find_slot : ℤ → List ℤ → ℕ → Option ℕ
find_slot fd [] i = none
find_slot fd (x ∷ fds) i =
    let later = find_slot fd fds (i + 1) in if x ==ℤ fd then some i else later

-- A free entry is taken; `offset`, `fd` and `path` of the file are set.
unfoldable pub claim : Garbage → CfsState → CString → ℤ → Option (ℕ × CfsState)
unfolding find_slot
claim garbage state path fd = elim (find_slot minus_one state.fds 0) [
  | none ↦ none
  | some i ↦
      let old : CfsFile = elim (get_elem? state.files i) [ none ↦ garbage.file | some f ↦ f ] in
      some (
        i,
        record state {
          fds = set state.fds i fd;
          files = set state.files i (record old { path = path; offset = pos 0; fd = fd });
          n_fds = (state.n_fds + 1) % 2 ^ 64;
        },
      )
]

-- `files[i].size` and `files[i].total_blocks` receive what has been read.
abbrev pub set_header : CfsFile → Bytes → Bytes → CfsFile
set_header f size_bytes blocks_bytes = record f {
  size = put_off f.size size_bytes;
  total_blocks = put_off f.total_blocks blocks_bytes;
}

unfoldable pub update_header : CfsState → ℕ → Bytes → Bytes → CfsState
update_header state i size_bytes blocks_bytes = elim (get_elem? state.files i) [
  | none ↦ state
  | some f ↦ record state { files = set state.files i (set_header f size_bytes blocks_bytes) }
]

-- A file of the table by its descriptor.
unfoldable pub cfs_get_file : CfsState → ℤ → Option CfsFile
unfolding find_slot
cfs_get_file state fd = elim (find_slot fd state.fds 0) [
  | none ↦ none
  | some i ↦ get_elem? state.files i
]

unfoldable pub cfs_release_file : CfsState → ℤ → ℤ × CfsState
unfolding find_slot
cfs_release_file state fd = elim (find_slot fd state.fds 0) [
  | none ↦ (minus_one, state)
  | some i ↦ (
    pos 0,
    record state { fds = set state.fds i minus_one; n_fds = (state.n_fds + 2 ^ 64 - 1) % 2 ^ 64 },
  )
]

-- The state before any file is open.
unfoldable pub initial_state : Garbage → ℤ → BlkStore → CfsState
initial_state garbage max_fds storage = record {
  max_fds = max_fds;
  storage = storage;
  files = replicate fds_store_initial garbage.file;
  fds = replicate fds_store_initial minus_one;
  n_fds = 0;
  fds_cap = fds_store_initial;
}

module _ (os : Posix) (fuel : ℕ) (garbage : Garbage) where
  -- `ret` collects the results of the seek and the two reads by `|`.
  unfoldable pub read_header : CfsState → ℕ → ℤ → M os.State (ℤ × CfsState)
  read_header state i fd = do
    a ← s_lseek os fuel fd (pos magic_size) seek_set
    (b, size_bytes) ← s_read os fuel fd off_size
    (c, blocks_bytes) ← s_read os fuel fd off_size
    let ret = int_or (int_or (to_int a) (to_int b)) (to_int c)
    pure (if is_neg ret then ret else fd, update_header state i size_bytes blocks_bytes)

  unfoldable pub cfs_register_file : CfsState → CString → ℤ → M os.State (ℤ × CfsState)
  cfs_register_file state path fd = elim (claim garbage (grow garbage state) path fd) [
    | none ↦ pure (minus_one, grow garbage state)
    | some (i, claimed) ↦ read_header claimed i fd
  ]

  -- `max_fds` is the result of `sysconf`, `allocated` whether the paths could be allocated.
  unfoldable pub cfs_init : ℤ → Bool → CString → M os.State (ℤ × Option CfsState)
  cfs_init max_fds allocated root = if is_neg max_fds then pure (minus_one, none) else (do
    (code, storage) ← init_storage os allocated root
    pure (pos 0, Option.map (initial_state garbage max_fds) storage))
