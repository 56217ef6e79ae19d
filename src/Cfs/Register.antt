-- ===== src/Cfs/Register.antt =====
-- What the table of open files of cfs/src/cfs.c promises: a file that is entered is found under
-- its descriptor with the numbers of its header, and no operation disturbs the other files.
use fusefs_block.Base.{
  ℕ, ◌+◌, ◌^◌, ◌≤◌, ◌<◌, ◌≡◌, refl, sym, ap, ◌∙◌, true, none, some, ◌++◌, arith, ℤ, pos, length,
  get_elem?, set, length-set, of_word, to_size, word_value, length-word_bytes, drop-all, CString,
  Bytes,
}
use mathlib.Core.Path.{subst}
use fusefs_block.Posix.{Posix}
use mathlib.Core.List.{append-nil}
use fusefs_block.Cfs.{CfsFile, CfsState, Garbage, overlay, put_off}
use fusefs_block.Cfs.Header.{
  size_field, blocks_field, length-size_field, length-blocks_field, Runs-read_header,
}
use fusefs_block.Cfs.Table.{
  find_slot, grow, claim, cfs_get_file, read_header, update_header, set_header, cfs_register_file,
}
use fusefs_block.Cfs.Slots.{get_elem?-set_self, find_slot_holds}
use fusefs_block.Cfs.Invariant.{
  IsTable, grow-IsTable, grow_room, get-grow, n_fds-grow, storage-grow, fds_cap-grow, entry_of,
  get_of,
}
use fusefs_block.Cfs.Entries.{IsFile, Claimed, entry_kept, claim_room, absent_lem, pos_inj}
use fusefs_block.Posix.View.{View, Descriptor, find_fd, can_read, moved}
use fusefs_block.Posix.Laws.{IsPosix}
use fusefs_block.Posix.Runs.{Ends, Ends-step, Runs}

-- What eight bytes that are read into an `off_t` make of it.
pub put_off-whole :
    (z : ℤ) (bytes : Bytes) → length bytes ≡ 8 → put_off z bytes ≡ of_word 64 (word_value bytes)
unfolding put_off overlay
put_off-whole z bytes e =
    ap (λ t. of_word 64 (word_value (bytes ++ t)))
      (drop-all (length bytes) _ (omega (arith, length-word_bytes 8 (to_size z))))
    ∙ ap (λ t. of_word 64 (word_value t)) (append-nil bytes)

-- A file whose numbers are those of the header of `c`.
pub record HasHeader (c : Bytes) (f : CfsFile) : Type 0 where
  pub size_same : f.size ≡ of_word 64 (word_value (size_field c))
  pub blocks_same : f.total_blocks ≡ of_word 64 (word_value (blocks_field c))

-- A state in which the file at `path` has been entered under `fd` with the header of `c`.
pub record Registered (before after : CfsState) (path : CString) (fd : ℕ) (c : Bytes) : Type 0 where
  pub claimed : Claimed before after path fd
  pub header : (f : CfsFile) × (cfs_get_file after (pos fd) ≡ some f) × HasHeader c f

module _ {before after : CfsState} {path : CString} {fd i : ℕ}
    (claimed : Claimed before after path fd) (at : find_slot (pos fd) after.fds 0 ≡ some i) where
  file_at : (f : CfsFile) → cfs_get_file after (pos fd) ≡ some f → get_elem? after.files i ≡ some f
  file_at f e = ap (entry_of after.files) (sym at) ∙ sym (get_of after (pos fd)) ∙ e

  update_header_as :
      (f : CfsFile) (a b : Bytes)
      → get_elem? after.files i ≡ some f
      → update_header after i a b ≡ record after { files = set after.files i (set_header f a b) }
  unfolding update_header
  update_header_as f a b e = rw (update_header, e) refl

  get_set :
      (f : CfsFile) → cfs_get_file (record after { files = set after.files i f }) (pos fd) ≡ some f
  get_set f =
      let (i', shift, lt, _) = find_slot_holds (pos fd) after.fds 0 i at in
      get_of _ (pos fd)
      ∙ ap (entry_of (set after.files i f)) at
      ∙ get_elem?-set_self after.files i f
          (omega (arith, claimed.table.fds_length, claimed.table.files_length))

  set_file-Claimed :
      (f : CfsFile)
      → IsFile path fd f
      → Claimed before (record after { files = set after.files i f }) path fd
  set_file-Claimed f is =
      let (i', shift, lt, holds) = find_slot_holds (pos fd) after.fds 0 i at in
      let here : get_elem? after.fds i ≡ some (pos fd) =
        ap (get_elem? after.fds) (let e : i ≡ i' = omega arith in e) ∙ holds in
      record {
        table = record {
          fds_length = claimed.table.fds_length;
          files_length = length-set after.files i f ∙ claimed.table.files_length;
          even = claimed.table.even;
          positive = claimed.table.positive;
          counted = claimed.table.counted;
          upper_free = claimed.table.upper_free;
        };
        entered = (f, get_set f, is);
        others = λ other ne.
            get_of _ (pos other)
            ∙ entry_kept after claimed.table other i f (find_slot (pos other) after.fds 0) (pos fd)
                refl here (λ e. ne (sym (pos_inj e)))
            ∙ sym (get_of after (pos other))
            ∙ claimed.others other ne;
        more = claimed.more;
        storage_same = claimed.storage_same;
      }

  -- Reading the header, whatever is read, changes the numbers of the file alone.
  pub update_header-Claimed : (a b : Bytes) → Claimed before (update_header after i a b) path fd
  update_header-Claimed a b =
      let (f, found, is) = claimed.entered in
      subst (λ t. Claimed before t path fd) (sym (update_header_as f a b (file_at f found)))
        (set_file-Claimed (set_header f a b)
          (record { path_same = is.path_same; fd_same = is.fd_same; at_start = is.at_start }))

  module _ (c : Bytes) (long : 23 ≤ length c) where
    set_header-HasHeader :
        (f : CfsFile) → HasHeader c (set_header f (size_field c) (blocks_field c))
    set_header-HasHeader f = record {
      size_same = put_off-whole f.size (size_field c) (length-size_field c long);
      blocks_same = put_off-whole f.total_blocks (blocks_field c) (length-blocks_field c long);
    }

    update_header-Registered :
        Registered before (update_header after i (size_field c) (blocks_field c)) path fd c
    update_header-Registered =
        let (f, found, is) = claimed.entered in
        let f' : CfsFile = set_header f (size_field c) (blocks_field c) in
        let whole = update_header_as f (size_field c) (blocks_field c) (file_at f found) in
        record {
          claimed = update_header-Claimed (size_field c) (blocks_field c);
          header =
              (f', ap (λ t. cfs_get_file t (pos fd)) whole ∙ get_set f', set_header-HasHeader f);
        }

-- What is entered after `grow` is entered in the table as it was.
grow-Registered :
    (garbage : Garbage) (state after : CfsState) (path : CString) (fd : ℕ) (c : Bytes)
    → IsTable state
    → Registered (grow garbage state) after path fd c
    → Registered state after path fd c
grow-Registered garbage state after path fd c table r = record {
  claimed = record {
    table = r.claimed.table;
    entered = r.claimed.entered;
    others = λ other ne. r.claimed.others other ne ∙ get-grow garbage state table other;
    more = r.claimed.more ∙ ap (λ n. n + 1) (n_fds-grow garbage state table);
    storage_same = r.claimed.storage_same ∙ storage-grow garbage state table;
  };
  header = r.header;
}

pub register_claimed :
    (os : Posix) (fuel : ℕ) (garbage : Garbage) (state claimed : CfsState) (path : CString) (fd : ℤ)
    (i : ℕ) (s : os.State)
    → claim garbage (grow garbage state) path fd ≡ some (i, claimed)
    → cfs_register_file os fuel garbage state path fd s ≡ read_header os fuel garbage claimed i fd s
unfolding cfs_register_file
register_claimed os fuel garbage state claimed path fd i s e = rw (cfs_register_file, e) refl

-- From any view in which the descriptor is open.
pub Runs-cfs_register_file :
    {os : Posix} (law : IsPosix os) (signals fuel : ℕ) (garbage : Garbage) (state : CfsState)
    (path : CString) (fd : ℕ) (v : View) (d : Descriptor) (p : CString) (c : Bytes)
    → IsTable state
    → state.fds_cap < 2 ^ 63
    → cfs_get_file state (pos fd) ≡ none
    → find_fd fd v.descriptors ≡ some d
    → d.file ≡ some p
    → can_read d.access ≡ true
    → v.files p ≡ some c
    → 23 ≤ length c
    → 8 + signals < fuel
    → (after : CfsState) × Runs law signals
        (cfs_register_file os fuel garbage state path (pos fd))
        v
        (pos fd, after)
        (moved v fd 23)
      × Registered state after path fd c
Runs-cfs_register_file {os} law signals fuel garbage state path fd v d p c table fits absent hd hp
      ha hc long enough =
    let grown : CfsState = grow garbage state in
    let grown-IsTable : IsTable grown = grow-IsTable garbage state table in
    let (i, claimed, claims, at, entered) =
      claim_room grown grown-IsTable garbage path fd (grow_room garbage state table)
        (omega (arith, fds_cap-grow garbage state table))
        (absent_lem grown grown-IsTable fd _ refl (get-grow garbage state table fd ∙ absent)) in
    let header = Runs-read_header law v fd d p c hd hp ha hc long garbage fuel claimed i enough in
    (
      update_header claimed i (size_field c) (blocks_field c),
      record {
        from = λ s e calm.
            Ends-step (register_claimed os fuel garbage state claimed path (pos fd) i s claims)
              (header.from s e calm);
      },
      grow-Registered garbage state _ path fd c table (update_header-Registered entered at c long),
    )

-- On a table that meets the invariant and has no file under `fd`, and for a descriptor that is
-- open for reading on a file of at least 23 bytes, `cfs_register_file` ends and returns `fd`. The
-- invariant is kept, also where the table has to be enlarged; the path is found under `fd`, with
-- offset 0 and the size and the number of blocks that the header of the file gives; there is one
-- file more; every other descriptor finds what it found before. The descriptor then stands behind
-- the header, and nothing else on the system changes. The capacity of the table is below 2^63,
-- and the fuel above 8 and the pending signals together.
pub cfs_register_file_lem :
    {os : Posix} (law : IsPosix os) (signals fuel : ℕ) (garbage : Garbage) (state : CfsState)
    (path : CString) (fd : ℕ) (s : os.State) (d : Descriptor) (p : CString) (c : Bytes)
    → IsTable state
    → state.fds_cap < 2 ^ 63
    → cfs_get_file state (pos fd) ≡ none
    → find_fd fd (law.view s).descriptors ≡ some d
    → d.file ≡ some p
    → can_read d.access ≡ true
    → (law.view s).files p ≡ some c
    → 23 ≤ length c
    → law.pending s ≤ signals
    → 8 + signals < fuel
    → (after : CfsState) × Ends law signals
        (cfs_register_file os fuel garbage state path (pos fd))
        s
        (pos fd, after)
        (moved (law.view s) fd 23)
      × Registered state after path fd c
cfs_register_file_lem law signals fuel garbage state path fd s d p c table fits absent hd hp ha hc
      long calm enough =
    let (after, run, registered) =
      Runs-cfs_register_file law signals fuel garbage state path fd (law.view s) d p c table fits
        absent hd hp ha hc long enough in
    (after, run.from s refl calm, registered)
