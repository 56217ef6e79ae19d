-- ===== src/Cfs/Invariant.antt =====
-- The invariant of the table of open files of cfs/src/cfs.c. The upper half of the table is
-- free, so that clearing from the last old entry on, which `cfs_register_file` does when it
-- enlarges the table, loses no file.
use fusefs_block.Base.{
  ℕ, ◌+◌, ◌-◌, ◌*◌, ◌/◌, ◌≤◌, ◌<◌, ◌≡◌, refl, sym, ap, ◌∙◌, true, false, Option, none, some, List,
  [], ◌∷◌, ◌++◌, arith, leb, ℤ, pos, length, take, drop, get_elem?, replicate, length-append,
  length-take, length-replicate, take-append-drop, drop-append,
}
use mathlib.Core.List.{append_assoc}
use mathlib.Core.Path.{subst}
use native.Mathlib.Decide.{dec_le}
use fusefs_block.Io.{minus_one}
use fusefs_block.Storage.{BlkStore}
use fusefs_block.Cfs.{CfsFile, CfsState, Garbage}
use fusefs_block.Cfs.Table.{clear_from, find_slot, grow, cfs_get_file, initial_state, realloc}
use fusefs_block.Cfs.Slots.{
  replicate-append, take_of_append, take-replicate, get_elem?-append, clear_from_lem, used,
  used-append_free, find_slot_holds, find_slot-append_free,
}

pub record IsTable (state : CfsState) : Type 0 where
  pub fds_length : length state.fds ≡ state.fds_cap
  pub files_length : length state.files ≡ state.fds_cap
  pub even : state.fds_cap ≡ 2 * (state.fds_cap / 2)
  pub positive : 0 < state.fds_cap
  pub counted : used state.fds ≡ state.n_fds
  pub upper_free : drop (state.fds_cap / 2) state.fds ≡ replicate (state.fds_cap / 2) minus_one

-- The table that `cfs_init` sets up meets the invariant.
pub initial-IsTable :
    (garbage : Garbage) (max_fds : ℤ) (storage : BlkStore)
    → IsTable (initial_state garbage max_fds storage)
unfolding initial_state used
initial-IsTable garbage max_fds storage = record {
  fds_length = refl;
  files_length = refl;
  even = refl;
  positive = omega arith;
  counted = refl;
  upper_free = refl;
}

-- The file at an index that a search found.
abbrev pub entry_of : List CfsFile → Option ℕ → Option CfsFile
entry_of files o = elim o [ none ↦ none | some i ↦ get_elem? files i ]

pub get_of :
    (state : CfsState) (fd : ℤ)
    → cfs_get_file state fd ≡ entry_of state.files (find_slot fd state.fds 0)
unfolding cfs_get_file
get_of state fd = refl

used-le-length : (xs : List ℤ) → used xs ≤ length xs
unfolding used
used-le-length [] = omega arith
used-le-length (x ∷ xs) = ground (arith, used-le-length xs)

module _ (state : CfsState) (table : IsTable state) where
  abbrev half : ℕ
  half = state.fds_cap / 2

  front_free : state.fds ≡ take half state.fds ++ replicate half minus_one
  front_free =
      sym (take-append-drop half state.fds) ∙ ap (λ t. take half state.fds ++ t) table.upper_free

  front_length : length (take half state.fds) ≡ half
  front_length = omega (arith, length-take half state.fds, table.fds_length, table.even)

  -- No more than half of the table is in use.
  pub used-le-half : state.n_fds ≤ half
  used-le-half = omega (
    arith,
    table.counted,
    ap used front_free,
    used-append_free (take half state.fds) half,
    used-le-length (take half state.fds),
    front_length,
  )

module _ (garbage : Garbage) (state : CfsState) (table : IsTable state) where
  cleared :
      (rounds i : ℕ) (more : List ℤ)
      → i + 1 ≡ state.fds_cap
      → rounds ≡ state.fds_cap + 1
      → length more ≡ state.fds_cap
      → clear_from rounds i (state.fds ++ more) ≡ state.fds ++ replicate state.fds_cap minus_one
  cleared rounds i more hi hr hm =
      clear_from_lem rounds i (state.fds ++ more)
        (omega (arith, length-append state.fds more, table.fds_length))
      ∙ ap (λ t. t ++ replicate rounds minus_one)
          (ap (λ t. take i (t ++ more)) (front_free state table)
            ∙ ap (take i) (append_assoc front (replicate (state.fds_cap / 2) minus_one) more)
            ∙ take_of_append front (replicate (state.fds_cap / 2) minus_one ++ more) i
                ((state.fds_cap / 2) - 1) (omega (arith, front_length, table.even))
            ∙ ap (λ t. front ++ t)
                (take-replicate ((state.fds_cap / 2) - 1) (state.fds_cap / 2) minus_one more
                  (omega arith)))
      ∙ append_assoc front (replicate ((state.fds_cap / 2) - 1) minus_one)
          (replicate rounds minus_one)
      ∙ ap (λ t. front ++ t)
          (replicate-append ((state.fds_cap / 2) - 1) rounds minus_one
              ((state.fds_cap / 2) + state.fds_cap) (omega (arith, table.even))
            ∙ sym (
                replicate-append (state.fds_cap / 2) state.fds_cap minus_one
                  ((state.fds_cap / 2) + state.fds_cap) refl))
      ∙ sym (
          append_assoc front (replicate (state.fds_cap / 2) minus_one)
            (replicate state.fds_cap minus_one))
      ∙ ap (λ t. t ++ replicate state.fds_cap minus_one) (sym (front_free state table))
    where
      front : List ℤ
      front = take (state.fds_cap / 2) state.fds

      front_length : length front ≡ (state.fds_cap / 2)
      front_length = omega (arith, length-take (state.fds_cap / 2) state.fds, table.fds_length)

  -- Enlarging the table appends free entries to `fds` and fresh ones to `files`, and touches
  -- nothing else.
  pub grow_lem :
      state.fds_cap / 2 ≤ state.n_fds
      → grow garbage state ≡ record state {
        files = state.files ++ replicate state.fds_cap garbage.file;
        fds = state.fds ++ replicate state.fds_cap minus_one;
        fds_cap = state.fds_cap * 2;
      }
  unfolding grow realloc
  grow_lem full =
      rw (le→leb _ _ full)
        (λ i. record state { files = files i; fds = fds i; fds_cap = state.fds_cap * 2 })
    where
      le→leb : (a b : ℕ) → a ≤ b → leb a b ≡ true
      le→leb a b h = ground arith

      rest : (n : ℕ) → n ≡ state.fds_cap → state.fds_cap * 2 - n ≡ state.fds_cap
      rest n e = omega arith

      files :
          state.files ++ replicate (state.fds_cap * 2 - length state.files) garbage.file
          ≡ state.files ++ replicate state.fds_cap garbage.file
      files = ap (λ n. state.files ++ replicate n garbage.file) (rest _ table.files_length)

      fds :
          clear_from
            (state.fds_cap * 2 - (state.fds_cap - 1))
            (state.fds_cap - 1)
            (state.fds ++ replicate (state.fds_cap * 2 - length state.fds) garbage.fd)
          ≡ state.fds ++ replicate state.fds_cap minus_one
      fds =
          cleared (state.fds_cap * 2 - (state.fds_cap - 1)) (state.fds_cap - 1) _
            (omega (arith, table.positive)) (omega (arith, table.positive))
            (length-replicate _ garbage.fd ∙ rest _ table.fds_length)

  pub grow_not : state.n_fds < state.fds_cap / 2 → grow garbage state ≡ state
  unfolding grow
  grow_not room = rw (lt→leb _ _ room)
    where
      lt→leb : (a b : ℕ) → b < a → leb a b ≡ false
      lt→leb a b h = ground arith

  grown-IsTable : state.fds_cap / 2 ≤ state.n_fds → IsTable (grow garbage state)
  grown-IsTable full = subst IsTable (sym (grow_lem full)) (record {
    fds_length = omega (
      arith,
      length-append state.fds (replicate state.fds_cap minus_one),
      table.fds_length,
      length-replicate state.fds_cap minus_one,
    );
    files_length = omega (
      arith,
      length-append state.files (replicate state.fds_cap garbage.file),
      table.files_length,
      length-replicate state.fds_cap garbage.file,
    );
    even = omega arith;
    positive = omega (arith, table.positive);
    counted = used-append_free state.fds state.fds_cap ∙ table.counted;
    upper_free =
        let twice : state.fds_cap * 2 / 2 ≡ state.fds_cap = omega arith in
        rw twice (drop-append state.fds_cap state.fds _ table.fds_length);
  })

  pub grow-IsTable : IsTable (grow garbage state)
  grow-IsTable = elim (dec_le (state.fds_cap / 2) state.n_fds) [
    | yes full ↦ grown-IsTable full
    | no room ↦ subst IsTable (sym (grow_not (omega arith))) table
  ]

  -- After `grow` there is room in the lower half.
  pub grow_room : (grow garbage state).n_fds < (grow garbage state).fds_cap / 2
  grow_room = elim (dec_le (state.fds_cap / 2) state.n_fds) [
    | yes full ↦
        rw (grow_lem full) (omega (arith, used-le-half state table, table.positive, table.even))
    | no room ↦ rw (grow_not (omega arith)) (omega arith)
  ]

  -- Every registered file is still found.
  pub get-grow : (fd : ℕ) → cfs_get_file (grow garbage state) (pos fd) ≡ cfs_get_file state (pos fd)
  get-grow fd = elim (dec_le (state.fds_cap / 2) state.n_fds) [
    | yes full ↦ ap (λ t. cfs_get_file t (pos fd)) (grow_lem full) ∙ enlarged
    | no room ↦ ap (λ t. cfs_get_file t (pos fd)) (grow_not (omega arith))
  ]
    where
      same :
          (o : Option ℕ)
          → find_slot (pos fd) state.fds 0 ≡ o
          → entry_of (state.files ++ replicate state.fds_cap garbage.file) o
            ≡ entry_of state.files o
      same none e = refl
      same (some k) e =
          let (i, shift, lt, _) = find_slot_holds (pos fd) state.fds 0 k e in
          get_elem?-append state.files _ k (omega (arith, table.files_length, table.fds_length))

      enlarged :
          cfs_get_file
            (record state {
              files = state.files ++ replicate state.fds_cap garbage.file;
              fds = state.fds ++ replicate state.fds_cap minus_one;
              fds_cap = state.fds_cap * 2;
            })
            (pos fd)
          ≡ cfs_get_file state (pos fd)
      enlarged =
          get_of _ (pos fd)
          ∙ ap (entry_of (state.files ++ replicate state.fds_cap garbage.file))
              (find_slot-append_free fd state.fds_cap 0 state.fds)
          ∙ same (find_slot (pos fd) state.fds 0) refl
          ∙ sym (get_of state (pos fd))

  -- The number of files stays, and the table is at most twice as large.
  pub n_fds-grow : (grow garbage state).n_fds ≡ state.n_fds
  n_fds-grow = elim (dec_le (state.fds_cap / 2) state.n_fds) [
    | yes full ↦ rw (grow_lem full) refl
    | no room ↦ rw (grow_not (omega arith)) refl
  ]

  pub storage-grow : (grow garbage state).storage ≡ state.storage
  storage-grow = elim (dec_le (state.fds_cap / 2) state.n_fds) [
    | yes full ↦ rw (grow_lem full) refl
    | no room ↦ rw (grow_not (omega arith)) refl
  ]

  pub fds_cap-grow : (grow garbage state).fds_cap ≤ 2 * state.fds_cap
  fds_cap-grow = elim (dec_le (state.fds_cap / 2) state.n_fds) [
    | yes full ↦ rw (grow_lem full) (omega arith)
    | no room ↦ rw (grow_not (omega arith)) (omega arith)
  ]
