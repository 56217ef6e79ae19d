-- ===== src/Cfs/Entries.antt =====
-- Entries of the table of open files of cfs/src/cfs.c: taking a free one, and what changing one
-- leaves as it was.
use fusefs_block.Base.{
  ℕ, zero, suc, ◌+◌, ◌/◌, ◌%◌, ◌^◌, ◌<◌, ◌≡◌, ◌≢◌, refl, sym, ap, ◌∙◌, Bool-cases, false, Option,
  none, some, List, [], ◌∷◌, arith, inl, inr, ℤ, pos, ◌==ℤ◌, ==ℤ_iff, length, get_elem?, set,
  length-set, CString,
}
use fusefs_block.Io.{minus_one}
use fusefs_block.Cfs.{CfsFile, CfsState, Garbage}
use fusefs_block.Cfs.Header.{}
use fusefs_block.Cfs.Table.{find_slot, claim, cfs_get_file}
use fusefs_block.Cfs.Slots.{
  drop-set, get_elem?-set_self, get_elem?-set_ne, find_free, find_slot_holds, used-set,
  find_slot-set_self, find_slot-set_ne,
}
use fusefs_block.Cfs.Invariant.{IsTable, entry_of, get_of}

-- The file that a claimed entry holds.
pub record IsFile (path : CString) (fd : ℕ) (f : CfsFile) : Type 0 where
  pub path_same : f.path ≡ path
  pub fd_same : f.fd ≡ pos fd
  pub at_start : f.offset ≡ pos 0

-- A table in which `fd` has been entered, and where only that changed.
pub record Claimed (before after : CfsState) (path : CString) (fd : ℕ) : Type 0 where
  pub table : IsTable after
  pub entered : (f : CfsFile) × (cfs_get_file after (pos fd) ≡ some f) × IsFile path fd f
  pub others :
      (other : ℕ) → other ≢ fd → cfs_get_file after (pos other) ≡ cfs_get_file before (pos other)
  pub more : after.n_fds ≡ before.n_fds + 1
  pub storage_same : after.storage ≡ before.storage

==ℤ_ne : (a b : ℤ) → a ≢ b → (a ==ℤ b) ≡ false
==ℤ_ne a b h = elim (Bool-cases (a ==ℤ b)) [ inl e ↦ absurd (h ((==ℤ_iff a b).0 e)) | inr e ↦ e ]

pub get_elem?_some : {A : Type 0} (xs : List A) (i : ℕ) → i < length xs → get_elem? xs i ≢ none
get_elem?_some [] i lt h = absurd (omega arith)
get_elem?_some (x ∷ xs) zero lt h = cc
get_elem?_some (x ∷ xs) (suc i) lt h = get_elem?_some xs i (omega arith) h

pub pos_inj : {a b : ℕ} → pos a ≡ pos b → a ≡ b
pos_inj e = cc

pub pos_ne : (a b : ℕ) → a ≢ b → (pos a ==ℤ pos b) ≡ false
pos_ne a b h = ground arith

-- The state in which entry `i` holds `fd` and `f`.
abbrev entered_at : CfsState → ℕ → ℤ → CfsFile → ℕ → CfsState
entered_at state i fd f n = record state {
  fds = set state.fds i fd;
  files = set state.files i f;
  n_fds = n;
}

module _ (state : CfsState) (table : IsTable state) where
  -- A file whose entry another one is, is found as before.
  pub entry_kept :
      (fd i : ℕ) (f : CfsFile) (o : Option ℕ) (v : ℤ)
      → find_slot (pos fd) state.fds 0 ≡ o
      → get_elem? state.fds i ≡ some v
      → v ≢ pos fd
      → entry_of (set state.files i f) o ≡ entry_of state.files o
  entry_kept fd i f none v e h ne = refl
  entry_kept fd i f (some k) v e h ne =
      let (k', shift, lt, holds) = find_slot_holds (pos fd) state.fds 0 k e in
      get_elem?-set_ne state.files i k f (λ same. ne (value i k k' same shift holds h))
    where
      value :
          (i k k' : ℕ)
          → i ≡ k
          → k ≡ 0 + k'
          → get_elem? state.fds k' ≡ some (pos fd)
          → get_elem? state.fds i ≡ some v
          → v ≡ pos fd
      value i k k' same shift holds h = let ik : i ≡ k' = omega arith in cc

  pub get_kept :
      (fd i n : ℕ) (f : CfsFile) (v new : ℤ)
      → get_elem? state.fds i ≡ some v
      → v ≢ pos fd
      → (new ==ℤ pos fd) ≡ false
      → cfs_get_file (entered_at state i new f n) (pos fd) ≡ cfs_get_file state (pos fd)
  get_kept fd i n f v new h ne new_ne =
      get_of _ (pos fd)
      ∙ ap (entry_of (set state.files i f))
          (find_slot-set_ne (pos fd) state.fds i 0 v new h (==ℤ_ne v (pos fd) ne) new_ne)
      ∙ entry_kept fd i f (find_slot (pos fd) state.fds 0) v refl h ne
      ∙ sym (get_of state (pos fd))

  found_at :
      (fd i : ℕ)
      → find_slot (pos fd) state.fds 0 ≡ none
      → i < length state.fds
      → find_slot (pos fd) (set state.fds i (pos fd)) 0 ≡ some i
  found_at fd i absent lt =
      find_slot-set_self (pos fd) state.fds i 0 absent lt ∙ ap some (omega arith)

  -- Entry `i`, which is free and in the lower half, receives a file.
  entered_at-Claimed :
      (path : CString) (fd i : ℕ) (f : CfsFile)
      → IsFile path fd f
      → find_slot (pos fd) state.fds 0 ≡ none
      → get_elem? state.fds i ≡ some minus_one
      → i < state.fds_cap / 2
      → Claimed state (entered_at state i (pos fd) f (state.n_fds + 1)) path fd
  entered_at-Claimed path fd i f is absent free low = record {
    table = record {
      fds_length = length-set state.fds i (pos fd) ∙ table.fds_length;
      files_length = length-set state.files i f ∙ table.files_length;
      even = table.even;
      positive = table.positive;
      counted = used-set state.fds i fd free ∙ ap suc table.counted ∙ omega arith;
      upper_free = drop-set state.fds i (state.fds_cap / 2) (pos fd) low ∙ table.upper_free;
    };
    entered = (
      f,
      get_of _ (pos fd)
          ∙ ap (entry_of (set state.files i f))
              (found_at fd i absent (omega (arith, table.fds_length, table.even)))
          ∙ get_elem?-set_self state.files i f (omega (arith, table.files_length, table.even)),
      is,
    );
    others = λ other ne.
        get_kept other i (state.n_fds + 1) f minus_one (pos fd) free (λ e. absurd (cc))
          (pos_ne fd other (λ e. ne (sym e)));
    more = refl;
    storage_same = refl;
  }

  -- What a new file starts from: the entry as it was.
  abbrev new_file : Garbage → CString → ℕ → ℕ → CfsFile
  new_file garbage path fd i =
      let old : CfsFile = elim (get_elem? state.files i) [ none ↦ garbage.file | some f ↦ f ] in
      record old { path = path; offset = pos 0; fd = pos fd }

  claim_as :
      (garbage : Garbage) (path : CString) (fd i : ℕ)
      → find_slot minus_one state.fds 0 ≡ some i
      → state.n_fds + 1 < 2 ^ 64
      → claim garbage state path (pos fd)
        ≡ some (i, entered_at state i (pos fd) (new_file garbage path fd i) (state.n_fds + 1))
  unfolding claim
  claim_as garbage path fd i at fits =
      let count : (state.n_fds + 1) % 2 ^ 64 ≡ state.n_fds + 1 = omega arith in
      rw (claim, at, count) refl

  pub claim_room :
      (garbage : Garbage) (path : CString) (fd : ℕ)
      → state.n_fds < state.fds_cap / 2
      → state.fds_cap < 2 ^ 64
      → find_slot (pos fd) state.fds 0 ≡ none
      → (i : ℕ) × (after : CfsState) × (claim garbage state path (pos fd) ≡ some (i, after))
        × (find_slot (pos fd) after.fds 0 ≡ some i)
        × Claimed state after path fd
  claim_room garbage path fd room fits absent =
      let (i, found, le, free) =
        find_free state.fds 0 (omega (arith, table.counted, table.fds_length)) in
      (
        i,
        entered_at state i (pos fd) (new_file garbage path fd i) (state.n_fds + 1),
        claim_as garbage path fd i (found ∙ ap some (omega arith)) (omega arith),
        found_at fd i absent (omega (arith, table.counted, table.fds_length, table.even)),
        entered_at-Claimed path fd i (new_file garbage path fd i)
            (record { path_same = refl; fd_same = refl; at_start = refl }) absent free
            (omega (arith, table.counted)),
      )

  -- In a table, a descriptor that finds no file has no entry.
  pub absent_lem :
      (fd : ℕ) (o : Option ℕ)
      → find_slot (pos fd) state.fds 0 ≡ o
      → cfs_get_file state (pos fd) ≡ none
      → o ≡ none
  absent_lem fd none e h = refl
  absent_lem fd (some k) e h =
      let (i, shift, lt, _) = find_slot_holds (pos fd) state.fds 0 k e in
      absurd (
        get_elem?_some state.files k (omega (arith, table.files_length, table.fds_length))
          (ap (entry_of state.files) (sym e) ∙ sym (get_of state (pos fd)) ∙ h))
