-- ===== src/Cfs/Reach.antt =====
-- Sequences of `cfs_register_file` and `cfs_release_file` of cfs/src/cfs.c, as the callbacks
-- `bb_open` and `bb_release` of cfs/src/bbfs.c call them, against a map from the descriptors that
-- are open to their paths.
use fusefs_block.Base.{
  ℕ, ◌^◌, ◌≤◌, ◌<◌, ◌≡◌, ◌≢◌, refl, sym, ap, ◌∙◌, Option, none, some, arith, set, List, [], ◌∷◌, ℤ,
  pos, ◌==◌, ==_iff, if◌then◌else◌, Bool-cases, inl, inr, true, false, CString,
}
use mathlib.Core.Path.{subst}
use fusefs_block.Posix.{Posix}
use fusefs_block.Io.{minus_one}
use fusefs_block.Storage.{BlkStore}
use fusefs_block.Cfs.{CfsFile, CfsState, Garbage}
use fusefs_block.Cfs.Table.{
  find_slot, cfs_get_file, cfs_register_file, cfs_release_file, initial_state,
}
use fusefs_block.Cfs.Once.{occurs, find_slot-none, once-free, release-fds}
use fusefs_block.Cfs.Invariant.{entry_of, get_of, IsTable, initial-IsTable, get-grow}
use fusefs_block.Cfs.Entries.{absent_lem}
use fusefs_block.Cfs.Entering.{run-register}
use fusefs_block.Cfs.Release.{cfs_release_file_lem}

-- What happens to the table: a file is opened, or closed.
pub data Event : Type 0 where
  opened : ℕ → CString → Event
  closed : ℕ → Event

-- The map that the table stands for, by what happened, the latest first.
unfoldable pub open_path : List Event → ℕ → Option CString
open_path [] fd = none
open_path (opened other path ∷ events) fd = if other == fd then some path else open_path events fd
open_path (closed other ∷ events) fd = if other == fd then none else open_path events fd

abbrev pub path_of : Option CfsFile → Option CString
path_of none = none
path_of (some file) = some file.path

module _ (os : Posix) where
  -- The system gives no descriptor twice; an array has less than 2^63 entries.
  pub data Step : CfsState → Event → CfsState → Type 0 where
    register :
        {state after : CfsState} (garbage : Garbage) (fuel fd : ℕ) (path : CString) (r : ℤ)
        (s s' : os.State)
        → state.fds_cap < 2 ^ 63
        → cfs_get_file state (pos fd) ≡ none
        → cfs_register_file os fuel garbage state path (pos fd) s ≡ some ((r, after), s')
        → Step state (opened fd path) after
    release :
        {state after : CfsState} (fd : ℕ) (r : ℤ)
        → state.fds_cap < 2 ^ 63
        → cfs_release_file state (pos fd) ≡ (r, after)
        → Step state (closed fd) after

  pub data Reach (start : CfsState) : List Event → CfsState → Type 0 where
    here : Reach start [] start
    next :
        {events : List Event} {event : Event} {t u : CfsState}
        → Reach start events t
        → Step t event u
        → Reach start (event ∷ events) u

-- A table that stands for a map.
pub record Represents (state : CfsState) (paths : ℕ → Option CString) : Type 0 where
  pub table : IsTable state
  pub once : (fd : ℕ) → occurs fd state.fds ≤ 1
  pub lookup : (fd : ℕ) → path_of (cfs_get_file state (pos fd)) ≡ paths fd

initial-Represents :
    (garbage : Garbage) (max_fds : ℤ) (storage : BlkStore)
    → Represents (initial_state garbage max_fds storage) (open_path [])
unfolding initial_state open_path cfs_get_file occurs
initial-Represents garbage max_fds storage = record {
  table = initial-IsTable garbage max_fds storage;
  once = λ fd. omega arith;
  lookup = λ fd. refl;
}

-- The lookups after a change of one descriptor.
lookup_changed :
    (events : List Event) (event : Event) (fd : ℕ) (o : Option CString) (state after : CfsState)
    → ((other : ℕ)
        → open_path (event ∷ events) other ≡ (if fd == other then o else open_path events other))
    → ((other : ℕ) → path_of (cfs_get_file state (pos other)) ≡ open_path events other)
    → path_of (cfs_get_file after (pos fd)) ≡ o
    → ((other : ℕ) → other ≢ fd → cfs_get_file after (pos other) ≡ cfs_get_file state (pos other))
    → (other : ℕ) → path_of (cfs_get_file after (pos other)) ≡ open_path (event ∷ events) other
lookup_changed events event fd o state after map before changed others other =
    elim (Bool-cases (fd == other)) [
      | inl same ↦
          let e : fd ≡ other = (==_iff fd other).0 same in
          ap (λ k. path_of (cfs_get_file after (pos k))) (sym e)
          ∙ changed
          ∙ sym (map other ∙ ap (λ b. if b then o else open_path events other) same)
      | inr differ ↦
          ap path_of (others other (λ e. ne_true (sym differ ∙ (==_iff fd other).1 (sym e))))
          ∙ before other
          ∙ sym (map other ∙ ap (λ b. if b then o else open_path events other) differ)
    ]
  where
    ne_true : false ≢ true
    ne_true e = cc

-- Releasing what the table does not have changes nothing.
release_absent :
    (state : CfsState) (fd : ℤ)
    → find_slot fd state.fds 0 ≡ none
    → (cfs_release_file state fd).1 ≡ state
unfolding cfs_release_file
release_absent state fd e = rw (cfs_release_file, e) refl

release_found-Represents :
    (events : List Event) (state : CfsState) (fd i : ℕ) (f : CfsFile)
    → state.fds_cap < 2 ^ 63
    → Represents state (open_path events)
    → find_slot (pos fd) state.fds 0 ≡ some i
    → cfs_get_file state (pos fd) ≡ some f
    → Represents (cfs_release_file state (pos fd)).1 (open_path (closed fd ∷ events))
unfolding open_path
release_found-Represents events state fd i f fits before e g =
    let (held, fds) = release-fds state (pos fd) i e in
    let (gone, once) = once-free fd state.fds i held before.once in
    let (left, result, table, count, others) =
      cfs_release_file_lem state fd f before.table fits g in
    let same : left ≡ (cfs_release_file state (pos fd)).1 =
      sym (ap (λ (q : ℤ × CfsState). q.1) result) in
    let fds' : left.fds ≡ set state.fds i minus_one = ap (λ (t : CfsState). t.fds) same ∙ fds in
    subst (λ t. Represents t (open_path (closed fd ∷ events))) same
      (record {
        table = table;
        once = subst (λ fds. (other : ℕ) → occurs other fds ≤ 1) (sym fds') once;
        lookup =
            lookup_changed events (closed fd) fd none state left (λ other. refl) before.lookup
              (ap path_of (
                get_of left (pos fd)
                ∙ ap (entry_of left.files)
                    (find_slot-none fd 0 left.fds (ap (occurs fd) fds' ∙ gone))))
              others;
      })

release-Represents :
    (events : List Event) (state : CfsState) (fd : ℕ)
    → state.fds_cap < 2 ^ 63
    → Represents state (open_path events)
    → (o : Option ℕ) → find_slot (pos fd) state.fds 0 ≡ o
    → Represents (cfs_release_file state (pos fd)).1 (open_path (closed fd ∷ events))
unfolding open_path
release-Represents events state fd fits before none e =
    subst (λ t. Represents t (open_path (closed fd ∷ events)))
      (sym (release_absent state (pos fd) e))
      (record {
        table = before.table;
        once = before.once;
        lookup =
            lookup_changed events (closed fd) fd none state state (λ other. refl) before.lookup
              (ap path_of (get_of state (pos fd) ∙ ap (entry_of state.files) e)) (λ other ne. refl);
      })
release-Represents events state fd fits before (some i) e = found (cfs_get_file state (pos fd)) refl
  where
    found :
        (o : Option CfsFile)
        → cfs_get_file state (pos fd) ≡ o
        → Represents (cfs_release_file state (pos fd)).1 (open_path (closed fd ∷ events))
    found none g =
        let never : none ≡ some i = sym (absent_lem state before.table fd _ refl g) ∙ e in
        absurd (cc)
    found (some f) g = release_found-Represents events state fd i f fits before e g

Step-Represents :
    {os : Posix} {state after : CfsState} {event : Event} (events : List Event)
    → Step os state event after
    → Represents state (open_path events)
    → Represents after (open_path (event ∷ events))
unfolding open_path
Step-Represents {os} events (register {state} {after} garbage fuel fd path r s s' fits absent h)
      before =
    let (claimed, once) =
      run-register os garbage fuel state after path fd r s s' before.table before.once fits absent
        h in
    let (f, found, is) = claimed.entered in
    record {
      table = claimed.table;
      once = once;
      lookup =
          lookup_changed events (opened fd path) fd (some path) state after (λ other. refl)
            before.lookup (ap path_of found ∙ ap some is.path_same)
            (λ other ne. claimed.others other ne ∙ get-grow garbage state before.table other);
    }
Step-Represents events (release {state} {after} fd r fits h) before =
    subst (λ t. Represents t (open_path (closed fd ∷ events))) (ap (λ (q : ℤ × CfsState). q.1) h)
      (release-Represents events state fd fits before (find_slot (pos fd) state.fds 0) refl)

-- The table that is reached from the one that `cfs_init` sets up, by any sequence of
-- `cfs_register_file` and `cfs_release_file`, meets the invariant, and `cfs_get_file` finds under
-- each descriptor an entry with the path under which the descriptor was opened last, or nothing
-- if it has been closed since or was never opened. The system may be any, and its reads of a
-- header may fail. A descriptor is not given twice while it is open, and the capacity stays below
-- 2^63.
pub Reach-Represents :
    (os : Posix) (garbage : Garbage) (max_fds : ℤ) (storage : BlkStore) (events : List Event)
    (state : CfsState)
    → Reach os (initial_state garbage max_fds storage) events state
    → Represents state (open_path events)
Reach-Represents os garbage max_fds storage events state here =
    initial-Represents garbage max_fds storage
Reach-Represents os garbage max_fds storage events state (next {events = before} r step) =
    Step-Represents before step (Reach-Represents os garbage max_fds storage before _ r)
