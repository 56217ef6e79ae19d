-- ===== src/Fuse/Entry.antt =====
-- The entry of the table that `bb_write` of cfs/src/bbfs.c changes in place.
use fusefs_block.Base.{
  ℕ, zero, suc, ◌<◌, ◌≡◌, refl, sym, ap, ◌∙◌, Option, none, some, arith, List, [], ◌∷◌, ℤ, length,
  get_elem?, set,
}
use fusefs_block.Cfs.{CfsFile, CfsState}
use fusefs_block.Cfs.Table.{find_slot, cfs_get_file}
use fusefs_block.Cfs.Slots.{get_elem?-set_self}
use fusefs_block.Cfs.Invariant.{entry_of, get_of}
use fusefs_block.Fuse.Data.{put_entry}
use fusefs_block.Fuse.Aligned.{}

some_in : {A : Type 0} (xs : List A) (i : ℕ) (x : A) → get_elem? xs i ≡ some x → i < length xs
some_in [] i x h = cc
some_in (y ∷ xs) zero x h = omega arith
some_in (y ∷ xs) (suc i) x h = let later = some_in xs i x h in omega arith

-- An entry that is written back is the one that is found, in the same store.
pub get-put_entry :
    (state : CfsState) (fd : ℤ) (file file' : CfsFile)
    → cfs_get_file state fd ≡ some file
    → (cfs_get_file (put_entry state fd file') fd ≡ some file')
      × ((put_entry state fd file').storage ≡ state.storage)
unfolding put_entry
get-put_entry state fd file file' h = go (find_slot fd state.fds 0) refl
  where
    go :
        (o : Option ℕ)
        → find_slot fd state.fds 0 ≡ o
        → (cfs_get_file (put_entry state fd file') fd ≡ some file')
          × ((put_entry state fd file').storage ≡ state.storage)
    go none e =
        let never : none ≡ some file =
          ap (entry_of state.files) (sym e) ∙ sym (get_of state fd) ∙ h in
        absurd (cc)
    go (some i) e =
        let there : get_elem? state.files i ≡ some file =
          ap (entry_of state.files) (sym e) ∙ sym (get_of state fd) ∙ h in
        rw (put_entry, e)
          (
            get_of (record state { files = set state.files i file' }) fd
                ∙ ap (entry_of (set state.files i file')) e
                ∙ get_elem?-set_self state.files i file' (some_in state.files i file there),
            refl,
          )

set_same : {A : Type 0} (xs : List A) (i : ℕ) (x : A) → get_elem? xs i ≡ some x → set xs i x ≡ xs
set_same [] i x h = refl
set_same (y ∷ xs) zero x h = let e : y ≡ x = cc in rw e
set_same (y ∷ xs) (suc i) x h = rw (set_same xs i x h)

-- Writing back what is there changes nothing.
pub put_entry_same :
    (state : CfsState) (fd : ℤ) (file : CfsFile)
    → cfs_get_file state fd ≡ some file
    → put_entry state fd file ≡ state
unfolding put_entry
put_entry_same state fd file h = go (find_slot fd state.fds 0) refl
  where
    go : (o : Option ℕ) → find_slot fd state.fds 0 ≡ o → put_entry state fd file ≡ state
    go none e = rw (put_entry, e) refl
    go (some i) e =
        let there : get_elem? state.files i ≡ some file =
          ap (entry_of state.files) (sym e) ∙ sym (get_of state fd) ∙ h in
        rw (put_entry, e)
          (ap (λ files. record state { files = files }) (set_same state.files i file there))
