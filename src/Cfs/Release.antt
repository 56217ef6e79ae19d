-- ===== src/Cfs/Release.antt =====
-- What `cfs_release_file` of cfs/src/cfs.c promises.
use fusefs_block.Base.{
  ℕ, zero, suc, ◌+◌, ◌-◌, ◌/◌, ◌%◌, ◌^◌, ◌≤◌, ◌<◌, ◌≡◌, ◌≢◌, refl, sym, ap, ◌∙◌, Option, none, some,
  List, [], ◌∷◌, arith, pos, drop, get_elem?, replicate, set, length-set,
}
use fusefs_block.Io.{minus_one}
use fusefs_block.Cfs.{CfsFile, CfsState}
use fusefs_block.Cfs.Header.{}
use fusefs_block.Cfs.Table.{find_slot, cfs_get_file, cfs_release_file}
use fusefs_block.Cfs.Slots.{drop-set, used, find_slot_holds, used-set_free, find_slot-set_ne}
use fusefs_block.Cfs.Invariant.{IsTable, used-le-half, entry_of, get_of}
use native.Mathlib.Decide.{dec_le}
use fusefs_block.Cfs.Entries.{pos_ne}

get_elem?-drop :
    {A : Type 0} (xs : List A) (n i : ℕ) → n ≤ i → get_elem? xs i ≡ get_elem? (drop n xs) (i - n)
get_elem?-drop xs zero i h = ap (get_elem? xs) (omega arith)
get_elem?-drop [] (suc n) i h = refl
get_elem?-drop (x ∷ xs) (suc n) zero h = absurd (omega arith)
get_elem?-drop (x ∷ xs) (suc n) (suc i) h =
    get_elem?-drop xs n i (omega arith) ∙ ap (get_elem? (drop n xs)) (omega arith)

get_elem?-replicate :
    {A : Type 0} (n i : ℕ) (a b : A) → get_elem? (replicate n a) i ≡ some b → b ≡ a
get_elem?-replicate zero i a b h = cc
get_elem?-replicate (suc n) zero a b h = cc
get_elem?-replicate (suc n) (suc i) a b h = get_elem?-replicate n i a b h

-- An entry that is in use is in the lower half.
in_use_low :
    (state : CfsState)
    → IsTable state
    → (fd i : ℕ) → get_elem? state.fds i ≡ some (pos fd)
    → i < state.fds_cap / 2
in_use_low state table fd i here = elim (dec_le (state.fds_cap / 2) i) [
  | no low ↦ omega arith
  | yes high ↦
      let free : pos fd ≡ minus_one =
        get_elem?-replicate (state.fds_cap / 2) (i - state.fds_cap / 2) minus_one (pos fd) (
          ap (λ xs. get_elem? xs (i - state.fds_cap / 2)) (sym table.upper_free)
          ∙ sym (get_elem?-drop state.fds (state.fds_cap / 2) i high)
          ∙ here) in
      absurd (cc)
]

-- The state in which entry `i` is free.
abbrev released : CfsState → ℕ → ℕ → CfsState
released state i n = record state { fds = set state.fds i minus_one; n_fds = n }

-- Releasing a file that is found gives 0. There is one file less, the invariant of the table is
-- kept, and every other descriptor finds what it found before. The table meets the invariant
-- before, and its capacity is below 2^63.
pub cfs_release_file_lem :
    (state : CfsState) (fd : ℕ) (f : CfsFile)
    → IsTable state
    → state.fds_cap < 2 ^ 63
    → cfs_get_file state (pos fd) ≡ some f
    → (after : CfsState) × (cfs_release_file state (pos fd) ≡ (pos 0, after))
      × IsTable after
      × (after.n_fds + 1 ≡ state.n_fds)
      × ((other : ℕ) → other ≢ fd → cfs_get_file after (pos other) ≡ cfs_get_file state (pos other))
unfolding cfs_release_file
cfs_release_file_lem state fd f table fits found = release (find_slot (pos fd) state.fds 0) refl
  where
    release :
        (o : Option ℕ)
        → find_slot (pos fd) state.fds 0 ≡ o
        → (after : CfsState) × (cfs_release_file state (pos fd) ≡ (pos 0, after))
          × IsTable after
          × (after.n_fds + 1 ≡ state.n_fds)
          × ((other : ℕ)
              → other ≢ fd
              → cfs_get_file after (pos other) ≡ cfs_get_file state (pos other))
    release none e = absurd (
        let never : none ≡ some f =
          ap (entry_of state.files) (sym e) ∙ sym (get_of state (pos fd)) ∙ found in
        cc)
    release (some k) e =
        let (i, shift, lt, here') = find_slot_holds (pos fd) state.fds 0 k e in
        let here : get_elem? state.fds k ≡ some (pos fd) =
          ap (get_elem? state.fds) (let e : k ≡ i = omega arith in e) ∙ here' in
        let less : suc (used (set state.fds k minus_one)) ≡ used state.fds =
          used-set_free state.fds k fd here in
        let count : (state.n_fds + 2 ^ 64 - 1) % 2 ^ 64 ≡ state.n_fds - 1 =
          omega (arith, table.counted, used-le-half state table) in
        (
          released state k (state.n_fds - 1),
          rw (cfs_release_file, e, count) refl,
          record {
            fds_length = length-set state.fds k minus_one ∙ table.fds_length;
            files_length = table.files_length;
            even = table.even;
            positive = table.positive;
            counted = omega (arith, table.counted);
            upper_free =
                drop-set state.fds k (state.fds_cap / 2) minus_one
                  (in_use_low state table fd k here)
                ∙ table.upper_free;
          },
          omega (arith, table.counted),
          λ other ne.
              get_of (released state k (state.n_fds - 1)) (pos other)
              ∙ ap (entry_of state.files) (
                  find_slot-set_ne (pos other) state.fds k 0 (pos fd) minus_one here
                    (pos_ne fd other (λ e. ne (sym e))) refl)
              ∙ sym (get_of state (pos other)),
        )
