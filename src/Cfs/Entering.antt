-- ===== src/Cfs/Entering.antt =====
-- What a call of `cfs_register_file` of cfs/src/cfs.c that ends has done, on any system.
use fusefs_block.Base.{
  ℕ, ◌^◌, ◌≤◌, ◌<◌, ◌≡◌, refl, sym, ap, ◌∙◌, Option, none, some, arith, set, ℤ, pos, Bytes, CString,
}
use mathlib.Core.Path.{subst}
use fusefs_block.Posix.{Posix, M, pure, ◌>>=◌}
use fusefs_block.Cfs.{CfsState, Garbage}
use fusefs_block.Cfs.Table.{
  find_slot, grow, update_header, cfs_get_file, read_header, cfs_register_file,
}
use fusefs_block.Cfs.Once.{
  occurs, occurs-none, occurs-grow, claim-fds, update_header-fds, once-enter,
}
use fusefs_block.Cfs.Invariant.{IsTable, grow-IsTable, grow_room, get-grow, fds_cap-grow}
use fusefs_block.Cfs.Entries.{Claimed, claim_room, absent_lem}
use fusefs_block.Cfs.Register.{register_claimed, update_header-Claimed}

-- A computation that ends is one after the other of its parts.
run-bind :
    {S A B : Type 0} (m : M S A) (f : A → M S B) (s : S) (r : B × S)
    → (m >>= f) s ≡ some r
    → (a : A) × (t : S) × (m s ≡ some (a, t)) × (f a t ≡ some r)
unfolding ◌>>=◌
run-bind {S} {A} {B} m f s r h = go (m s) refl h
  where
    go :
        (o : Option (A × S))
        → m s ≡ o
        → (elim o as (λ _. Option (B × S)) [ none ↦ none | some (a, t) ↦ f a t ]) ≡ some r
        → (a : A) × (t : S) × (m s ≡ some (a, t)) × (f a t ≡ some r)
    go none e h = absurd (cc)
    go (some (a, t)) e h = (a, t, e, h)

run-pure : {S A : Type 0} (a b : A) (s t : S) → pure {S = S} a s ≡ some (b, t) → b ≡ a
unfolding pure
run-pure a b s t h = cc

module _ (os : Posix) (garbage : Garbage) where
  -- Whatever the seek and the reads of the header give, only the header of the entry is set.
  run-read_header :
      (fuel : ℕ) (state : CfsState) (i : ℕ) (fd r : ℤ) (s s' : os.State) (after : CfsState)
      → read_header os fuel garbage state i fd s ≡ some ((r, after), s')
      → (a : Bytes) × (b : Bytes) × (after ≡ update_header state i a b)
  unfolding read_header
  run-read_header fuel state i fd r s s' after h =
      let (x, t, e, h1) = run-bind _ _ s ((r, after), s') h in
      let ((b, size_bytes), u, e', h2) = run-bind _ _ t ((r, after), s') h1 in
      let ((c, blocks_bytes), w, e'', h3) = run-bind _ _ u ((r, after), s') h2 in
      (size_bytes, blocks_bytes, ap (λ (q : ℤ × CfsState). q.1) (run-pure _ (r, after) w s' h3))

  -- `cfs_register_file` on any system: also where the header cannot be read, the file is entered,
  -- and no descriptor is there twice.
  pub run-register :
      (fuel : ℕ) (state after : CfsState) (path : CString) (fd : ℕ) (r : ℤ) (s s' : os.State)
      → IsTable state
      → ((other : ℕ) → occurs other state.fds ≤ 1)
      → state.fds_cap < 2 ^ 63
      → cfs_get_file state (pos fd) ≡ none
      → cfs_register_file os fuel garbage state path (pos fd) s ≡ some ((r, after), s')
      → Claimed (grow garbage state) after path fd × ((other : ℕ) → occurs other after.fds ≤ 1)
  run-register fuel state after path fd r s s' table once fits absent h =
      let grown : CfsState = grow garbage state in
      let grown-IsTable : IsTable grown = grow-IsTable garbage state table in
      let free : find_slot (pos fd) grown.fds 0 ≡ none =
        absent_lem grown grown-IsTable fd _ refl (get-grow garbage state table fd ∙ absent) in
      let (i, claimed, claims, at, entered) =
        claim_room grown grown-IsTable garbage path fd (grow_room garbage state table)
          (omega (arith, fds_cap-grow garbage state table)) free in
      let (a, b, e) =
        run-read_header fuel claimed i (pos fd) r s s' after
          (sym (register_claimed os fuel garbage state claimed path (pos fd) i s claims) ∙ h) in
      let (empty, fds) = claim-fds garbage grown claimed path (pos fd) i claims in
      let fds' : after.fds ≡ set grown.fds i (pos fd) =
        ap (λ (t : CfsState). t.fds) e ∙ update_header-fds claimed i a b ∙ fds in
      (
        subst (λ t. Claimed (grow garbage state) t path fd) (sym e)
            (update_header-Claimed entered at a b),
        subst (λ fds. (other : ℕ) → occurs other fds ≤ 1) (sym fds')
            (once-enter fd grown.fds i empty (occurs-none fd 0 grown.fds free)
              (λ other. omega (arith, occurs-grow garbage state table other, once other))),
      )
