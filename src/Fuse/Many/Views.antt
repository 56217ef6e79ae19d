-- ===== src/Fuse/Many/Views.antt =====
-- What the system shows after some blocks of a request of cfs/src/bbfs.c have been written.
use fusefs_block.Base.{
  ℕ, zero, suc, ◌<◌, ◌≡◌, ◌≢◌, refl, sym, ap, ◌∙◌, Bool-cases, inl, inr, some, arith, Bytes,
  CString, bytes_eq, bytes_eq→eq, bytes_eq_refl, none, true, false,
}
use native.Mathlib.Decide.{dec_lt}
use fusefs_block.Posix.View.{
  View, Descriptor, find_fd, find_fd-seek_fd_ne, put_file_self, put_file_ne,
}
use fusefs_block.Io.Opened.{IsOpened, at_file, found_at}
use fusefs_block.Storage.Refs.{block_file}
use fusefs_block.Storage.Shared.{
  Keeps, after_store, refs_after, after_store_holds, after_store_other, after_store-descriptors,
}
use fusefs_block.Cfs.Image.{image_bytes}
use fusefs_block.Cfs.Contract.{IsOpened-descriptors}
use fusefs_block.Fuse.Many.{Transfer, nth_path, nth_bytes, written, AreWritable}

-- What is in the store already stays when a block is stored.
after_store_stays :
    (v : View) (path : CString) (bytes : Bytes) (keeps : Keeps v path bytes) (q : CString)
    (c : Bytes)
    → v.files q ≡ some c
    → (after_store v path bytes keeps).files q ≡ some c
after_store_stays v path bytes (inl absent) q c h =
    put_file_ne path q _ v.files (λ same. none_ne (sym absent ∙ ap v.files same ∙ h)) ∙ h
  where
    none_ne : none ≢ some c
    none_ne e = cc
after_store_stays v path bytes (inr known) q c h = h

Keeps-other :
    (v w : View) (q : CString) (c : Bytes) → w.files q ≡ v.files q → Keeps v q c → Keeps w q c
Keeps-other v w q c same (inl absent) = inl (same ∙ absent)
Keeps-other v w q c same (inr (refs, known)) = inr (refs, same ∙ known)

bytes_eq→ne : (xs ys : Bytes) → bytes_eq xs ys ≡ false → xs ≢ ys
bytes_eq→ne xs ys h e = let self : bytes_eq xs xs ≡ true = bytes_eq_refl xs in cc

-- A name that was free or held its bytes is so after another block is stored.
Keeps-after_store :
    (v : View) (path : CString) (bytes : Bytes) (keeps : Keeps v path bytes) (q : CString)
    (c : Bytes)
    → Keeps v q c
    → (path ≡ q → bytes ≡ c)
    → Keeps (after_store v path bytes keeps) q c
Keeps-after_store v path bytes keeps q c free same = elim (Bool-cases (bytes_eq q path)) [
  | inl e ↦
      let at : q ≡ path = bytes_eq→eq q path e in
      inr (
        refs_after v path bytes keeps,
        ap (after_store v path bytes keeps).files at
            ∙ after_store_holds v path bytes keeps
            ∙ ap (λ b. some (block_file (refs_after v path bytes keeps) b)) (same (sym at)),
      )
  | inr e ↦
      Keeps-other v (after_store v path bytes keeps) q c
        (after_store_other v path bytes keeps q (bytes_eq→ne q path e)) free
]

module _ (r : Transfer) (m : ℕ) (are : AreWritable r m) (v : View) (fd : ℕ) where
  -- After `i` blocks: the file is the image with their pairs and open as before, the store has
  -- them, what it had is still there, and nothing else is different.
  pub record Wrote (w : View) (i : ℕ) : Type 0 where
    pub descriptor : Descriptor
    pub opened : IsOpened w fd r.p descriptor
    pub holds : w.files r.p ≡ some (image_bytes (written r i))
    pub keeps : (j : ℕ) → j < m → Keeps w (nth_path r j) (nth_bytes r j)
    pub blocks :
        (j : ℕ)
        → j < i
        → (refs : ℕ) × (w.files (nth_path r j) ≡ some (block_file refs (nth_bytes r j)))
    pub stays : (q : CString) (c : Bytes) → q ≢ r.p → v.files q ≡ some c → w.files q ≡ some c
    pub files_same :
        (q : CString) → q ≢ r.p → ((j : ℕ) → j < i → q ≢ nth_path r j) → w.files q ≡ v.files q
    pub fds_same : (k : ℕ) → fd ≢ k → find_fd k w.descriptors ≡ find_fd k v.descriptors

  -- Before the first block.
  pub Wrote-start :
      (d : Descriptor)
      → IsOpened v fd r.p d
      → v.files r.p ≡ some (image_bytes r.image)
      → ((j : ℕ) → j < m → Keeps v (nth_path r j) (nth_bytes r j))
      → Wrote v zero
  unfolding written
  Wrote-start d is holds keeps = record {
    descriptor = d;
    opened = is;
    holds = holds;
    keeps = keeps;
    blocks = λ j lt. absurd (omega arith);
    stays = λ q c ne h. h;
    files_same = λ q ne other. refl;
    fds_same = λ k ne. refl;
  }

  -- The view that registering block `i` leaves.
  abbrev pub next_view : (w : View) (i : ℕ) → Keeps w (nth_path r i) (nth_bytes r i) → View
  next_view w i keeps =
      at_file (after_store w (nth_path r i) (nth_bytes r i) keeps) fd r.p
        (image_bytes (written r (suc i))) 23

  -- The files other than this one.
  next_view_other :
      (w : View) (i : ℕ) (keeps : Keeps w (nth_path r i) (nth_bytes r i)) (q : CString)
      → q ≢ r.p
      → (next_view w i keeps).files q ≡ (after_store w (nth_path r i) (nth_bytes r i) keeps).files q
  next_view_other w i keeps q ne = put_file_ne r.p q _ _ (λ e. ne (sym e))

  next_view-Keeps :
      (w : View) (i : ℕ)
      → Wrote w i
      → i < m
      → (keeps : Keeps w (nth_path r i) (nth_bytes r i)) (j : ℕ) → j < m
      → Keeps (next_view w i keeps) (nth_path r j) (nth_bytes r j)
  next_view-Keeps w i wrote lt keeps j lt' =
      Keeps-other (after_store w (nth_path r i) (nth_bytes r i) keeps) (next_view w i keeps)
        (nth_path r j) (nth_bytes r j)
        (next_view_other w i keeps (nth_path r j) (λ e. are.apart j lt' (sym e)))
        (Keeps-after_store w (nth_path r i) (nth_bytes r i) keeps (nth_path r j) (nth_bytes r j)
          (wrote.keeps j lt') (are.no_collision i j lt lt'))

  next_view-blocks :
      (w : View) (i : ℕ)
      → Wrote w i
      → i < m
      → (keeps : Keeps w (nth_path r i) (nth_bytes r i)) (j : ℕ) → j < suc i
      → (refs : ℕ) × ((next_view w i keeps).files (nth_path r j)
          ≡ some (block_file refs (nth_bytes r j)))
  next_view-blocks w i wrote lt keeps j lt' =
      let other =
        next_view_other w i keeps (nth_path r j)
          (λ e. are.apart j (let h : j < m = omega arith in h) (sym e)) in
      elim (dec_lt j i) [
        | yes before ↦
            let (refs, h) = wrote.blocks j before in
            (
              refs,
              other ∙ after_store_stays w (nth_path r i) (nth_bytes r i) keeps (nth_path r j) _ h,
            )
        | no last ↦
            let same : i ≡ j = omega arith in
            (
              refs_after w (nth_path r i) (nth_bytes r i) keeps,
              other
                  ∙ ap (after_store w (nth_path r i) (nth_bytes r i) keeps).files
                      (ap (nth_path r) (sym same))
                  ∙ after_store_holds w (nth_path r i) (nth_bytes r i) keeps
                  ∙ ap
                      (λ z. some (
                        block_file (refs_after w (nth_path r i) (nth_bytes r i) keeps)
                          (nth_bytes r z)))
                      same,
            )
      ]

  pub Wrote-next :
      (w : View) (i : ℕ) (wrote : Wrote w i) (lt : i < m)
      → Wrote (next_view w i (wrote.keeps i lt)) (suc i)
  Wrote-next w i wrote lt =
      let keeps = wrote.keeps i lt in
      let is =
        IsOpened-descriptors w (after_store w (nth_path r i) (nth_bytes r i) keeps) fd r.p
          wrote.descriptor (after_store-descriptors w (nth_path r i) (nth_bytes r i) keeps)
          wrote.opened in
      record {
        descriptor = record wrote.descriptor { offset = 23 };
        opened = record {
          found =
              found_at (after_store w (nth_path r i) (nth_bytes r i) keeps) fd r.p wrote.descriptor
                is (image_bytes (written r (suc i))) 23;
          path_same = is.path_same;
          reads = is.reads;
          writes = is.writes;
        };
        holds = put_file_self r.p _ _;
        keeps = next_view-Keeps w i wrote lt keeps;
        blocks = next_view-blocks w i wrote lt keeps;
        stays = λ q c ne h.
            next_view_other w i keeps q ne
            ∙ after_store_stays w (nth_path r i) (nth_bytes r i) keeps q c (wrote.stays q c ne h);
        files_same = λ q ne other.
            next_view_other w i keeps q ne
            ∙ after_store_other w (nth_path r i) (nth_bytes r i) keeps q
                (other i (let h : i < suc i = omega arith in h))
            ∙ wrote.files_same q ne (λ j before. other j (let h : j < suc i = omega arith in h));
        fds_same = λ k ne.
            find_fd-seek_fd_ne fd k 23 _ ne
            ∙ ap (find_fd k) (after_store-descriptors w (nth_path r i) (nth_bytes r i) keeps)
            ∙ wrote.fds_same k ne;
      }
