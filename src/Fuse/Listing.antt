-- ===== src/Fuse/Listing.antt =====
-- What `bb_readdir` of cfs/src/bbfs.c promises.
use fusefs_block.Base.{
  ℕ, ◌≡◌, ◌⊎◌, inl, inr, refl, sym, ap, ◌∙◌, Bool, Bool-cases, true, false, List, [], ◌∷◌, ◌++◌,
  if◌then◌else◌, ℤ, pos, negsuc, CString, bytes_eq,
}
use mathlib.Core.Path.{subst}
use mathlib.Core.List.{append_assoc, append-nil}
use fusefs_block.Storage.{blocks_directory}
use fusefs_block.Fuse.Dir.{readdir_loop, bb_readdir}

-- The names that are not the directory of the blocks.
unfoldable pub visible : List CString → List CString
visible [] = []
visible (name ∷ names) =
    if bytes_eq name blocks_directory then visible names else name ∷ visible names

-- All visible names have been given, or the filler refused one and those before it have.
abbrev pub Lists :
    (List CString → CString → Bool) → List CString → List CString → ℤ × List CString → Type 0
Lists full given names out =
    (out ≡ (pos 0, given ++ visible names))
    ⊎ ((more : List CString) × (next : CString) × (rest : List CString) × (out
          ≡ (negsuc 11, given ++ more))
        × (visible names ≡ more ++ (next ∷ rest))
        × (full (given ++ more) next ≡ true))

module _ (full : List CString → CString → Bool) where
  visible_other :
      (name : CString) (names : List CString)
      → bytes_eq name blocks_directory ≡ false
      → visible (name ∷ names) ≡ name ∷ visible names
  unfolding visible
  visible_other name names other = rw other refl

  given_one :
      (given : List CString) (name : CString) (names : List CString) (out : ℤ × List CString)
      → bytes_eq name blocks_directory ≡ false
      → Lists full (given ++ (name ∷ [])) names out
      → Lists full given (name ∷ names) out
  given_one given name names out other (inl e) = inl (
      e
      ∙ ap (λ t. (pos 0, t))
          (append_assoc given (name ∷ []) (visible names)
            ∙ ap (λ t. given ++ t) (sym (visible_other name names other))))
  given_one given name names out other (inr (more, next, rest, e, split, refused)) = inr (
    name ∷ more,
    next,
    rest,
    e ∙ ap (λ t. (negsuc 11, t)) (append_assoc given (name ∷ []) more),
    visible_other name names other ∙ ap (λ t. name ∷ t) split,
    ap (λ t. full t next) (sym (append_assoc given (name ∷ []) more)) ∙ refused,
  )

  loop_taken :
      (given : List CString) (name : CString) (names : List CString)
      → bytes_eq name blocks_directory ≡ false
      → full given name ≡ false
      → readdir_loop full given (name ∷ names) ≡ readdir_loop full (given ++ (name ∷ [])) names
  unfolding readdir_loop
  loop_taken given name names other taken = rw (readdir_loop, other, taken) refl

  readdir_loop_lem :
      (given names : List CString) → Lists full given names (readdir_loop full given names)
  unfolding readdir_loop visible
  readdir_loop_lem given [] = inl (ap (λ t. (pos 0, t)) (sym (append-nil given)))
  readdir_loop_lem given (name ∷ names) = elim (Bool-cases (bytes_eq name blocks_directory)) [
    | inl hidden ↦ rw (readdir_loop, hidden) (readdir_loop_lem given names)
    | inr other ↦ elim (Bool-cases (full given name)) [
      | inl refused ↦
          rw (readdir_loop, other, refused)
            (inr (
              [],
              name,
              visible names,
              ap (λ t. (negsuc 11, t)) (sym (append-nil given)),
              refl,
              ap (λ t. full t name) (append-nil given) ∙ refused,
            ))
      | inr taken ↦
          subst (Lists full given (name ∷ names)) (sym (loop_taken given name names other taken))
            (given_one given name names _ other (readdir_loop_lem (given ++ (name ∷ [])) names))
    ]
  ]

-- For a directory with an entry, whatever the filler accepts: the filler has received, in order,
-- all names but that of the directory of the blocks, and the result is 0; or it refused one of
-- these, has received those before it, and the result is -ENOMEM.
pub bb_readdir_lem :
    (full : List CString → CString → Bool) (name : CString) (names : List CString) (errno : ℕ)
    → Lists full [] (name ∷ names) (bb_readdir full (name ∷ names) errno)
unfolding bb_readdir
bb_readdir_lem full name names errno = readdir_loop_lem full [] (name ∷ names)
