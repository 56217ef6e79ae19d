-- ===== src/Cfs/Header.antt =====
-- Reading the header of a file, in `cfs_register_file` of cfs/src/cfs.c.
use fusefs_block.Base.{
  ℕ, ◌+◌, ◌≤◌, ◌<◌, ◌≡◌, refl, ap, ◌∙◌, some, true, arith, pos, ◌+ℤ◌, int_or, to_int, length, take,
  drop, length-take, length-drop, CString, Bytes,
}
use fusefs_block.Posix.{Posix, seek_set}
use fusefs_block.Posix.View.{
  View, Descriptor, find_fd, find_fd-seek_fd, can_read, moved, moved-moved,
}
use fusefs_block.Posix.Laws.{IsPosix}
use fusefs_block.Posix.Runs.{Runs, Runs-pure, Runs-bind, Runs-cast}
use fusefs_block.Io.{s_read}
use fusefs_block.Io.Seek.{Runs-s_lseek}
use fusefs_block.Io.Read.{Runs-s_read}
use fusefs_block.Cfs.{CfsState, Garbage, magic_size, off_size}
use fusefs_block.Cfs.Table.{read_header, update_header}

-- The two numbers of a header.
abbrev pub size_field : Bytes → Bytes
size_field c = take off_size (drop magic_size c)

abbrev pub blocks_field : Bytes → Bytes
blocks_field c = take off_size (drop (magic_size + off_size) c)

-- Both have eight bytes.
pub length-size_field : (c : Bytes) → 23 ≤ length c → length (size_field c) ≡ 8
length-size_field c long = omega (arith, length-take 8 (drop 7 c), length-drop 7 c)

pub length-blocks_field : (c : Bytes) → 23 ≤ length c → length (blocks_field c) ≡ 8
length-blocks_field c long = omega (arith, length-take 8 (drop 15 c), length-drop 15 c)

module _ {os : Posix} (law : IsPosix os) {signals : ℕ} (v : View) (fd : ℕ) (d : Descriptor)
    (p : CString) (c : Bytes) (open_ : find_fd fd v.descriptors ≡ some d) (file : d.file ≡ some p)
    (readable : can_read d.access ≡ true) (holds : v.files p ≡ some c) (long : 23 ≤ length c) where
  -- Eight bytes are read at an offset, and the descriptor moves behind them.
  Runs-field :
      (fuel off : ℕ)
      → 8 + signals < fuel
      → off + 8 ≤ length c
      → Runs law signals
          (s_read os fuel (pos fd) off_size)
          (moved v fd off)
          (pos 8, take 8 (drop off c))
          (moved v fd (off + 8))
  Runs-field fuel off f within =
      let at : Descriptor = record d { offset = off } in
      let len : length (take 8 (drop off c)) ≡ 8 =
        omega (arith, length-take 8 (drop off c), length-drop off c) in
      Runs-cast (ap (λ n. (pos n, take 8 (drop off c))) len)
        (moved-moved v fd off _ ∙ ap (λ n. moved v fd (off + n)) len)
        (Runs-s_read law signals fd p c fuel 8 (moved v fd off) at
          (find_fd-seek_fd fd off v.descriptors d open_) file readable holds f)

  pub Runs-read_header :
      (garbage : Garbage) (fuel : ℕ) (state : CfsState) (i : ℕ)
      → 8 + signals < fuel
      → Runs law signals
          (read_header os fuel garbage state i (pos fd))
          v
          (pos fd, update_header state i (size_field c) (blocks_field c))
          (moved v fd 23)
  unfolding read_header int_or to_int ◌+ℤ◌
  Runs-read_header garbage fuel state i f =
      Runs-bind _
        (Runs-s_lseek law fuel v fd (pos 7) seek_set 7 d p c open_ file holds refl (omega arith)
          (omega arith))
        (Runs-bind _ (Runs-field fuel 7 f (omega arith))
          (Runs-bind _ (Runs-field fuel 15 f (omega arith)) (Runs-pure _ _)))
