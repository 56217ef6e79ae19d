-- ===== src/Util.antt =====
-- cfs/src/util.c: path joining, hexadecimal text, and the hash of a block.
pub mod Combine
pub mod Hexify
use Prim.Native.Nat.{bit_and}
use fusefs_block.Base.{
  ℕ, ◌+◌, ◌-◌, ◌*◌, ◌/◌, Bool, true, false, ◌||◌, Option, none, some, List, [], ◌∷◌, ◌++◌, leb,
  ◌==◌, if◌then◌else◌, length, get_elem?, take, Bytes, CString,
}

-- `DIR_SEPARATOR` on a POSIX system.
abbrev pub dir_separator : ℕ
dir_separator = b'/'

-- `if (path && *path)`: a null pointer and an empty string are treated alike.
abbrev pub text : Option CString → CString
text none = []
text (some s) = s

-- `destination[len - 1] == DIR_SEPARATOR`
pub ends_with_separator : CString → Bool
ends_with_separator s = elim (get_elem? s (length s - 1)) [
  | none ↦ false
  | some c ↦ c == dir_separator
]

pub starts_with_separator : CString → Bool
starts_with_separator [] = false
starts_with_separator (c ∷ s) = c == dir_separator

-- `path2 + 1`
pub skip_char : CString → CString
skip_char [] = []
skip_char (c ∷ s) = s

-- What `combine` leaves in `destination`, up to the terminator.
pub combine_text : CString → CString → CString
unfolding ends_with_separator starts_with_separator skip_char
combine_text [] path2 = path2
combine_text (c ∷ path1) [] = c ∷ path1
combine_text (c ∷ path1) (d ∷ path2) =
    if ends_with_separator (c ∷ path1)
    then (c ∷ path1) ++ (if d == dir_separator then skip_char (d ∷ path2) else d ∷ path2)
    else if starts_with_separator (d ∷ path2)
    then (c ∷ path1) ++ (d ∷ path2)
    else (c ∷ path1) ++ (dir_separator ∷ d ∷ path2)

unfoldable pub combine : Option CString → Option CString → CString
unfolding combine_text
combine path1 path2 = combine_text (text path1) (text path2)

-- `char map[16+1] = "0123456789abcdef"`
abbrev pub hex_map : CString
hex_map =
    b'0' ∷ b'1' ∷ b'2' ∷ b'3' ∷ b'4' ∷ b'5' ∷ b'6' ∷ b'7' ∷ b'8' ∷ b'9' ∷ b'a' ∷ b'b' ∷ b'c' ∷ b'd'
    ∷ b'e' ∷ b'f' ∷ []

-- `map[nibble]`; a nibble is below 16.
unfoldable pub hex_digit : ℕ → ℕ
hex_digit n = elim (get_elem? hex_map n) [ none ↦ 0 | some c ↦ c ]

-- The loop: `i` bytes are written out, and the list is what follows them in the input.
pub hexify_loop : ℕ → ℕ → Bytes → CString
unfolding hex_digit
hexify_loop i out_size [] = []
hexify_loop i out_size (b ∷ rest) =
    let more = hexify_loop (i + 1) out_size rest in
    if leb (i * 2 + (2 + 1)) out_size
    then hex_digit (bit_and b 0xf0 / 16) ∷ hex_digit (bit_and b 0x0f) ∷ more
    else []

-- The returned count with the text in `out`; `none` where `out` is left as it was.
unfoldable pub hexify : Bytes → ℕ → ℕ → ℕ × Option CString
unfolding hexify_loop
hexify input in_size out_size =
    if in_size == 0 || out_size == 0
    then (0, none)
    else let out = hexify_loop 0 out_size (take in_size input) in (length out, some out)

-- `SHA1` is OpenSSL's, a parameter.
unfoldable pub calculate_hash : (Bytes → Bytes) → Bytes → ℕ → Bytes
calculate_hash sha1 buffer length = sha1 (take length buffer)
