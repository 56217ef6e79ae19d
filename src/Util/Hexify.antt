-- ===== src/Util/Hexify.antt =====
-- What `hexify` of cfs/src/util.c writes, and how much of its input.
use Prim.Native.Nat.{bit_and}
use fusefs_block.Base.{
  ℕ, zero, suc, ◌+◌, ◌-◌, ◌*◌, ◌/◌, ◌≤◌, ◌<◌, ◌≡◌, refl, ap, ◌∙◌, Bool, true, false, not, min, some,
  [], ◌∷◌, arith, leb, ◌==◌, ==_iff, if◌then◌else◌, length, length-take, take-all, take, All, Bytes,
  CString, IsByte,
}
use fusefs_block.Util.Combine.{without_leading}
use native.Mathlib.Decide.{dec_le}
use fusefs_block.Util.{dir_separator, hex_digit, hexify_loop, hexify}

-- A test holds of `count` numbers from the given one on. On bytes it is evaluated.
holds_from : (ℕ → Bool) → ℕ → ℕ → Bool
holds_from test from zero = true
holds_from test from (suc count) = if test from then holds_from test (from + 1) count else false

holds_from-at :
    (test : ℕ → Bool) (count from b : ℕ)
    → holds_from test from count ≡ true
    → from ≤ b
    → b < from + count
    → test b ≡ true
unfolding holds_from
holds_from-at test zero from b table low high = absurd (omega arith)
holds_from-at test (suc count) from b table low high =
    let later = holds_from-at test count (from + 1) b in
    elim (dec_le (from + 1) b) [
      | yes above ↦ later (ground arith) above (omega arith)
      | no here ↦ let first : b ≡ from = omega arith in rw first (ground arith)
    ]

-- The two digits of each byte, high first.
unfoldable pub hex_text : Bytes → CString
hex_text [] = []
hex_text (b ∷ bs) = hex_digit (bit_and b 0xf0 / 16) ∷ hex_digit (bit_and b 0x0f) ∷ hex_text bs

pub length-hex_text : (bs : Bytes) → length (hex_text bs) ≡ 2 * length bs
unfolding hex_text
length-hex_text [] = omega arith
length-hex_text (b ∷ bs) = omega (arith, length-hex_text bs)

-- The value of a hexadecimal digit, and the bytes that a text of digits stands for.
pub digit_value : CString → ℕ
digit_value [] = 0
digit_value (c ∷ _) = if leb c b'9' then c - b'0' else c - b'a' + 10

pub unhex : CString → Bytes
unhex [] = []
unhex (c ∷ []) = []
unhex (c ∷ d ∷ s) = (16 * digit_value (c ∷ []) + digit_value (d ∷ [])) ∷ unhex s

digits_table :
    holds_from
      (λ b.
        16 * digit_value (hex_digit (bit_and b 0xf0 / 16) ∷ [])
          + digit_value (hex_digit (bit_and b 0x0f) ∷ [])
        == b)
      0
      256
    ≡ true
unfolding holds_from digit_value hex_digit
digits_table = refl

-- No two byte strings have the same hexadecimal text: the bytes can be read back.
pub unhex-hex_text : (bs : Bytes) → All IsByte bs → unhex (hex_text bs) ≡ bs
unfolding hex_text unhex
unhex-hex_text [] h = refl
unhex-hex_text (b ∷ bs) (hb, hs) =
    rw (unhex-hex_text bs hs)
      (ap (λ x. x ∷ bs) ((==_iff _ b).0 (holds_from-at _ 256 0 b digits_table (omega arith) hb)))

no_separator_table :
    holds_from (λ b. not (hex_digit (bit_and b 0xf0 / 16) == dir_separator)) 0 256 ≡ true
unfolding holds_from hex_digit
no_separator_table = refl

-- A text of digits does not begin with a separator.
pub hex_text-without_leading :
    (bs : Bytes) → All IsByte bs → without_leading (hex_text bs) ≡ hex_text bs
unfolding hex_text without_leading
hex_text-without_leading [] h = refl
hex_text-without_leading (b ∷ bs) (hb, hs) =
    rw (not_true _ (holds_from-at _ 256 0 b no_separator_table (omega arith) hb))
  where
    not_true : (x : Bool) → not x ≡ true → x ≡ false
    not_true x h = ground arith

-- From byte `i` on, the loop writes the bytes that leave room for a terminator.
hexify_loop_lem :
    (i out_size k : ℕ) (bs : Bytes)
    → k ≡ (out_size - 1) / 2 - i
    → hexify_loop i out_size bs ≡ hex_text (take k bs)
unfolding hexify_loop hex_text
hexify_loop_lem i out_size zero [] e = refl
hexify_loop_lem i out_size (suc k) [] e = refl
hexify_loop_lem i out_size zero (b ∷ bs) e = ground arith
hexify_loop_lem i out_size (suc k) (b ∷ bs) e =
    ground (arith, hexify_loop_lem (i + 1) out_size k bs (omega arith))

take-take : (k n : ℕ) (bs : Bytes) → take k (take n bs) ≡ take (min n k) bs
take-take zero n bs = let e : min n 0 ≡ 0 = omega arith in rw e
take-take (suc k) zero bs = let e : min 0 (suc k) ≡ 0 = omega arith in rw e
take-take (suc k) (suc n) [] = let e : min (suc n) (suc k) ≡ suc (min n k) = omega arith in rw e
take-take (suc k) (suc n) (b ∷ bs) =
    let e : min (suc n) (suc k) ≡ suc (min n k) = omega arith in rw (e, take-take k n bs)

-- How many bytes of the input fit an output buffer, two digits each and a terminator.
abbrev pub room : ℕ → ℕ → ℕ
room in_size out_size = min in_size ((out_size - 1) / 2)

-- `hexify` writes the digits of as many whole bytes as the buffer has room for beside the
-- terminator, and returns the number of digits. Both sizes are positive, and the input has at
-- least as many bytes as its size says.
pub hexify_lem :
    (bs : Bytes) (in_size out_size : ℕ)
    → 0 < in_size
    → 0 < out_size
    → in_size ≤ length bs
    → hexify bs in_size out_size
      ≡ (2 * room in_size out_size, some (hex_text (take (room in_size out_size) bs)))
unfolding hexify
hexify_lem bs n m hn hm fits =
    let body : hexify_loop 0 m (take n bs) ≡ hex_text (take (room n m) bs) =
      hexify_loop_lem 0 m ((m - 1) / 2) (take n bs) (omega arith)
      ∙ ap hex_text (take-take ((m - 1) / 2) n bs) in
    let size : length (hex_text (take (room n m) bs)) ≡ 2 * room n m =
      omega (arith, length-hex_text (take (room n m) bs), length-take (room n m) bs) in
    rw (ne→==' n hn, ne→==' m hm, body, size)
  where
    ne→==' : (a : ℕ) → 0 < a → (a == 0) ≡ false
    ne→==' a h = ground arith

-- With room for all digits and the terminator, the text that `hexify` writes can be read back: it
-- has two digits for each byte and stands for the bytes. There is at least one byte.
pub unhex-hexify :
    (bs : Bytes) (out_size : ℕ)
    → 0 < length bs
    → All IsByte bs
    → 2 * length bs < out_size
    → (t : CString) × (hexify bs (length bs) out_size ≡ (2 * length bs, some t)) × (unhex t ≡ bs)
unhex-hexify bs out_size some_bytes bytes fits =
    let all_room : room (length bs) out_size ≡ length bs = omega arith in
    let whole : take (room (length bs) out_size) bs ≡ bs =
      take-all (room (length bs) out_size) bs (omega arith) in
    (
      hex_text bs,
      hexify_lem bs (length bs) out_size some_bytes (omega arith) (omega arith)
          ∙ (λ i. (2 * all_room i, some (hex_text (whole i)))),
      unhex-hex_text bs bytes,
    )
