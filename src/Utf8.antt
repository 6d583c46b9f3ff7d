-- ===== src/Utf8.antt =====
-- lib/utf8_dimq.c: the check of UTF-8 text that the wire format and the API share.
-- A pointer into the text is the list of the bytes from there to the end of its buffer, and reading
-- past the buffer is a `fault`. `len` is the C argument, which no caller makes negative.
pub mod Spec
mod Lead
pub mod Sound
pub mod Decides
pub mod Overrun
pub mod Complete
mod Tests
use dimq.Prelude.{
  ℕ, zero, suc, ◌+◌, ◌-◌, ◌*◌, ◌%◌, ◌==◌, Bool, not, ◌&&◌, ◌||◌, ltb, leb, List, [], ◌∷◌, Option,
  none, some, if◌then◌else◌,
}
use dimq.Result.{Result, ok, err, fault, inval, malformed_utf8, Status, success, guard, ◌>>=◌, ◌>>◌}
use dimq.Word.{low_bits, top_bits}

-- The first byte of a character: the number of its bytes, and the first bits of its code point.
unfoldable pub lead : ℕ → Result (ℕ × ℕ)
lead c =
    if c == 0
    then err malformed_utf8
    else if leb c 0x7f
    then ok (1, c)
    else if top_bits c 5 6
    then (if c == 0xC0 || c == 0xC1 then err malformed_utf8 else ok (2, low_bits c 5))
    else if top_bits c 4 14
    then ok (3, low_bits c 4)
    else if top_bits c 3 30
    then (if ltb 0xF4 c then err malformed_utf8 else ok (4, low_bits c 3))
    else err malformed_utf8

-- `for(j=0; j<codelen-1; j++)`: `k` rounds are left.
unfoldable pub continuation : ℕ → ℕ → List ℕ → Result (ℕ × List ℕ)
continuation zero codepoint rest = ok (codepoint, rest)
continuation (suc k) codepoint [] = fault
continuation (suc k) codepoint (c ∷ rest) =
    let more = continuation k (codepoint * 64 + low_bits c 6) rest in
    if top_bits c 6 2 then more else err malformed_utf8

-- The tests of the code point itself.
unfoldable pub check_codepoint : ℕ → ℕ → Status
check_codepoint codelen codepoint =
    if leb 0xD800 codepoint && leb codepoint 0xDFFF
    then err malformed_utf8
    else if codelen == 3 && ltb codepoint 0x0800
    then err malformed_utf8
    else if codelen == 4 && (ltb codepoint 0x10000 || ltb 0x10FFFF codepoint)
    then err malformed_utf8
    else if leb 0xFDD0 codepoint && leb codepoint 0xFDEF
    then err malformed_utf8
    else if low_bits codepoint 16 == 0xFFFE || low_bits codepoint 16 == 0xFFFF
    then err malformed_utf8
    else if leb codepoint 0x001F || leb 0x007F codepoint && leb codepoint 0x009F
    then err malformed_utf8
    else success

-- One round of the outer loop at `ustr[i]`, with `n` for `len - i`: what follows the character.
unfoldable pub character : List ℕ → ℕ → Result (ℕ × List ℕ)
character [] n = fault
character (c ∷ rest) n = do
  (codelen, first) ← lead c
  guard (not (n + 1 == codelen)) malformed_utf8
  (codepoint, rest') ← continuation (codelen - 1) first rest
  check_codepoint codelen codepoint
  ok (codelen, rest')

-- The outer loop. Each round takes at least one byte, so `len` rounds are enough.
unfoldable pub characters : ℕ → List ℕ → ℕ → Status
characters rounds ustr zero = success
characters zero ustr (suc n) = fault
characters (suc rounds) ustr (suc n) = do
  (codelen, rest) ← character ustr (suc n)
  characters rounds rest (suc n - codelen)

unfoldable pub validate_utf8 : Option (List ℕ) → ℕ → Status
validate_utf8 none len = err inval
validate_utf8 (some str) len = if ltb 65536 len then err inval else characters len str len
