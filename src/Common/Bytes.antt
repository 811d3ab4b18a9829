-- ===== src/Common/Bytes.antt =====
-- Fixed arrays of bytes: `memcpy` and `memmove` into them, and little-endian words read from them.
use Prim.Native.Nat.{ℕ, ◌+◌, ◌*◌, ◌≤◌}
use mathlib.Core.Path.{◌≡◌, ap, sym, ◌∙◌}
use mathlib.Core.List.{List, ◌++◌, append_assoc}
use native.Mathlib.Omega.{arith}
use first_server.Common.Lists.{
  length, take, drop, get_or, length-append, length-take, length-drop, take-append_self,
}

-- `memcpy(buf + off, src, src.size())`
unfoldable pub memcpy : List ℕ → ℕ → List ℕ → List ℕ
memcpy buf off src = take off buf ++ (src ++ drop (off + length src) buf)

-- `memmove(buf, buf + off, len)`: the two ranges may overlap
unfoldable pub memmove : List ℕ → ℕ → ℕ → List ℕ
memmove buf off len = take len (drop off buf) ++ drop len buf

-- a little-endian 32-bit word at an offset
unfoldable pub le32 : List ℕ → ℕ → ℕ
le32 bs i =
    get_or bs i 0
    + 256 * get_or bs (i + 1) 0
    + 65536 * get_or bs (i + 2) 0
    + 16777216 * get_or bs (i + 3) 0

pub length-memcpy :
    (buf : List ℕ) (off : ℕ) (src : List ℕ)
    → off + length src ≤ length buf
    → length (memcpy buf off src) ≡ length buf
unfolding memcpy
length-memcpy buf off src h = omega (
  arith,
  length-append (take off buf) (src ++ drop (off + length src) buf),
  length-append src (drop (off + length src) buf),
  length-take off buf,
  length-drop (off + length src) buf,
)

pub length-memmove :
    (buf : List ℕ) (off len : ℕ)
    → off + len ≤ length buf
    → length (memmove buf off len) ≡ length buf
unfolding memmove
length-memmove buf off len h = omega (
  arith,
  length-append (take len (drop off buf)) (drop len buf),
  length-take len (drop off buf),
  length-drop off buf,
  length-drop len buf,
)

-- A prefix that ends with the copied bytes.
pub take-memcpy :
    (buf : List ℕ) (off : ℕ) (src : List ℕ)
    → off + length src ≤ length buf
    → take (off + length src) (memcpy buf off src) ≡ take off buf ++ src
unfolding memcpy
take-memcpy buf off src h =
    ap (λ l. take (off + length src) l) (sym (append_assoc (take off buf) src rest))
    ∙ ap (λ k. take k (take off buf ++ src ++ rest)) size
    ∙ take-append_self (take off buf ++ src) rest
  where
    rest : List ℕ
    rest = drop (off + length src) buf

    size : off + length src ≡ length (take off buf ++ src)
    size = omega (arith, length-append (take off buf) src, length-take off buf)
