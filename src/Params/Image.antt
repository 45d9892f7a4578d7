-- ===== src/Params/Image.antt =====
-- Byte arrays and little-endian words, as crates/veloxity_core/src/params/storage.rs uses them. An
-- array is the function from the index to the byte.
use veloxity.Base.{
  ℕ, zero, suc, ◌+◌, ◌-◌, ◌*◌, ◌/◌, ◌%◌, ◌^◌, ◌<◌, ◌≤◌, ◌≡◌, refl, ap, ◌∙◌, false, ◌&&◌, List, [],
  ◌∷◌, length, get_or, ltb, leb, bit_xor, if◌then◌else◌, arith,
}
use veloxity.Base.Int.{ℤ, pos, negsuc}

abbrev pub Image : Type 0
Image = ℕ → ℕ

-- `bytes[offset..offset + len].copy_from_slice(..)`
unfoldable pub put : Image → ℕ → List ℕ → Image
put image offset bytes i =
    if leb offset i && ltb i (offset + length bytes) then get_or bytes (i - offset) 0 else image i

-- `&bytes[offset..offset + len]`
unfoldable pub slice : Image → ℕ → ℕ → List ℕ
slice image offset zero = []
slice image offset (suc len) = image offset ∷ slice image (suc offset) len

unfoldable pub to_le_bytes : ℕ → ℕ → List ℕ
to_le_bytes zero v = []
to_le_bytes (suc width) v = (v % 256) ∷ to_le_bytes width (v / 256)

unfoldable pub from_le_bytes : List ℕ → ℕ
from_le_bytes [] = 0
from_le_bytes (b ∷ bs) = b + 256 * from_le_bytes bs

-- The i32 with a bit pattern.
unfoldable pub as_i32 : ℕ → ℤ
as_i32 n = if ltb n (2 ^ 31) then pos n else negsuc (2 ^ 32 - 1 - n)

-- `fold(checksum, |checksum, byte| checksum ^ byte)` over `len` bytes from `offset` on.
unfoldable pub xor_bytes : Image → ℕ → ℕ → ℕ → ℕ
xor_bytes image offset zero checksum = checksum
xor_bytes image offset (suc len) checksum =
    xor_bytes image (suc offset) len (bit_xor checksum (image offset))

-- Two arrays that agree on a range.
abbrev pub SameOn : ℕ → ℕ → Image → Image → Type 0
SameOn from to a b = (i : ℕ) → from ≤ i → i < to → a i ≡ b i

pub put-other :
    (image : Image) (offset : ℕ) (bytes : List ℕ) (i : ℕ)
    → (leb offset i && ltb i (offset + length bytes)) ≡ false
    → put image offset bytes i ≡ image i
unfolding put
put-other image offset bytes i h = rw h

at_eq : (image : Image) (i j : ℕ) → i ≡ j → image i ≡ image j
at_eq image i j e = ap image e

slice-get_or :
    (image : Image) (offset : ℕ) (bytes : List ℕ)
    → ((j : ℕ) → j < length bytes → image (offset + j) ≡ get_or bytes j 0)
    → slice image offset (length bytes) ≡ bytes
unfolding slice
slice-get_or image offset [] h = refl
slice-get_or image offset (b ∷ bs) h = cc (
  at_eq image offset (offset + 0) (omega arith) ∙ h 0 (omega arith),
  slice-get_or image (suc offset) bs (λ j l.
      at_eq image (suc offset + j) (offset + suc j) (omega arith) ∙ h (suc j) (omega arith)),
)

pub slice-put :
    (image : Image) (offset : ℕ) (bytes : List ℕ)
    → slice (put image offset bytes) offset (length bytes) ≡ bytes
slice-put image offset bytes =
    slice-get_or (put image offset bytes) offset bytes
      (λ j l. unfold put in ground (arith, ap (λ k. get_or bytes k 0) (add-sub offset j)))
  where
    add-sub : (a b : ℕ) → a + b - a ≡ b
    add-sub a b = omega arith

pub slice-same :
    (a b : Image) (offset len : ℕ)
    → SameOn offset (offset + len) a b
    → slice a offset len ≡ slice b offset len
unfolding slice
slice-same a b offset zero h = refl
slice-same a b offset (suc len) h = cc (
  h offset (omega arith) (omega arith),
  slice-same a b (suc offset) len (λ i l m. h i (omega arith) (omega arith)),
)

pub xor_bytes-same :
    (a b : Image) (offset len checksum : ℕ)
    → SameOn offset (offset + len) a b
    → xor_bytes a offset len checksum ≡ xor_bytes b offset len checksum
unfolding xor_bytes
xor_bytes-same a b offset zero checksum h = refl
xor_bytes-same a b offset (suc len) checksum h =
    ap (λ byte. xor_bytes a (suc offset) len (bit_xor checksum byte))
      (h offset (omega arith) (omega arith))
    ∙ xor_bytes-same a b (suc offset) len _ (λ i l m. h i (omega arith) (omega arith))

pub length-to_le_bytes : (width v : ℕ) → length (to_le_bytes width v) ≡ width
unfolding to_le_bytes
length-to_le_bytes zero v = refl
length-to_le_bytes (suc width) v = ap suc (length-to_le_bytes width (v / 256))

pub from_le_bytes-to_le_bytes_4 : (v : ℕ) → v < 2 ^ 32 → from_le_bytes (to_le_bytes 4 v) ≡ v
unfolding to_le_bytes from_le_bytes
from_le_bytes-to_le_bytes_4 v h = omega arith

pub from_le_bytes-to_le_bytes_2 : (v : ℕ) → v < 2 ^ 16 → from_le_bytes (to_le_bytes 2 v) ≡ v
unfolding to_le_bytes from_le_bytes
from_le_bytes-to_le_bytes_2 v h = omega arith
