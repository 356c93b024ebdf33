-- ===== src/HexPrefix/Tests.antt =====
-- Packed paths and encodings of a few nibbles.
use ziskethone.Prelude.{ℕ, ◌≡◌, refl, arith, true, List, [], ◌∷◌, ◌++◌, length, replicate, ok}
use ziskethone.HexPrefix.{PackedPath, prepend, hex_prefix, hex_prefix_packed}
use ziskethone.HexPrefix.Paths.{IsPath, nibbles_of, prepend-nibbles}
use ziskethone.HexPrefix.Encoding.{AreBytes, hex_prefix_packed-eq-hex_prefix}
use ziskethone.HexPrefix.Decode.{path_in, leaf_flag, hex_prefix-decoded}

-- The three nibbles 1, 2, 3, which end in the last byte and start at its half before.
abbrev path : PackedPath
path = record { buf = replicate 32 0 ++ (0x01 ∷ 0x23 ∷ []); start = 32; off = 1; len = 3 }

path-IsPath : IsPath path
path-IsPath = record { size = refl; half_byte = omega arith; anchored = refl; short = omega arith }

prepend-nibbles_example :
    (p : PackedPath) × (prepend 7 path ≡ ok p) × (nibbles_of p ≡ 7 ∷ nibbles_of path) × IsPath p
prepend-nibbles_example = prepend-nibbles 7 path path-IsPath (omega arith) (omega arith)

bytes_after : (n : ℕ) (bytes : List ℕ) → AreBytes bytes → AreBytes (replicate n 0 ++ bytes)
bytes_after ℕ.zero bytes h i = h i
bytes_after (ℕ.suc n) bytes h ℕ.zero = omega arith
bytes_after (ℕ.suc n) bytes h (ℕ.suc i) = bytes_after n bytes h i

last_bytes : AreBytes (0x01 ∷ 0x23 ∷ [])
last_bytes ℕ.zero = omega arith
last_bytes (ℕ.suc ℕ.zero) = omega arith
last_bytes (ℕ.suc (ℕ.suc i)) = omega arith

hex_prefix_packed-eq-hex_prefix_example :
    hex_prefix_packed path true ≡ hex_prefix (nibbles_of path) true
hex_prefix_packed-eq-hex_prefix_example =
    hex_prefix_packed-eq-hex_prefix path true path-IsPath
      (bytes_after 32 (0x01 ∷ 0x23 ∷ []) last_bytes)

hex_prefix-decoded_example :
    (bytes : List ℕ) × (hex_prefix (1 ∷ 2 ∷ 3 ∷ []) true ≡ ok bytes)
    × (path_in bytes ≡ 1 ∷ 2 ∷ 3 ∷ [])
    × (leaf_flag bytes ≡ true)
    × (length bytes ≡ 2)
hex_prefix-decoded_example =
    hex_prefix-decoded (1 ∷ 2 ∷ 3 ∷ []) true (omega arith, (omega arith, (omega arith, tt)))
      (omega arith)

-- The encoding in the bytes of the format: 0x31 0x23.
encoded : hex_prefix_packed path true ≡ ok (0x31 ∷ 0x23 ∷ [])
unfolding hex_prefix_packed
encoded = refl
