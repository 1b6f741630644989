-- ===== src/HashTable/Strings.antt =====
-- The hash function and the comparison for strings of kernel/hash.c. `strcmp` of the C library is an
-- argument.
use Prim.Native.Nat.{bit_xor}
use nebulea_os.Base.{ℕ, ◌+◌, ◌*◌, ◌%◌, ◌^◌, Bool, false, List, [], ◌∷◌, ◌==◌, ltb, if◌then◌else◌}
use nebulea_os.Base.Int.{ℤ, pos, negsuc}
use nebulea_os.HashTable.Table.{HashFunc, HashCompare, HashMap, hash_init}

-- A `char` as a `long`, in 32 bits.
abbrev pub extend_char : ℕ → ℕ
extend_char c = if ltb c 128 then c else c + 0xffffff00

-- The loop of `hash_string_hfunc`.
unfoldable pub hash_chars : ℕ → List ℕ → ℕ
hash_chars hash [] = hash
hash_chars hash (c ∷ cs) = hash_chars (bit_xor ((hash * 32 + hash) % 2 ^ 32) (extend_char c)) cs

unfoldable pub hash_string_hfunc : HashFunc
hash_string_hfunc text key = hash_chars 5381 (text key)

abbrev pub is_zero_int : ℤ → Bool
is_zero_int (pos n) = n == 0
is_zero_int (negsuc n) = false

unfoldable pub hash_string_cmp : (List ℕ → List ℕ → ℤ) → HashCompare
hash_string_cmp strcmp text key1 key2 = is_zero_int (strcmp (text key1) (text key2))

unfoldable pub hash_init_string : (List ℕ → List ℕ → ℤ) → Bool → HashMap → ℤ × HashMap
hash_init_string strcmp allocated map =
    hash_init allocated map hash_string_hfunc (hash_string_cmp strcmp)
