-- ===== src/HashTable/Keys.antt =====
-- The keys of the tables of `hash_init_direct` and of `hash_init_string` of kernel/hash.c.
use native.Mathlib.Nat.{mod-lt}
use nebulea_os.Base.{
  ℕ, ◌+◌, ◌*◌, ◌%◌, ◌^◌, ◌<◌, ◌≡◌, refl, sym, ap, ◌∙◌, true, List, [], ◌∷◌, arith, ◌==◌, inl, inr,
  Bool-cases,
}
use nebulea_os.Base.Int.{ℤ, pos, negsuc}
use nebulea_os.Base.Bits.{bit_xor-lt}
use nebulea_os.HashTable.Table.{Text, HashMap, hash_direct_hfunc, hash_direct_cmp}
use nebulea_os.HashTable.Strings.{
  extend_char, hash_chars, hash_string_hfunc, is_zero_int, hash_string_cmp,
}
use nebulea_os.HashTable.Valid.{IsKeying, same_key}

pub hash_direct-IsKeying : (text : Text) → IsKeying text hash_direct_hfunc hash_direct_cmp
unfolding hash_direct_hfunc hash_direct_cmp
hash_direct-IsKeying text = record {
  word = λ a. mod-lt a (omega arith);
  symm = λ a b e. ground arith;
  trans = λ a b c e f. ground arith;
}

-- Every byte of a string is one.
abbrev pub Bytes : List ℕ → Type 0
Bytes [] = Unit {0}
Bytes (c ∷ cs) = (c < 256) × Bytes cs

hash_chars-lt : (cs : List ℕ) (hash : ℕ) → hash < 2 ^ 32 → Bytes cs → hash_chars hash cs < 2 ^ 32
unfolding hash_chars
hash_chars-lt [] hash h bytes = h
hash_chars-lt (c ∷ cs) hash h (byte, bytes) =
    hash_chars-lt cs _
      (bit_xor-lt ((hash * 32 + hash) % 2 ^ 32) (extend_char c) 32
        (mod-lt (hash * 32 + hash) (omega arith)) (ground arith))
      bytes

-- What the C library documents of `strcmp`: it is zero on equal strings and on no others.
pub record IsStrcmp (strcmp : List ℕ → List ℕ → ℤ) : Type 0 where
  pub zero_equal : (xs ys : List ℕ) → strcmp xs ys ≡ pos 0 → xs ≡ ys
  pub equal_zero : (xs : List ℕ) → strcmp xs xs ≡ pos 0

is_zero_int-zero : (z : ℤ) → is_zero_int z ≡ true → z ≡ pos 0
is_zero_int-zero (pos n) e = let h : n ≡ 0 = ground arith in ap pos h
is_zero_int-zero (negsuc n) e = absurd (cc)

-- The map with the functions of `hash_init_string`.
abbrev pub of_strings : (List ℕ → List ℕ → ℤ) → HashMap → HashMap
of_strings strcmp m = record m { hfunc = hash_string_hfunc; cmp = hash_string_cmp strcmp }

module _ (strcmp : List ℕ → List ℕ → ℤ) (lib : IsStrcmp strcmp) (text : Text) where
  cmp_equal : (a b : ℕ) → hash_string_cmp strcmp text a b ≡ true → text a ≡ text b
  unfolding hash_string_cmp
  cmp_equal a b e = lib.zero_equal (text a) (text b) (is_zero_int-zero _ e)

  equal_cmp : (a b : ℕ) → text a ≡ text b → hash_string_cmp strcmp text a b ≡ true
  unfolding hash_string_cmp
  equal_cmp a b e = rw (e, lib.equal_zero (text b)) refl

  pub hash_string-IsKeying :
      ((key : ℕ) → Bytes (text key)) → IsKeying text hash_string_hfunc (hash_string_cmp strcmp)
  unfolding hash_string_hfunc
  hash_string-IsKeying bytes = record {
    word = λ a. hash_chars-lt (text a) 5381 (omega arith) (bytes a);
    symm = λ a b e. equal_cmp b a (sym (cmp_equal a b e));
    trans = λ a b c e f. equal_cmp a c (cmp_equal a b e ∙ cmp_equal b c f);
  }

  -- In a table of hash_init_string, where strcmp is zero on equal strings and on no others, two
  -- pointers are one key exactly if they point to the same string.
  pub same_key-equal :
      (m : HashMap) (a b : ℕ)
      → (same_key text (of_strings strcmp m) a b ≡ true → text a ≡ text b)
        × (text a ≡ text b → same_key text (of_strings strcmp m) a b ≡ true)
  unfolding hash_string_hfunc
  same_key-equal m a b = (
    λ e. elim (Bool-cases (a == b)) [
      | inl one ↦ ap text (ground arith)
      | inr two ↦ cmp_equal a b (ground arith)
    ],
    λ e.
        let one : (hash_chars 5381 (text a) == hash_chars 5381 (text b)) ≡ true =
          rw e (ground arith) in
        let two : hash_string_cmp strcmp text a b ≡ true = equal_cmp a b e in
        ground (arith, one, two),
  )
