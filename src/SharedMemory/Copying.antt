-- ===== src/SharedMemory/Copying.antt =====
-- A table of strings after a copy of a string, as `shm_create` of kernel/shared_memory.c makes one.
use nebulea_os.Base.{ℕ, ◌≤◌, ◌≡◌, refl, sym, ap, ◌∙◌, true, List}
use nebulea_os.Base.Int.{ℤ}
use nebulea_os.HashTable.Table.{Text, HashMap}
use nebulea_os.HashTable.Strings.{hash_chars, hash_string_hfunc, hash_string_cmp}
use nebulea_os.HashTable.Valid.{same_key, active_at}
use nebulea_os.HashTable.Resizing.{Sound}
use nebulea_os.HashTable.Keys.{Bytes, IsStrcmp, of_strings, hash_string-IsKeying}

-- What `strcpy` documents, where the buffer for the copy overlaps no string that is in use: those of the table and `k`
pub record IsCopy (m : HashMap) (text text' : Text) (dest src k : ℕ) : Type 0 where
  pub copied : text' dest ≡ text src
  pub kept :
      (i : ℕ) → i ≤ m.mask → active_at m i ≡ true → text' (m.table i).key ≡ text (m.table i).key
  pub reader : text' k ≡ text k
  pub bytes : (a : ℕ) → Bytes (text' a)

module _ (strcmp : List ℕ → List ℕ → ℤ) (lib : IsStrcmp strcmp) (m : HashMap) (text text' : Text)
    (dest src k : ℕ) (c : IsCopy m text text' dest src k) where
  same_keys :
      (i j : ℕ)
      → i ≤ m.mask
      → j ≤ m.mask
      → active_at m i ≡ true
      → active_at m j ≡ true
      → same_key text' (of_strings strcmp m) (m.table i).key (m.table j).key
        ≡ same_key text (of_strings strcmp m) (m.table i).key (m.table j).key
  unfolding hash_string_hfunc hash_string_cmp
  same_keys i j li lj ai aj =
      let ei : text' (m.table i).key ≡ text (m.table i).key = c.kept i li ai in
      let ej : text' (m.table j).key ≡ text (m.table j).key = c.kept j lj aj in rw (ei, ej) refl

  same_hash :
      (i : ℕ)
      → i ≤ m.mask
      → active_at m i ≡ true
      → hash_string_hfunc text' (m.table i).key ≡ hash_string_hfunc text (m.table i).key
  unfolding hash_string_hfunc
  same_hash i li ai = ap (hash_chars 5381) (c.kept i li ai)

  -- The table stays in order.
  pub copy-Sound : Sound text (of_strings strcmp m) → Sound text' (of_strings strcmp m)
  copy-Sound s = record {
    placed = record {
      keying = hash_string-IsKeying strcmp lib text' c.bytes;
      bits = s.placed.bits;
      size = s.placed.size;
      at_least = s.placed.at_least;
      at_most = s.placed.at_most;
      hashed = λ i lt a. s.placed.hashed i lt a ∙ sym (same_hash i lt a);
      unique = λ i j li lj ai aj e.
          s.placed.unique i j li lj ai aj (sym (same_keys i j li lj ai aj) ∙ e);
      reach = λ i lt a. rw (same_hash i lt a) (s.placed.reach i lt a);
    };
    counts = s.counts;
    load = s.load;
  }
