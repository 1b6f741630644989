-- ===== src/HashTable/Full.antt =====
-- `hash_lookup` of kernel/hash.c on a table without an empty slot.
use Prim.Native.Nat.{bit_and}
use nebulea_os.Base.{
  ℕ, zero, suc, ◌+◌, ◌-◌, ◌*◌, ◌/◌, ◌%◌, ◌^◌, ◌<◌, ◌≡◌, refl, Bool, true, false, Option, none, some,
  inl, inr, ap, ◌∙◌,
}
use nebulea_os.Base.Bits.{bit_and_mask, pow_pos}
use native.Mathlib.Nat.{mod-lt}
use nebulea_os.HashTable.Table.{
  Text, HashMap, HashSlot, is_active, is_empty_slot, or_free, matches, lookup_from,
}
use nebulea_os.HashTable.Searching.{SlotMode-cases, both_ways}

in_table : (index bits mask : ℕ) → mask ≡ 2 ^ bits - 1 → bit_and index mask < 2 ^ bits
in_table index bits mask e =
    let low : bit_and index mask ≡ index % 2 ^ bits =
      ap (bit_and index) e ∙ bit_and_mask index bits in
    rw low (mod-lt index (pow_pos bits))

-- The loop, within any number of rounds.
lookup_from-full :
    (hit : HashSlot → Bool) (table : ℕ → HashSlot) (bits mask : ℕ)
    → mask ≡ 2 ^ bits - 1
    → ((i : ℕ) → i < 2 ^ bits → is_empty_slot (table i).mode ≡ false)
    → ((i : ℕ) → i < 2 ^ bits → is_active (table i).mode ≡ true → hit (table i) ≡ false)
    → (rounds index perturb : ℕ) (free : Option ℕ)
    → lookup_from hit table mask rounds index perturb free ≡ none
unfolding lookup_from
lookup_from-full hit table bits mask e full miss zero index perturb free = refl
lookup_from-full hit table bits mask e full miss (suc n) index perturb free =
    let slot : ℕ = bit_and index mask in
    let inside : slot < 2 ^ bits = in_table index bits mask e in
    let next : ℕ = (5 * index + perturb + 1) % 2 ^ 32 in
    elim (SlotMode-cases (table slot).mode) [
      | inl empty ↦ absurd (both_ways _ (rw empty refl) (full slot inside))
      | inr (inl active) ↦
          let other : hit (table slot) ≡ false = miss slot inside (rw active refl) in
          rw (active, other, lookup_from)
            (lookup_from-full hit table bits mask e full miss n next (perturb / 32) free)
      | inr (inr deleted) ↦
          rw (deleted, lookup_from)
            (lookup_from-full hit table bits mask e full miss n next (perturb / 32)
              (some (or_free free slot)))
    ]

-- On a table whose number of slots is a power of two, where none of its slots is empty and no
-- active one is that of the key, the loop of hash_lookup does not end within any number of
-- rounds.
pub hash_lookup-full :
    (text : Text) (map : HashMap) (bits key hash : ℕ)
    → map.mask ≡ 2 ^ bits - 1
    → ((i : ℕ) → i < 2 ^ bits → is_empty_slot (map.table i).mode ≡ false)
    → ((i : ℕ)
        → i < 2 ^ bits
        → is_active (map.table i).mode ≡ true
        → matches text map.cmp key hash (map.table i) ≡ false)
    → (rounds : ℕ)
    → lookup_from
        (matches text map.cmp key hash)
        map.table
        map.mask
        rounds
        (bit_and hash map.mask)
        hash
        none
      ≡ none
hash_lookup-full text map bits key hash e full miss rounds =
    lookup_from-full (matches text map.cmp key hash) map.table bits map.mask e full miss rounds
      (bit_and hash map.mask) hash none
