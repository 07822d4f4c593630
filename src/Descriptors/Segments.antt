-- ===== src/Descriptors/Segments.antt =====
-- What the processor reads from the segment descriptors (Intel SDM, volume 3, 3.4.5).
use Prim.Native.Nat.{bit_or-bitwise}
use gummy.Prelude.{
  ℕ, zero, suc, ◌+◌, ◌*◌, ◌/◌, ◌%◌, ◌^◌, ◌≤◌, ◌<◌, ◌≡◌, refl, arith, bit_or, leb, ◌==◌, true, false,
  ◌≢◌, ◌∙◌,
}
use gummy.Vmm.Flags.{or_of, or_of_zero, halve}
use gummy.Descriptors.{GdtEntry, gdt_entries, gdt_set_entry}

-- The `k` lowest digits are 0.
abbrev HasZeros : ℕ → ℕ → Type 0
HasZeros zero a = a ≡ a
HasZeros (suc k) a = (a % 2 ≡ 0) × HasZeros k (a / 2)

or_of_disjoint : (k n a b : ℕ) → a ≤ n → HasZeros k a → halve k b ≡ 0 → or_of n a b ≡ a + b
or_of_disjoint zero n a b l z e = rw e (or_of_zero n a l ∙ omega arith)
or_of_disjoint (suc k) zero a b l z e = omega (arith, l)
or_of_disjoint (suc k) (suc n) zero b l z e = omega arith
or_of_disjoint (suc k) (suc n) (suc a) b l (z, zs) e =
    omega (arith, z, or_of_disjoint k n (suc a / 2) (b / 2) (omega arith) zs e)

pub bit_or_disjoint : (k a b : ℕ) → HasZeros k a → halve k b ≡ 0 → bit_or a b ≡ a + b
bit_or_disjoint k a b z e = simp bit_or-bitwise (or_of_disjoint k a a b (omega arith) z e)

-- The fields of a descriptor.
abbrev pub segment_base : GdtEntry → ℕ
segment_base e = e.base_low + 2 ^ 16 * e.base_mid + 2 ^ 24 * e.base_high

abbrev pub segment_limit : GdtEntry → ℕ
segment_limit e = e.limit_low + 2 ^ 16 * (e.flags_and_limit_high % 2 ^ 4)

abbrev pub segment_flags : GdtEntry → ℕ
segment_flags e = e.flags_and_limit_high / 2 ^ 4

-- A descriptor of a base, a limit, an access byte and flags.
pub record Describes (e : GdtEntry) (base limit access flags : ℕ) : Type 0 where
  pub has_base : segment_base e ≡ base
  pub has_limit : segment_limit e ≡ limit
  pub has_access : e.access ≡ access
  pub has_flags : segment_flags e ≡ flags

-- For an index of the table, a base of 32 bits, a limit of 20 and flags of 4, the entry that
-- `gdt_set_entry` writes describes them and the other entries stay. An index beyond the table changes
-- nothing.
pub gdt_set_entry-Describes :
    (gdt : ℕ → GdtEntry) (index base limit access flags i beyond : ℕ)
    → index < gdt_entries
    → base < 2 ^ 32
    → limit < 2 ^ 20
    → flags < 2 ^ 4
    → i ≢ index
    → Describes (gdt_set_entry gdt index base limit access flags index) base limit access flags
      × (gdt_set_entry gdt index base limit access flags i ≡ gdt i)
      × (gdt_set_entry gdt (gdt_entries + beyond) base limit access flags ≡ gdt)
unfolding gdt_set_entry
gdt_set_entry-Describes gdt index base limit access flags i beyond n b l f d =
    let zeros : HasZeros 4 (flags * 2 ^ 4 % 2 ^ 8) =
      (omega arith, (omega arith, (omega arith, (omega arith, refl)))) in
    let high =
      bit_or_disjoint 4 (flags * 2 ^ 4 % 2 ^ 8) (limit / 2 ^ 16 % 2 ^ 4) zeros (omega arith) in
    let inside : leb gdt_entries index ≡ false = ground arith in
    let outside : leb gdt_entries (gdt_entries + beyond) ≡ true = ground arith in
    let same : (index == index) ≡ true = ground arith in
    let other : (i == index) ≡ false = ground arith in
    (
      rw (inside, same, high)
          (record {
            has_base = omega arith;
            has_limit = omega arith;
            has_access = refl;
            has_flags = omega arith;
          }),
      rw (inside, other) refl,
      rw outside refl,
    )
