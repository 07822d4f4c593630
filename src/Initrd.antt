-- ===== src/Initrd.antt =====
-- The image of the initial ramdisk: lib/src/initrd.c and include/initrd.h. A pointer to an `initrd_t`
-- is an option, `none` for NULL. `strlen` runs on fuel.
pub mod Search
use gummy.Prelude.{
  ℕ, zero, suc, ◌+◌, ◌%◌, ◌^◌, Bool, true, false, not, ◌||◌, ◌&&◌, ◌==◌, leb, if◌then◌else◌, Option,
  none, some,
}
use gummy.Queue.{Ptr, null}
use gummy.Memory.{Bytes}
use gummy.Words.{load32}
use gummy.Strings.{strlen, memcmp}

-- `initrd_t`
pub record Initrd : Type 0 where
  pub base : Ptr
  pub header : Ptr
  pub entries : Ptr
  pub content : Ptr

abbrev pub initrd_magic : ℕ
initrd_magic = 0x47554d4d

-- `sizeof(initrd_header_t)` and `sizeof(initrd_entry_t)`
abbrev pub initrd_header_size : ℕ
initrd_header_size = 16

abbrev pub initrd_entry_size : ℕ
initrd_entry_size = 20

abbrev pub entry_count : Bytes → Initrd → ℕ
entry_count m x = load32 m (x.header + 8)

abbrev pub name_size : Bytes → Ptr → ℕ
name_size m entry = load32 m (entry + 8)

unfoldable pub initrd_create : Bytes → Option Initrd → Ptr → Option Initrd
initrd_create m none base = none
initrd_create m (some x) base =
    if base == null
    then some x
    else some (record {
      base = base;
      header = base;
      entries = (base + initrd_header_size) % 2 ^ 32;
      content = (base + load32 m (base + 12)) % 2 ^ 32;
    })

-- Whether the image is refused.
unfoldable pub initrd_check : Bytes → Option Initrd → Bool
initrd_check m none = true
initrd_check m (some x) =
    x.header == null || x.entries == null || not (load32 m x.header == initrd_magic)

unfoldable pub skip_entries : Bytes → ℕ → Ptr → Ptr
skip_entries m zero entry = entry
skip_entries m (suc n) entry =
    skip_entries m n ((entry + name_size m entry + initrd_entry_size) % 2 ^ 32)

abbrev pub entry_at : Bytes → Initrd → ℕ → Ptr
entry_at m x n = if leb (entry_count m x) n then null else skip_entries m n x.entries

unfoldable pub initrd_get_entry : Bytes → Option Initrd → ℕ → Ptr
initrd_get_entry m none n = null
initrd_get_entry m (some x) n = if initrd_check m (some x) then null else entry_at m x n

-- The tests of `initrd_find_entry` on an entry, for a path of `len` characters.
abbrev pub matches : Bytes → Ptr → ℕ → Ptr → Bool
matches m path len entry =
    not (entry == null)
    && name_size m entry == (len + 1) % 2 ^ 32
    && memcmp m (entry + initrd_entry_size) path len == 0

-- The loop of `initrd_find_entry` from the index `i` on, `n` rounds.
unfoldable pub find_from : Bytes → Option Initrd → Ptr → ℕ → ℕ → ℕ → Ptr
find_from m x path len zero i = null
find_from m x path len (suc n) i =
    if matches m path len (initrd_get_entry m x i)
    then initrd_get_entry m x i
    else find_from m x path len n (i + 1)

abbrev pub find_named : Bytes → Initrd → Ptr → Option ℕ → Option Ptr
find_named m x path none = none
find_named m x path (some len) =
    if len == 0 then some null else some (find_from m (some x) path len (entry_count m x) 0)

unfoldable pub initrd_find_entry : ℕ → Bytes → Option Initrd → Ptr → Option Ptr
initrd_find_entry fuel m none path = some null
initrd_find_entry fuel m (some x) path =
    if initrd_check m (some x) || path == null
    then some null
    else find_named m x path (strlen fuel m path)

unfoldable pub initrd_get_len : Bytes → Ptr → ℕ
initrd_get_len m entry = if entry == null then 0 else load32 m (entry + 16)

unfoldable pub initrd_get_data : Bytes → Option Initrd → Ptr → Ptr
initrd_get_data m none entry = null
initrd_get_data m (some x) entry =
    if initrd_check m (some x) || entry == null
    then null
    else (x.base + load32 m (entry + 12)) % 2 ^ 32
