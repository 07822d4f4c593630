-- ===== src/Initrd/Search.antt =====
-- What the search of the image by name finds.
use gummy.Prelude.{ℕ, ◌+◌, ◌<◌, ◌≤◌, ◌≡◌, ◌≢◌, ◌⊎◌, true, false, some, List, length}
use gummy.Queue.{Ptr, null}
use gummy.Memory.{Bytes, bytes_at}
use gummy.Words.{load32}
use gummy.Initrd.{Initrd, matches, initrd_get_entry}

-- The first entry that passes the tests of the loop, from `i` on, among `n`.
abbrev Selects : Bytes → Initrd → Ptr → ℕ → ℕ → ℕ → Ptr → Type 0
Selects m x path len n i e =
    ((e ≡ null)
      × ((j : ℕ) → i ≤ j → j < i + n → matches m path len (initrd_get_entry m (some x) j) ≡ false))
    ⊎ ((j : ℕ) × (j < i + n)
        × (e ≡ initrd_get_entry m (some x) j)
        × (matches m path len e ≡ true)
        × ((k : ℕ) → i ≤ k → k < j → matches m path len (initrd_get_entry m (some x) k) ≡ false))

-- The entry stands for a file of this name: it is not NULL, the size of its name counts the name and
-- the 0 at its end, and the bytes from its 20th on are those of the name.
abbrev pub IsNamed : Bytes → List ℕ → Ptr → Type 0
IsNamed m s e =
    (e ≢ null) × (load32 m (e + 8) ≡ length s + 1) × (bytes_at m (e + 20) (length s) ≡ s)

abbrev pub Finds : Bytes → Initrd → List ℕ → Ptr → Type 0
Finds m x s e =
    ((e ≡ null)
      × ((j : ℕ) → j < load32 m (x.header + 8) → ¬ IsNamed m s (initrd_get_entry m (some x) j)))
    ⊎ ((j : ℕ) × (j < load32 m (x.header + 8))
        × (e ≡ initrd_get_entry m (some x) j)
        × IsNamed m s e
        × ((k : ℕ) → k < j → ¬ IsNamed m s (initrd_get_entry m (some x) k)))
