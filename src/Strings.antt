-- ===== src/Strings.antt =====
-- The functions of lib/src/string.c that compare and measure. An `int` result is its bit pattern. A
-- loop that stops only at a byte is on fuel: `none` is out of fuel.
pub mod Order
pub mod Itoa
use gummy.Prelude.{
  ℕ, zero, suc, ◌+◌, ◌-◌, ◌%◌, ◌^◌, ◌&&◌, ◌||◌, not, ◌==◌, if◌then◌else◌, Option, none, some,
}
use gummy.Queue.{Ptr}
use gummy.Memory.{Bytes}

-- The difference of two `unsigned char`.
abbrev pub difference : ℕ → ℕ → ℕ
difference x y = (x + 2 ^ 32 - y) % 2 ^ 32

unfoldable pub memcmp : Bytes → Ptr → Ptr → ℕ → ℕ
memcmp m a b zero = 0
memcmp m a b (suc n) =
    let rest : ℕ = memcmp m (a + 1) (b + 1) n in
    if not (m a == m b) then difference (m a) (m b) else rest

unfoldable pub strlen_loop : ℕ → Bytes → Ptr → ℕ → Option ℕ
strlen_loop zero m str len = none
strlen_loop (suc fuel) m str len =
    let rest : Option ℕ = strlen_loop fuel m str ((len + 1) % 2 ^ 32) in
    if m (str + len) == 0 then some len else rest

unfoldable pub strlen : ℕ → Bytes → Ptr → Option ℕ
strlen fuel m str = strlen_loop fuel m str 0

unfoldable pub strcmp : ℕ → Bytes → Ptr → Ptr → Option ℕ
strcmp zero m a b = none
strcmp (suc fuel) m a b =
    let rest : Option ℕ = strcmp fuel m (a + 1) (b + 1) in
    if not (m a == 0) && m a == m b then rest else some (difference (m a) (m b))

unfoldable pub strncmp : Bytes → Ptr → Ptr → ℕ → ℕ
strncmp m a b zero = 0
strncmp m a b (suc n) =
    let rest : ℕ = strncmp m (a + 1) (b + 1) n in
    if not (m a == 0) && m a == m b then rest else difference (m a) (m b)
