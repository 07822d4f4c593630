-- ===== src/Tests/LibTests.antt =====
-- Strings at concrete memories.
use gummy.Prelude.{ℕ, refl, arith, List, [], ◌∷◌, true, false}
use gummy.Queue.{update}
use gummy.Memory.{Bytes}
use gummy.Strings.Order.{IsString}
use gummy.Memory.{Bytes}
use gummy.Strings.Itoa.{itoa}
use gummy.Strings.Itoa.Digits.{IsWritten, itoa-writes}

-- "ab" at 100 and "ac" at 200.
abbrev words : Bytes
words = update (update (update (update (λ a. 0) 100 97) 101 98) 200 97) 201 99

abbrev ab : List ℕ
ab = 97 ∷ 98 ∷ []

abbrev ac : List ℕ
ac = 97 ∷ 99 ∷ []

ab-IsString : IsString words 100 ab
ab-IsString = (refl, omega arith, (refl, omega arith, refl))

ac-IsString : IsString words 200 ac
ac-IsString = (refl, omega arith, (refl, omega arith, refl))

itoa-writes_example :
    (digits : List ℕ) × IsWritten words 300 16 0x2a true false 5 digits
      (itoa words 300 16 0x2a true false 5)
itoa-writes_example =
    itoa-writes words 300 16 0x2a true false 5 (omega arith) (omega arith) (omega arith)
      (omega arith)
