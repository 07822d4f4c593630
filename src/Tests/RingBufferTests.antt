-- ===== src/Tests/RingBufferTests.antt =====
-- lib/src/ring_buffer.c at concrete memories.
use gummy.Prelude.{◌≡◌, refl, arith, [], ◌∷◌, inr}
use gummy.RingBuffer.{RingBuffer, Memory, ring_buffer_push, ring_buffer_pop}
use gummy.RingBuffer.Inv.{IsValid, contents}
use gummy.RingBuffer.Push.{Pushes, push_refines}
use gummy.RingBuffer.Pop.{Pops, pop_refines}

-- Three slots of two bytes from 100 on, of which the last and the first are in use.
abbrev wrapped : RingBuffer
wrapped = record { buf = 100; elem_size = 2; capacity = 3; head = 2; tail = 1; count = 2 }

-- The byte at an address is the lowest byte of the address.
abbrev memory : Memory
memory = record { bytes = λ a. a; ring = λ r. wrapped }

wrapped-IsValid : IsValid wrapped
wrapped-IsValid = omega arith

contents_wrapped : contents memory 8 ≡ (104 ∷ 105 ∷ []) ∷ (100 ∷ 101 ∷ []) ∷ []
contents_wrapped = refl

push_refines_example : Pushes memory 8 200 (ring_buffer_push memory 8 200)
push_refines_example =
    push_refines memory 8 200 (omega arith) (omega arith) wrapped-IsValid (inr (omega arith))

pop_refines_example : Pops memory 8 200 (ring_buffer_pop memory 8 200)
pop_refines_example =
    pop_refines memory 8 200 (omega arith) (omega arith) wrapped-IsValid (inr (omega arith))
