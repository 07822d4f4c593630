-- ===== src/Tests/InitrdTests.antt =====
-- The search in an image that has one entry.
use gummy.Queue.{update}
use gummy.Memory.{Bytes}
use gummy.Words.{store32}
use gummy.Initrd.{Initrd}

-- The image lies at 1000, its entry at 1016, the name "a" at 1036; the path "a" lies at 2000.
abbrev image : Bytes
image =
    update (update (store32 (store32 (store32 (λ a. 0) 1000 0x47554d4d) 1008 1) 1024 2) 1036 97)
      2000 97

abbrev initrd : Initrd
initrd = record { base = 1000; header = 1000; entries = 1016; content = 1100 }
