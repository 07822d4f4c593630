-- ===== src/Syscall/Passes.antt =====
-- What a system call passes from its caller to the kernel.
use gummy.Prelude.{
  ℕ, ◌+◌, ◌^◌, ◌≤◌, ◌<◌, ◌≡◌, refl, false, ◌⊎◌, inl, arith, ◌==◌, List, ◌∙◌, ap, ◌%◌,
}
use gummy.Queue.{Ptr}
use gummy.Memory.{Bytes}
use gummy.Words.{load32, store32, load32-store32, store32-outside}
use gummy.Memory.Copy.{within}
use gummy.Sched.{Symbols, Kernel, Outcome, stay}
use gummy.Sched.Run.{sched_exit_current_thread}
use gummy.Process.{sched_get_current_pid, sched_get_current_ppid}
use gummy.Lifecycle.{Resources}
use gummy.Ipc.{ipc_send}
use gummy.Syscall.{Answer, leaves, set_eax, answers, after_outcome, after_reply, no_call, reply_to}
use gummy.Syscall.Create.{sys_nthread_impl, sys_nprocess_impl}
use gummy.Syscall.Handler.{sys_sleep_impl, sys_receive_impl, dispatch_call, syscall_handler}
use gummy.Syscall.Stubs.{
  Registers, push_registers, sys_exit, sys_getpid, sys_getppid, sys_nprocess, sys_nthread,
  sys_sleep, sys_send, sys_receive,
}

-- A word elsewhere is as before.
load32-apart :
    (m : Bytes) (p v q : ℕ) → ((p + 4 ≤ q) ⊎ (q + 4 ≤ p)) → load32 (store32 m p v) q ≡ load32 m q
unfolding load32 store32
load32-apart m p v q d = ground (arith, d)

module _ (m : Bytes) (ctx : Ptr) (r : Registers) where
  load_esi : r.esi < 2 ^ 32 → load32 (push_registers m ctx r) (ctx + 16) ≡ r.esi
  unfolding push_registers
  load_esi l = load32-store32 _ (ctx + 16) r.esi l

  load_edi : r.edi < 2 ^ 32 → load32 (push_registers m ctx r) (ctx + 20) ≡ r.edi
  unfolding push_registers
  load_edi l =
      load32-apart _ (ctx + 16) r.esi (ctx + 20) (inl (omega arith))
      ∙ load32-store32 _ (ctx + 20) r.edi l

  load_edx : r.edx < 2 ^ 32 → load32 (push_registers m ctx r) (ctx + 28) ≡ r.edx
  unfolding push_registers
  load_edx l =
      load32-apart _ (ctx + 16) r.esi (ctx + 28) (inl (omega arith))
      ∙ load32-apart _ (ctx + 20) r.edi (ctx + 28) (inl (omega arith))
      ∙ load32-store32 _ (ctx + 28) r.edx l

  load_ecx : r.ecx < 2 ^ 32 → load32 (push_registers m ctx r) (ctx + 32) ≡ r.ecx
  unfolding push_registers
  load_ecx l =
      load32-apart _ (ctx + 16) r.esi (ctx + 32) (inl (omega arith))
      ∙ load32-apart _ (ctx + 20) r.edi (ctx + 32) (inl (omega arith))
      ∙ load32-apart _ (ctx + 28) r.edx (ctx + 32) (inl (omega arith))
      ∙ load32-store32 _ (ctx + 32) r.ecx l

  load_ebx : r.ebx < 2 ^ 32 → load32 (push_registers m ctx r) (ctx + 36) ≡ r.ebx
  unfolding push_registers
  load_ebx l =
      load32-apart _ (ctx + 16) r.esi (ctx + 36) (inl (omega arith))
      ∙ load32-apart _ (ctx + 20) r.edi (ctx + 36) (inl (omega arith))
      ∙ load32-apart _ (ctx + 28) r.edx (ctx + 36) (inl (omega arith))
      ∙ load32-apart _ (ctx + 32) r.ecx (ctx + 36) (inl (omega arith))
      ∙ load32-store32 _ (ctx + 36) r.ebx l

  load_eax : r.eax < 2 ^ 32 → load32 (push_registers m ctx r) (ctx + 40) ≡ r.eax
  unfolding push_registers
  load_eax l =
      load32-apart _ (ctx + 16) r.esi (ctx + 40) (inl (omega arith))
      ∙ load32-apart _ (ctx + 20) r.edi (ctx + 40) (inl (omega arith))
      ∙ load32-apart _ (ctx + 28) r.edx (ctx + 40) (inl (omega arith))
      ∙ load32-apart _ (ctx + 32) r.ecx (ctx + 40) (inl (omega arith))
      ∙ load32-apart _ (ctx + 36) r.ebx (ctx + 40) (inl (omega arith))
      ∙ load32-store32 _ (ctx + 40) r.eax l

differs : (a n : ℕ) → 8 ≤ a → n < 8 → (a == n) ≡ false
differs a n h l = ground arith

-- The caller of the handler gets an answer: the word of the saved registers that is restored into
-- `eax`, 40 bytes from `ctx`, is the value, and all else is as the function left it. A function that
-- does not come back leaves what it leaves.
abbrev pub Replies : {W : Type 0} → Ptr → Answer W → W × Outcome → Type 0
Replies ctx (answers v w k) (w', o) =
    (w' ≡ w)
    × ((k' : Kernel) × (o ≡ stay k')
        × (load32 k'.memory.bytes (ctx + 40) ≡ v % 2 ^ 32)
        × ((a : ℕ) → within (ctx + 40) 4 a ≡ false → k'.memory.bytes a ≡ k.memory.bytes a)
        × (k' ≡ record k { memory = record k.memory { bytes = k'.memory.bytes } }))
Replies ctx (leaves w o) (w', o') = (w' ≡ w) × (o' ≡ o)

load-stored : (m : Bytes) (p v : ℕ) → load32 (store32 m p v) p ≡ v % 2 ^ 32
unfolding load32 store32
load-stored m p v = ground arith

reply-Replies :
    {W : Type 0} (ctx : Ptr) (answer : Answer W) (result : W × Outcome)
    → result ≡ reply_to ctx answer
    → Replies ctx answer result
unfolding set_eax
reply-Replies ctx (answers v w k) (w', o) e = (
  ap (λ r. r.0) e,
  (
    set_eax k ctx v,
    ap (λ r. r.1) e,
    load-stored k.memory.bytes (ctx + 40) v,
    store32-outside k.memory.bytes (ctx + 40) v,
    refl,
  ),
)
reply-Replies ctx (leaves w o) (w', o') e = (ap (λ r. r.0) e, ap (λ r. r.1) e)

-- The kernel when the handler starts.
abbrev pub entered : Kernel → Ptr → Registers → Kernel
entered k ctx r = record k {
  memory = record k.memory { bytes = push_registers k.memory.bytes ctx r };
}

module _ {W : Type 0} (res : Resources W) (sym : Symbols) (store_in : W → ℕ → Ptr → List ℕ → W)
    (fuel : ℕ) (msg : Ptr) (w : W) (k : Kernel) (ctx : Ptr) (other : Registers) where
  -- The handler after a caller has loaded its registers.
  abbrev pub call : Registers → W × Outcome
  call r = syscall_handler res sym store_in fuel msg w (entered k ctx r) ctx

  abbrev Dispatches : ℕ → ℕ → ℕ → ℕ → ℕ → Type 0
  Dispatches a b c d number =
      (call (sys_exit other a)
        ≡ reply_to ctx (
            after_outcome w
              (sched_exit_current_thread sym (entered k ctx (sys_exit other a)) ctx a)))
      × (call (sys_getpid other)
          ≡ reply_to ctx (answers (sched_get_current_pid k) w (entered k ctx (sys_getpid other))))
      × (call (sys_getppid other)
          ≡ reply_to ctx (answers (sched_get_current_ppid k) w (entered k ctx (sys_getppid other))))
      × (call (sys_nprocess other a b)
          ≡ reply_to ctx (
              sys_nprocess_impl res sym store_in fuel w (entered k ctx (sys_nprocess other a b)) a
                b))
      × (call (sys_nthread other a)
          ≡ reply_to ctx (sys_nthread_impl res sym w (entered k ctx (sys_nthread other a)) a))
      × (call (sys_sleep other a)
          ≡ reply_to ctx (sys_sleep_impl sym w (entered k ctx (sys_sleep other a)) ctx a))
      × (call (sys_send other a b c d)
          ≡ reply_to ctx (
              after_reply w
                (ipc_send sym fuel (entered k ctx (sys_send other a b c d)) a b c d msg)))
      × (call (sys_receive other a b c)
          ≡ reply_to ctx (sys_receive_impl w (entered k ctx (sys_receive other a b c)) a b c msg))
      × (call (record other { eax = number })
          ≡ reply_to ctx (answers no_call w (entered k ctx (record other { eax = number }))))

  syscalls-Dispatches :
      (a b c d number : ℕ)
      → a < 2 ^ 32
      → b < 2 ^ 32
      → c < 2 ^ 32
      → d < 2 ^ 32
      → number < 2 ^ 32
      → 8 ≤ number
      → Dispatches a b c d number
  unfolding syscall_handler dispatch_call sched_get_current_pid sched_get_current_ppid
  syscalls-Dispatches a b c d number la lb lc ld ln h =
      let m : Bytes = k.memory.bytes in
      (
        rw (load_eax m ctx (sys_exit other a) (omega arith), load_ebx m ctx (sys_exit other a) la)
            refl,
        rw (load_eax m ctx (sys_getpid other) (omega arith)) refl,
        rw (load_eax m ctx (sys_getppid other) (omega arith)) refl,
        rw
            (
              load_eax m ctx (sys_nprocess other a b) (omega arith),
              load_ebx m ctx (sys_nprocess other a b) la,
              load_ecx m ctx (sys_nprocess other a b) lb,
            )
            refl,
        rw
            (
              load_eax m ctx (sys_nthread other a) (omega arith),
              load_ebx m ctx (sys_nthread other a) la,
            )
            refl,
        rw (load_eax m ctx (sys_sleep other a) (omega arith), load_ebx m ctx (sys_sleep other a) la)
            refl,
        rw
            (
              load_eax m ctx (sys_send other a b c d) (omega arith),
              load_ebx m ctx (sys_send other a b c d) la,
              load_ecx m ctx (sys_send other a b c d) lb,
              load_esi m ctx (sys_send other a b c d) lc,
              load_edx m ctx (sys_send other a b c d) ld,
            )
            refl,
        rw
            (
              load_eax m ctx (sys_receive other a b c) (omega arith),
              load_ebx m ctx (sys_receive other a b c) lc,
              load_esi m ctx (sys_receive other a b c) la,
              load_edi m ctx (sys_receive other a b c) lb,
            )
            refl,
        rw
            (
              load_eax m ctx (record other { eax = number }) ln,
              differs number 0 h (omega arith),
              differs number 1 h (omega arith),
              differs number 2 h (omega arith),
              differs number 3 h (omega arith),
              differs number 4 h (omega arith),
              differs number 5 h (omega arith),
              differs number 6 h (omega arith),
              differs number 7 h (omega arith),
            )
            refl,
      )

  -- Each call reaches its function with its arguments and replies with its answer, and a number of no
  -- call gives -1.
  abbrev pub Passes : ℕ → ℕ → ℕ → ℕ → ℕ → Type 0
  Passes a b c d number =
      Replies ctx
        (after_outcome w (sched_exit_current_thread sym (entered k ctx (sys_exit other a)) ctx a))
        (call (sys_exit other a))
      × Replies ctx (answers (sched_get_current_pid k) w (entered k ctx (sys_getpid other)))
          (call (sys_getpid other))
      × Replies ctx (answers (sched_get_current_ppid k) w (entered k ctx (sys_getppid other)))
          (call (sys_getppid other))
      × Replies ctx
          (sys_nprocess_impl res sym store_in fuel w (entered k ctx (sys_nprocess other a b)) a b)
          (call (sys_nprocess other a b))
      × Replies ctx (sys_nthread_impl res sym w (entered k ctx (sys_nthread other a)) a)
          (call (sys_nthread other a))
      × Replies ctx (sys_sleep_impl sym w (entered k ctx (sys_sleep other a)) ctx a)
          (call (sys_sleep other a))
      × Replies ctx
          (after_reply w (ipc_send sym fuel (entered k ctx (sys_send other a b c d)) a b c d msg))
          (call (sys_send other a b c d))
      × Replies ctx (sys_receive_impl w (entered k ctx (sys_receive other a b c)) a b c msg)
          (call (sys_receive other a b c))
      × Replies ctx (answers no_call w (entered k ctx (record other { eax = number })))
          (call (record other { eax = number }))

  -- Whatever the registers and the memory hold before, each function of the callers' side reaches the
  -- function of the kernel that it is named after, with its own arguments, which have 32 bits, and
  -- finds in `eax` what that function returns, if it comes back. A number that is none of the eight
  -- gives -1.
  pub syscalls-Passes :
      (a b c d number : ℕ)
      → a < 2 ^ 32
      → b < 2 ^ 32
      → c < 2 ^ 32
      → d < 2 ^ 32
      → number < 2 ^ 32
      → 8 ≤ number
      → Passes a b c d number
  syscalls-Passes a b c d number la lb lc ld ln h =
      let (p0, p1, p2, p3, p4, p5, p6, p7, p8) =
        syscalls-Dispatches a b c d number la lb lc ld ln h in
      (
        reply-Replies ctx _ _ p0,
        reply-Replies ctx (answers (sched_get_current_pid k) w (entered k ctx (sys_getpid other))) _
            p1,
        reply-Replies ctx (answers (sched_get_current_ppid k) w (entered k ctx (sys_getppid other)))
            _ p2,
        reply-Replies ctx _ _ p3,
        reply-Replies ctx _ _ p4,
        reply-Replies ctx _ _ p5,
        reply-Replies ctx _ _ p6,
        reply-Replies ctx _ _ p7,
        reply-Replies ctx (answers no_call w (entered k ctx (record other { eax = number }))) _ p8,
      )
