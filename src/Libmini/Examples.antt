-- ===== src/Libmini/Examples.antt =====
-- The theorems on libmini at concrete inputs: a kernel that opens files from descriptor 3 on and
-- refuses to write, and one that knows one old handler.
use nycu_advanced_unix_progr.Base.{
  ℕ, zero, suc, ◌+◌, ◌*◌, ◌%◌, ◌<◌, ◌≡◌, refl, ◌≢◌, ◌⊎◌, inl, ◌++◌, some, List, [], ◌∷◌, Bytes,
  codes, length, ltb, ◌==◌, if◌then◌else◌, arith,
}
use nycu_advanced_unix_progr.Base.Int.{pos, negsuc}
use nycu_advanced_unix_progr.Libmini.Wrappers.{
  Mini, creat, sys_creat, write, Kernel, wrapper, negated, failure,
}
use nycu_advanced_unix_progr.Libmini.Wrappers.Contract.{Outcome, declared, request, wrapper-Outcome}
use nycu_advanced_unix_progr.Libmini.Blocks.{Mem, strlen}
use nycu_advanced_unix_progr.Libmini.Sigset.{sigismember, sigaddset, sigdelset}
use nycu_advanced_unix_progr.Libmini.Sigset.Members.{sigaddset-members, sigdelset-members}
use nycu_advanced_unix_progr.Libmini.Signal.{SigAction, SigKernel, sig_err, signal}
use nycu_advanced_unix_progr.Libmini.Signal.Install.{wanted, signal_installs}
use nycu_advanced_unix_progr.Libmini.Testcase.{
  write_string, write1, jmp1, IsText, texts_written, jmp1-returns,
}
use nycu_advanced_unix_progr.Libmini.Errno.{e_mfile, number_of, comment}
use nycu_advanced_unix_progr.Libmini.Errno.Described.{perror-comment}
use nycu_advanced_unix_progr.Libmini.Perror.{Writer, message, perror}
use nycu_advanced_unix_progr.Libmini.Perror.Printed.{perror-eq}

-- Its world is the next descriptor.
abbrev toy_sys : Kernel ℕ
toy_sys (sys_creat path mode) os = (pos os, os + 1)
toy_sys c os = (negsuc 12, os)

abbrev fresh : Mini ℕ
fresh = record { errno = pos 7; os = 3 }

wrapper-Outcome_example :
    let (value, s') = wrapper toy_sys (creat 0x2000 (pos 420)) fresh in
    Outcome (declared (creat 0x2000 (pos 420))) (pos 3) value s'.errno × (s'.os ≡ 4)
unfolding declared request
wrapper-Outcome_example = wrapper-Outcome toy_sys (creat 0x2000 (pos 420)) fresh (omega arith)

-- An error of the kernel.
write_fails : (wrapper toy_sys (write (pos 1) 0x2000 (pos 5)) fresh).0 ≡ negsuc 0
unfolding wrapper failure
write_fails = refl

-- "hi" at address 16.
abbrev greeting : Mem
greeting a = if a == 16 then 104 else if a == 17 then 105 else 0

greeting-set : (j : ℕ) → j < 2 → greeting (16 + j) ≢ 0
greeting-set zero h = λ e. cc
greeting-set (suc zero) h = λ e. cc
greeting-set (suc (suc j)) h = absurd (omega arith)

-- Signals 2 and 15.
abbrev two_signals : ℕ
two_signals = 0x4002

sigaddset-members_example :
    (set' : ℕ) × (sigaddset (some two_signals) (pos 9) fresh
      ≡ (pos 0, some set', record { errno = pos 0; os = 3 }))
    × ((sigismember (some set') (pos 15) fresh).0 ≡ pos 1)
unfolding sigismember
sigaddset-members_example =
    sigaddset-members two_signals fresh 9 15 (omega arith, omega arith) (omega arith, omega arith)

sigdelset-members_example :
    (set' : ℕ) × (sigdelset (some two_signals) (pos 15) fresh
      ≡ (pos 0, some set', record { errno = pos 0; os = 3 }))
    × ((sigismember (some set') (pos 15) fresh).0 ≡ pos 0)
unfolding sigismember
sigdelset-members_example =
    sigdelset-members two_signals fresh 15 15 (omega arith, omega arith) (omega arith, omega arith)

abbrev old_contents : Mem
old_contents a = 7

-- The kernel keeps the action; the last one had handler 0x4000.
abbrev some_action : SigAction
some_action = record { sa_handler = 0x4000; sa_flags = 0; sa_restorer = 0; sa_mask = 0 }

abbrev toy_sigaction : SigKernel (List SigAction)
toy_sigaction signum act os = (pos 0, some_action, act ∷ os)

abbrev no_action : Mini (List SigAction)
no_action = record { errno = pos 0; os = [] }

signal_installs_example :
    let act = wanted toy_sigaction 0x3000 some_action 14 0x5000 in
    let result =
      signal toy_sigaction 0x3000 some_action old_contents 0x100
        (pos 0)
        (pos 14)
        0x5000
        no_action in
    ((pos 0 ≡ pos 0) × (result ≡ (0x4000, record { errno = pos 0; os = act ∷ [] })))
    ⊎ ((n : ℕ) × (pos 0 ≡ negsuc n)
        × (result ≡ (sig_err, record { errno = negated n; os = act ∷ [] })))
signal_installs_example =
    signal_installs toy_sigaction 0x3000 some_action old_contents 0x100 14 0x5000 no_action
      (omega arith, omega arith) (λ e. ground arith) (inl refl)

-- A terminal that shows all bytes.
abbrev toy_write : Writer Bytes
toy_write text os = (pos (length text), os ++ text)

toy_write-succeeds : (text os : Bytes) → (n : ℕ) × ((toy_write text os).0 ≡ pos n)
toy_write-succeeds text os = (length text, refl)

abbrev refused : Mini Bytes
refused = record { errno = pos 13; os = [] }

perror-eq_example :
    perror toy_write (some (codes "cat")) refused
    ≡ some (record { errno = pos 0; os = codes "cat: Permission denied\n" })
unfolding perror message nycu_advanced_unix_progr.Libmini.Perror.errmsg
perror-eq_example = perror-eq toy_write toy_write-succeeds (some (codes "cat")) refused

-- The text of the function number k of jmp1 has 22 bytes and is at 100 * k.
abbrev ten_texts : Mem
ten_texts a = if ltb (a % 100) 22 then 65 else 0

abbrev text_at : ℕ → ℕ
text_at k = 100 * k

abbrev text_length : ℕ → ℕ
text_length k = 22

ten_texts-IsText : (k : ℕ) → k < 10 → (22 < 30) × IsText ten_texts (text_at k) 22
ten_texts-IsText k h = (omega arith, ((λ j l. ground arith), ground arith))

jmp1-returns_example :
    jmp1 toy_sys 30 ten_texts text_at 11 fresh
    ≡ some (pos 0, texts_written toy_sys text_at text_length 0 10 fresh)
jmp1-returns_example = jmp1-returns toy_sys 30 ten_texts text_at text_length fresh ten_texts-IsText

-- The program of four texts, with the same memory.
write1_runs : write1 toy_sys 30 ten_texts text_at fresh ≡ some (record { errno = pos 13; os = 3 })
unfolding write1 write_string strlen wrapper
write1_runs = refl

perror-comment_example :
    perror toy_write (some (codes "cat")) (record { errno = pos (number_of e_mfile); os = [] })
    ≡ some (record { errno = pos 0; os = codes "cat: Too many open files\n" })
unfolding comment
perror-comment_example = perror-comment toy_write toy_write-succeeds (some (codes "cat")) e_mfile []
