-- ===== src/Libmini/Signal.antt =====
-- sigemptyset, sigfillset, sigaction and signal of hw3/libmini.c.
pub mod Install
use nycu_advanced_unix_progr.Base.{
  ℕ, zero, suc, ◌-◌, ◌^◌, Bool, true, false, ◌||◌, Option, none, some, bit_or, ltb, ◌==◌,
  if◌then◌else◌,
}
use nycu_advanced_unix_progr.Base.Int.{ℤ, pos, negsuc}
use nycu_advanced_unix_progr.Base.Word.{word_at}
use nycu_advanced_unix_progr.Libmini.Wrappers.{Mini, c_int, wrapper_ret}
use nycu_advanced_unix_progr.Libmini.Blocks.{Mem, memset}
use nycu_advanced_unix_progr.Libmini.Sigset.{einval, out_of_range, sigaddset}

-- struct sigaction; a handler or restorer is an address.
pub record SigAction : Type 0 where
  pub sa_handler : ℕ
  pub sa_flags : ℕ
  pub sa_restorer : ℕ
  pub sa_mask : ℕ

-- SIG_ERR, SIGINT, SA_RESTART and SA_RESTORER
abbrev pub sig_err : ℕ
sig_err = 2 ^ 64 - 1

abbrev pub sigint : ℕ
sigint = 2

abbrev pub sa_restart : ℕ
sa_restart = 0x10000000

abbrev pub sa_restorer_flag : ℕ
sa_restorer_flag = 0x04000000

module _ {S : Type 0} where
  -- sigemptyset and sigfillset on the set at an address, `none` for a null pointer; i is what the
  -- loop variable of memset holds at first.
  unfoldable pub set_all : ℕ → Mem → Option ℕ → ℤ → Mini S → ℤ × Mem × Mini S
  unfolding wrapper_ret
  set_all c f none i s =
      let (value, s') = wrapper_ret c_int (negsuc (einval - 1)) s.os in (value, f, s')
  set_all c f (some set) i s =
      let (value, s') = wrapper_ret c_int (pos 0) s.os in (value, memset f set c 8 i, s')

  unfoldable pub sigemptyset : Mem → Option ℕ → ℤ → Mini S → ℤ × Mem × Mini S
  unfolding set_all
  sigemptyset = set_all 0

  unfoldable pub sigfillset : Mem → Option ℕ → ℤ → Mini S → ℤ × Mem × Mini S
  unfolding set_all
  sigfillset = set_all 0xff

-- sys_rt_sigaction: the result, and what it leaves in koldact.
abbrev pub SigKernel : Type 0 → Type 0
SigKernel S = ℤ → SigAction → S → ℤ × SigAction × S

-- kact, which is not set where act is a null pointer; `restorer` is the address of
-- sys_rt_sigreturn.
kernel_action : ℕ → SigAction → Option SigAction → SigAction
kernel_action restorer garbage none = garbage
kernel_action restorer garbage (some act) = record act {
  sa_flags = bit_or act.sa_flags sa_restorer_flag;
  sa_restorer = restorer;
}

-- `!ret && oldact`
old_action : Bool → ℤ → SigAction → Option SigAction
old_action true (pos zero) kold = some kold
old_action _ ret kold = none

-- sa_flags of signal
flags_of : ℤ → ℕ
flags_of (pos n) = if n == sigint then 0 else sa_restart
flags_of (negsuc n) = sa_restart

-- The mask of a set that was given.
mask_or : ℕ → Option ℕ → ℕ
mask_or w none = w
mask_or w (some set) = set

module _ {S : Type 0} where
  -- The mask that sigemptyset and sigaddset leave in act.sa_mask, at address p of the stack f.
  unfoldable pub signal_mask : Mem → ℕ → ℤ → ℤ → Mini S → Option ℕ × Mini S
  signal_mask f p i signum s =
      let (ret, f', s') = sigemptyset f (some p) i s in
      let (ret', set, s'') = sigaddset (some (word_at 8 f' p)) signum s' in (set, s'')

module _ {S : Type 0} (sys : SigKernel S) (restorer : ℕ) (garbage : SigAction) where
  -- sigaction(signum, act, oldact), where oldact is given or not: the result, and what is written
  -- to *oldact.
  unfoldable pub sigaction : ℤ → Option SigAction → Bool → Mini S → ℤ × Option SigAction × Mini S
  unfolding kernel_action old_action wrapper_ret
  sigaction signum act oldact s =
      let (ret, kold, os) = sys signum (kernel_action restorer garbage act) s.os in
      let (value, s') = wrapper_ret c_int ret os in (value, old_action oldact ret kold, s')

  -- The end of signal: `sigaction(...) < 0`. Where nothing was written, oact is what the stack held.
  old_handler : ℤ × Option SigAction × Mini S → ℕ × Mini S
  old_handler (negsuc n, old, s) = (sig_err, s)
  old_handler (pos n, none, s) = (garbage.sa_handler, s)
  old_handler (pos n, some old, s) = (old.sa_handler, s)

  -- signal(signum, handler)
  unfoldable pub signal : Mem → ℕ → ℤ → ℤ → ℕ → Mini S → ℕ × Mini S
  unfolding old_handler flags_of sigaction mask_or
  signal f p i signum handler s =
      if handler == sig_err || out_of_range signum
      then (sig_err, record s { errno = pos einval })
      else let (set, s') = signal_mask f p i signum s in
        let act : SigAction = record {
          sa_handler = handler;
          sa_flags = flags_of signum;
          sa_restorer = garbage.sa_restorer;
          sa_mask = mask_or 0 set;
        } in
        old_handler (sigaction signum (some act) true s')
