-- ===== src/Libmini/Errno/Described.antt =====
-- perror on the error numbers of hw3/libmini.h.
use nycu_advanced_unix_progr.Base.{ℕ, ◌≡◌, refl, ◌∙◌, ap, Option, some, Bytes}
use nycu_advanced_unix_progr.Base.Int.{pos}
use nycu_advanced_unix_progr.Libmini.Perror.{errmsg, message, Writer, perror}
use nycu_advanced_unix_progr.Libmini.Perror.Printed.{pieces, printed, perror-eq}
use nycu_advanced_unix_progr.Libmini.Errno.{
  Errno, e_perm, e_noent, e_srch, e_intr, e_io, e_nxio, e_2big, e_noexec, e_badf, e_child, e_again,
  e_nomem, e_acces, e_fault, e_notblk, e_busy, e_exist, e_xdev, e_nodev, e_notdir, e_isdir, e_inval,
  e_nfile, e_mfile, e_notty, e_txtbsy, e_fbig, e_nospc, e_spipe, e_rofs, e_mlink, e_pipe, e_dom,
  e_range, number_of, comment,
}

-- The table of messages agrees with the comments.
message-comment : (e : Errno) → message (pos (number_of e)) ≡ some (comment e)
unfolding message errmsg number_of comment
message-comment e_perm = refl
message-comment e_noent = refl
message-comment e_srch = refl
message-comment e_intr = refl
message-comment e_io = refl
message-comment e_nxio = refl
message-comment e_2big = refl
message-comment e_noexec = refl
message-comment e_badf = refl
message-comment e_child = refl
message-comment e_again = refl
message-comment e_nomem = refl
message-comment e_acces = refl
message-comment e_fault = refl
message-comment e_notblk = refl
message-comment e_busy = refl
message-comment e_exist = refl
message-comment e_xdev = refl
message-comment e_nodev = refl
message-comment e_notdir = refl
message-comment e_isdir = refl
message-comment e_inval = refl
message-comment e_nfile = refl
message-comment e_mfile = refl
message-comment e_notty = refl
message-comment e_txtbsy = refl
message-comment e_fbig = refl
message-comment e_nospc = refl
message-comment e_spipe = refl
message-comment e_rofs = refl
message-comment e_mlink = refl
message-comment e_pipe = refl
message-comment e_dom = refl
message-comment e_range = refl

-- Where every write succeeds and errno is one of the error numbers of libmini.h, perror prints the
-- prefix, if there is one, a colon and a space, then the words that libmini.h has beside the number, and
-- a new line, and leaves errno 0.
pub perror-comment :
    {S : Type 0} (sys : Writer S)
    → ((text : Bytes) (os : S) → (n : ℕ) × ((sys text os).0 ≡ pos n))
    → (prefix : Option Bytes) (e : Errno) (os : S)
    → perror sys prefix (record { errno = pos (number_of e); os = os })
      ≡ printed sys (pieces prefix (some (comment e))) os
perror-comment sys succeed prefix e os =
    perror-eq sys succeed prefix (record { errno = pos (number_of e); os = os })
    ∙ ap (λ (m : Option Bytes). printed sys (pieces prefix m) os) (message-comment e)
