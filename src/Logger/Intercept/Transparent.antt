-- ===== src/Logger/Intercept/Transparent.antt =====
-- What a program and the log see of a call behind the logger.
use nycu_advanced_unix_progr.Base.{ℕ, ◌≡◌, ◌⊎◌, none, some, List, [], ◌∷◌, Bytes, codes}
use nycu_advanced_unix_progr.Base.Int.{ℤ}
use nycu_advanced_unix_progr.Logger.Libc.{
  GlibcCall, call_chmod, call_chown, call_close, call_creat, call_fclose, call_fopen, call_fread,
  call_fwrite, call_open, call_read, call_write, call_remove, call_rename, call_tmpfile, Field,
  quoted, Line, Origin, Libc,
}
use nycu_advanced_unix_progr.Logger.Paths.Resolved.{named, opened, streamed}
use nycu_advanced_unix_progr.Logger.Intercept.{open_mode, intercept}

-- The call that reaches libc: open without its mode.
abbrev pub asked : GlibcCall → GlibcCall
asked (call_open pathname flags arg) = call_open pathname flags none
asked c = c

-- The name of the function.
abbrev pub func_name : GlibcCall → Bytes
func_name (call_chmod path mode) = codes "chmod"
func_name (call_chown path owner group) = codes "chown"
func_name (call_close fd) = codes "close"
func_name (call_creat path mode) = codes "creat"
func_name (call_fclose stream) = codes "fclose"
func_name (call_fopen pathname mode) = codes "fopen"
func_name (call_fread ptr size nmemb stream) = codes "fread"
func_name (call_fwrite ptr size nmemb stream) = codes "fwrite"
func_name (call_open pathname flags arg) = codes "open"
func_name (call_read fd buf nbyte) = codes "read"
func_name (call_write fd buf nbyte) = codes "write"
func_name (call_remove pathname) = codes "remove"
func_name (call_rename oldp newp) = codes "rename"
func_name call_tmpfile = codes "tmpfile"

-- open has its third argument where its flags need one.
abbrev pub HasMode : GlibcCall → Type 0
HasMode (call_open pathname flags arg) = (mode : ℕ) × (open_mode flags arg ≡ some mode)
HasMode c = Unit

-- The line shows a path.
abbrev pub Shows : Bytes → List Field → Type 0
Shows p [] = ⊥
Shows p (f ∷ fields) = (f ≡ quoted p) ⊎ Shows p fields

module _ {S : Type 0} (libc : Libc S) where
  -- The linker finds every function in libc.
  pub record Linked (origin : Origin S) : Type 0 where
    pub handle : ℕ
    pub opens : (s : S) → (libc.dlopen s).0 ≡ some handle
    pub finds : (c : GlibcCall) (s : S) → (libc.dlsym handle (func_name c) s).0 ≡ some origin

  -- The path that is looked up before the call, of a file that the call may take away, and the world
  -- behind the look-up.
  abbrev pub earlier : GlibcCall → S → Bytes × S
  earlier (call_close fd) s = opened libc fd s
  earlier (call_fclose stream) s = streamed libc stream s
  earlier (call_remove pathname) s = named libc pathname s
  earlier (call_rename oldp newp) s = named libc oldp s
  earlier c s = ([], s)

  -- The path that is looked up behind the call, and the world behind the look-up.
  abbrev pub later : GlibcCall → S → Bytes × S
  later (call_chmod path mode) s = named libc path s
  later (call_chown path owner group) s = named libc path s
  later (call_creat path mode) s = named libc path s
  later (call_fopen pathname mode) s = named libc pathname s
  later (call_fread ptr size nmemb stream) s = streamed libc stream s
  later (call_fwrite ptr size nmemb stream) s = streamed libc stream s
  later (call_open pathname flags arg) s = named libc pathname s
  later (call_read fd buf nbyte) s = opened libc fd s
  later (call_write fd buf nbyte) s = opened libc fd s
  later (call_rename oldp newp) s = named libc newp s
  later c s = ([], s)

  -- What the line shows of them: tmpfile has no path, rename has both.
  abbrev pub ShowsPaths : GlibcCall → Bytes → Bytes → List Field → Type 0
  ShowsPaths (call_close fd) p q fields = Shows p fields
  ShowsPaths (call_fclose stream) p q fields = Shows p fields
  ShowsPaths (call_remove pathname) p q fields = Shows p fields
  ShowsPaths (call_rename oldp newp) p q fields = Shows p fields × Shows q fields
  ShowsPaths call_tmpfile p q fields = fields ≡ []
  ShowsPaths c p q fields = Shows q fields

  module _ (origin : Origin S) (linked : Linked origin) where
    -- The world behind the search for the function.
    abbrev pub ready : GlibcCall → S → S
    ready c s = (libc.dlsym linked.handle (func_name c) (libc.dlopen s).1).1

    -- The call of libc, with its result and the world behind it.
    abbrev pub made : GlibcCall → S → ℤ × S
    made c s = origin (asked c) (earlier c (ready c s)).1

    -- The world in which the line is written.
    abbrev pub behind : GlibcCall → S → S
    behind c s = (later c (made c s).1).1

    -- What the program gets and the line that the log gets, by what libc does for the call.
    abbrev pub IsLogged : GlibcCall → S → ℤ → Type 0
    IsLogged c s fd =
        (line : Line) × (intercept libc c s
          ≡ some ((made c s).0, libc.dprintf fd line (behind c s)))
        × (line.func ≡ func_name c)
        × (line.result ≡ (made c s).0)
        × ShowsPaths c (earlier c (ready c s)).0 (later c (made c s).1).0 line.fields
