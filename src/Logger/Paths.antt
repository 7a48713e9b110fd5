-- ===== src/Logger/Paths.antt =====
-- hw2/utils.hpp: the functions behind the wrappers, the text shown for a buffer, and the path shown
-- for a file. `none` is undefined behaviour: a write behind a buffer.
pub mod Shown
pub mod Resolved
use nycu_advanced_unix_progr.Base.{
  ℕ, zero, suc, ◌+◌, ◌-◌, ◌^◌, Bool, true, false, not, ◌||◌, Option, none, some, [], ◌∷◌, ◌++◌,
  bit_and, Bytes, codes, length, leb, ◌==◌, if◌then◌else◌,
}
use nycu_advanced_unix_progr.Base.Int.{ℤ, pos, negsuc}
use nycu_advanced_unix_progr.Base.Ctype.{is_print, c_str}
use nycu_advanced_unix_progr.Base.Decimal.{to_string, int_to_string}
use nycu_advanced_unix_progr.Logger.Libc.{Origin, Libc}

-- BUFFER_SIZE
abbrev pub buffer_size : ℕ
buffer_size = 1024

-- S_IFMT, S_IFDIR and S_IFREG
abbrev pub s_ifmt : ℕ
s_ifmt = 0xf000

abbrev pub s_ifdir : ℕ
s_ifdir = 0x4000

abbrev pub s_ifreg : ℕ
s_ifreg = 0x8000

-- A byte of a buffer as the log shows it.
unfoldable pub masked : ℕ → ℕ
masked c = if not (is_print c) then b'.' else c

-- The rounds of get_buffer from i on.
unfoldable pub buffer_loop : (ℕ → ℕ) → ℕ → ℕ → ℕ → ℕ → Bytes
unfolding masked
buffer_loop mem bf_ptr len zero i = []
buffer_loop mem bf_ptr len (suc rounds) i =
    let msg = masked (mem (bf_ptr + i)) ∷ buffer_loop mem bf_ptr len rounds (i + 1) in
    if leb len i then [] else msg

-- get_buffer(bf_ptr, len)
unfoldable pub get_buffer : (ℕ → ℕ) → ℕ → ℕ → Bytes
get_buffer mem bf_ptr len = buffer_loop mem bf_ptr len 32 0

-- The conversion of an ssize_t to size_t.
abbrev pub size_of : ℤ → ℕ
size_of (pos n) = n
size_of (negsuc n) = 2 ^ 64 - 1 - n

module _ {S : Type 0} (libc : Libc S) where
  -- get_origin_func(func_name), `none` for NULL.
  unfoldable pub get_origin_func : Bytes → S → Option (Origin S × S)
  get_origin_func func_name s =
      let (library, s') = libc.dlopen s in
      elim library [
        | none ↦ none
        | some handle ↦
            let (origin_func, s'') = libc.dlsym handle func_name s' in
            elim origin_func [ none ↦ none | some origin ↦ some (origin, s'') ]
      ]

  -- get_abs_path(const char*); realpath does not know the size of the buffer.
  unfoldable pub get_abs_path : Bytes → S → Option (Bytes × S)
  get_abs_path file_name s =
      let (resolved, s') = libc.realpath file_name s in
      elim resolved [
        | none ↦ some (codes "(null)", s')
        | some abs_path ↦ if leb buffer_size (length abs_path) then none else some (abs_path, s')
      ]

  unfoldable pub fd_link : ℤ → S → Bytes
  fd_link fd s = codes "/proc/" ++ (to_string (libc.getpid s) ++ (codes "/fd/" ++ int_to_string fd))

  -- The end of get_abs_path(int), with the mode of the file and the name in the link.
  unfoldable pub by_type : ℕ → Bytes → S → Option (Bytes × S)
  unfolding get_abs_path
  by_type mode file_name s =
      let type = bit_and mode s_ifmt in
      if type == s_ifdir || type == s_ifreg
      then get_abs_path (c_str file_name) s
      else some (c_str file_name, s)

  -- get_abs_path(int); the 0 that ends the name has no place where the link fills the buffer.
  unfoldable pub get_abs_path_fd : ℤ → S → Option (Bytes × S)
  unfolding fd_link by_type
  get_abs_path_fd fd s =
      let (name, s') = libc.readlink (fd_link fd s) buffer_size s in
      elim name [
        | none ↦ some ([], s')
        | some file_name ↦
            let (found, s'') = libc.stat_mode (fd_link fd s) s' in
            if leb buffer_size (length file_name)
            then none
            else elim found [ none ↦ some ([], s'') | some mode ↦ by_type mode file_name s'' ]
      ]

  -- get_abs_path(FILE*)
  unfoldable pub get_abs_path_stream : ℕ → S → Option (Bytes × S)
  unfolding get_abs_path_fd
  get_abs_path_stream fp s =
      let (found, s') = libc.fileno fp s in
      elim found [ none ↦ some ([], s') | some fd ↦ get_abs_path_fd fd s' ]
