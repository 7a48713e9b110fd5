-- ===== src/Logger/Paths/Resolved.antt =====
-- The paths that the logger shows, where the buffers are long enough.
use nycu_advanced_unix_progr.Base.{
  ℕ, ◌<◌, ◌≡◌, refl, inl, inr, false, ◌||◌, none, some, [], Bytes, codes, bit_and, length, leb,
  ◌==◌, if◌then◌else◌, arith, Bool-cases, Option-cases,
}
use nycu_advanced_unix_progr.Base.Int.{ℤ}
use nycu_advanced_unix_progr.Base.Ctype.{c_str}
use nycu_advanced_unix_progr.Logger.Libc.{Libc}
use nycu_advanced_unix_progr.Logger.Paths.{
  buffer_size, s_ifmt, s_ifdir, s_ifreg, fd_link, by_type, get_abs_path, get_abs_path_fd,
  get_abs_path_stream,
}

-- No path is as long as the buffers of hw2/utils.hpp.
pub record ShortPaths {S : Type 0} (libc : Libc S) : Type 0 where
  pub short_path :
      (path : Bytes) (s : S) (p : Bytes)
      → (libc.realpath path s).0 ≡ some p
      → length p < buffer_size
  pub short_link :
      (link : Bytes) (s : S) (p : Bytes)
      → (libc.readlink link buffer_size s).0 ≡ some p
      → length p < buffer_size

module _ {S : Type 0} (libc : Libc S) where
  -- What is shown for a path, and the world behind it: what realpath gives, or "(null)".
  unfoldable pub named : Bytes → S → Bytes × S
  named path s =
      let (found, s') = libc.realpath path s in
      elim found [ none ↦ (codes "(null)", s') | some p ↦ (p, s') ]

  -- For a descriptor: the target of its link under /proc, resolved where it is a directory or a
  -- regular file; nothing where the link cannot be read or followed.
  unfoldable pub opened : ℤ → S → Bytes × S
  unfolding named
  opened fd s =
      let link = fd_link libc fd s in
      let (target, s1) = libc.readlink link buffer_size s in
      elim target [
        | none ↦ ([], s1)
        | some name ↦
            let (mode, s2) = libc.stat_mode link s1 in
            elim mode [
              | none ↦ ([], s2)
              | some m ↦
                  if bit_and m s_ifmt == s_ifdir || bit_and m s_ifmt == s_ifreg
                  then named (c_str name) s2
                  else (c_str name, s2)
            ]
      ]

  -- For a stream: the same for its descriptor.
  unfoldable pub streamed : ℕ → S → Bytes × S
  unfolding opened
  streamed fp s =
      let (found, s') = libc.fileno fp s in elim found [ none ↦ ([], s') | some fd ↦ opened fd s' ]

  module _ (short : ShortPaths libc) where
    pub get_abs_path-named : (path : Bytes) (s : S) → get_abs_path libc path s ≡ some (named path s)
    unfolding get_abs_path named
    get_abs_path-named path s = elim (Option-cases (libc.realpath path s).0) [
      | inl e ↦ rw (get_abs_path, named, e) refl
      | inr (p, e) ↦
          let fits : leb buffer_size (length p) ≡ false =
            ground (arith, short.short_path path s p e) in
          rw (get_abs_path, named, e, fits) refl
    ]

    pub get_abs_path_fd-opened : (fd : ℤ) (s : S) → get_abs_path_fd libc fd s ≡ some (opened fd s)
    unfolding get_abs_path_fd by_type opened
    get_abs_path_fd-opened fd s =
        let link = fd_link libc fd s in
        elim (Option-cases (libc.readlink link buffer_size s).0) [
          | inl e ↦ rw (get_abs_path_fd, opened, e) refl
          | inr (name, e) ↦
              let fits : leb buffer_size (length name) ≡ false =
                ground (arith, short.short_link link s name e) in
              let s1 = (libc.readlink link buffer_size s).1 in
              elim (Option-cases (libc.stat_mode link s1).0) [
                | inl gone ↦ rw (get_abs_path_fd, opened, e, fits, gone) refl
                | inr (m, there) ↦
                    let s2 = (libc.stat_mode link s1).1 in
                    let type = bit_and m s_ifmt in
                    elim (Bool-cases (type == s_ifdir || type == s_ifreg)) [
                      | inl regular ↦
                          rw (get_abs_path_fd, by_type, opened, e, fits, there, regular)
                            (get_abs_path-named (c_str name) s2)
                      | inr other ↦
                          rw (get_abs_path_fd, by_type, opened, e, fits, there, other) refl
                    ]
              ]
        ]

    pub get_abs_path_stream-streamed :
        (fp : ℕ) (s : S) → get_abs_path_stream libc fp s ≡ some (streamed fp s)
    unfolding get_abs_path_stream streamed
    get_abs_path_stream-streamed fp s = elim (Option-cases (libc.fileno fp s).0) [
      | inl e ↦ rw (get_abs_path_stream, streamed, e) refl
      | inr (fd, e) ↦
          rw (get_abs_path_stream, streamed, e) (get_abs_path_fd-opened fd (libc.fileno fp s).1)
    ]
