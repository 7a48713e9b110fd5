-- ===== src/Lsof/Listing/Filtered.antt =====
-- The filters select from the list without filters.
use nycu_advanced_unix_progr.Base.{
  ℕ, ◌≡◌, refl, sym, ap, Bool, true, false, not, ◌&&◌, Option, none, some, List, [], ◌∷◌, ◌++◌,
  Bytes, if◌then◌else◌, Bool-cases, inl, inr,
}
use nycu_advanced_unix_progr.Base.Options.{◌>>=◌}
use nycu_advanced_unix_progr.Lsof.File.{OpenFile, is_number}
use nycu_advanced_unix_progr.Lsof.Process.{Proc, Process}
use nycu_advanced_unix_progr.Lsof.Examine.{examine}
use nycu_advanced_unix_progr.Lsof.Listing.{
  Regex, Filters, Row, row, print_files, print_opening_files, list_processes,
}

-- The regex that finds something in every text.
abbrev anything : Regex
anything = record { search = λ s. true; matches = λ s. true }

abbrev pub no_filters : Filters
no_filters = record {
  filter_command = anything;
  filter_type = anything;
  filter_file_name = anything;
}

-- What the filters say of a row.
abbrev pub passes : Filters → Row → Bool
passes filters r =
    filters.filter_command.search r.command
    && (filters.filter_type.search r.file.type && filters.filter_file_name.search r.file.name)

abbrev pub select : (Row → Bool) → List Row → List Row
select test [] = []
select test (r ∷ rows) = if test r then r ∷ select test rows else select test rows

abbrev pub select_rows : (Row → Bool) → Option (List Row) → Option (List Row)
select_rows test none = none
select_rows test (some rows) = some (select test rows)

select-append :
    (test : Row → Bool) (xs ys : List Row)
    → select test (xs ++ ys) ≡ select test xs ++ select test ys
select-append test [] ys = refl
select-append test (x ∷ xs) ys = elim (Bool-cases (test x)) [
  | inl h ↦ rw h (ap (λ l. x ∷ l) (select-append test xs ys))
  | inr h ↦ rw h (select-append test xs ys)
]

shown-select :
    (test : Row → Bool) (alive found : Bool) (xs ys : List Row)
    → (found ≡ true → xs ≡ select test ys)
    → (found ≡ false → [] ≡ select test ys)
    → (if alive && found then xs else []) ≡ select test (if alive && true then ys else [])
shown-select test false found xs ys h k = refl
shown-select test true true xs ys h k = h refl
shown-select test true false xs ys h k = k refl

module _ (filters : Filters) (p : Process) where
  print_files-select :
      (files : List OpenFile)
      → filters.filter_command.search p.command ≡ true
      → print_files filters p files ≡ select (passes filters) (print_files no_filters p files)
  unfolding print_files
  print_files-select [] h = refl
  print_files-select (f ∷ files) h =
      let rest = print_files-select files h in
      elim (Bool-cases
        (filters.filter_type.search f.type && filters.filter_file_name.search f.name)) [
          | inl good ↦ rw (print_files, h, good) (ap (λ l. row p f ∷ l) rest)
          | inr bad ↦ rw (print_files, h, bad) rest
        ]

  print_files-none :
      (files : List OpenFile)
      → filters.filter_command.search p.command ≡ false
      → [] ≡ select (passes filters) (print_files no_filters p files)
  unfolding print_files
  print_files-none [] h = refl
  print_files-none (f ∷ files) h = rw (print_files, h) (print_files-none files h)

  print-select :
      print_opening_files filters p ≡ select (passes filters) (print_opening_files no_filters p)
  unfolding print_opening_files
  print-select =
      shown-select (passes filters) p.alive (filters.filter_command.search p.command)
        (print_files filters p p.file_list) (print_files no_filters p p.file_list)
        (print_files-select p.file_list) (print_files-none p.file_list)

-- One process of the list.
listed-select :
    (test : Row → Bool) (number : Bool) (o : Option Process) (show show' : Process → List Row)
    (rest rest' : Option (List Row))
    → ((p : Process) → show p ≡ select test (show' p))
    → rest ≡ select_rows test rest'
    → (if not number then rest else o >>= λ p. rest >>= λ rows. some (show p ++ rows))
      ≡ select_rows test
          (if not number then rest' else o >>= λ p. rest' >>= λ rows. some (show' p ++ rows))
listed-select test false o show show' rest rest' h e = e
listed-select test true none show show' rest rest' h e = refl
listed-select test true (some p) show show' rest none h e = rw e refl
listed-select test true (some p) show show' rest (some rows) h e =
    rw (e, h p) (ap some (sym (select-append test (show' p) rows)))

module _ (proc : Proc) (users : ℕ → Bytes) (filters : Filters) where
  -- The list with some filters is the list without filters, less the rows whose command, type or name
  -- they do not find; both end alike where the examination of a process is undefined.
  pub list_processes-select :
      (names : List Bytes)
      → list_processes proc users filters names
        ≡ select_rows (passes filters) (list_processes proc users no_filters names)
  unfolding list_processes
  list_processes-select [] = refl
  list_processes-select (d_name ∷ names) =
      listed-select (passes filters) (is_number d_name) (examine proc users d_name)
        (print_opening_files filters) (print_opening_files no_filters)
        (list_processes proc users filters names) (list_processes proc users no_filters names)
        (print-select filters) (list_processes-select names)
