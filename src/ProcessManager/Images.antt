-- ===== src/ProcessManager/Images.antt =====
-- `GetRemoteExport` in src/apiscope/process_manager.cpp: the image that it reads, by the layout of the PE
-- format, and what it finds there.
use hook_nt.Prelude.{
  ℕ, zero, suc, ◌+◌, ◌*◌, ◌%◌, ◌^◌, ◌<◌, ◌≡◌, refl, arith, true, false, some, List, [], ◌∷◌, ◌++◌,
  map, length, get_elem?, All,
}
use hook_nt.Prelude.{sym, ap, ◌∙◌, ltb, ◌==◌}
use hook_nt.Prelude.Words.{le_bytes, length-le_bytes}
use hook_nt.ProcessManager.{
  Read, ExportTables, number_at, nt_headers, export_directory, read_tables, export_tables,
  get_remote_export,
}
use hook_nt.ProcessManager.Encoding.{
  table_bytes, number_at-skip, number_at-le_bytes, number_at-behind, number_at-table_bytes,
}
use hook_nt.ProcessManager.Exports.{ExportName, Resolves, Holds, Lists, find_export-Resolves}

-- An image with exports: its offsets, the offsets of its functions, its names, and the bytes of its headers
-- that are not looked at.
pub record Image : Type 0 where
  pub e_lfanew : ℕ
  pub start : ℕ
  pub size : ℕ
  pub functions : ℕ
  pub names : ℕ
  pub ordinals : ℕ
  pub rvas : List ℕ
  pub entries : List ExportName
  pub dos_rest : List ℕ
  pub nt_front : List ℕ
  pub nt_rest : List ℕ
  pub directory_front : List ℕ

abbrev pub dos_bytes : Image → List ℕ
dos_bytes m = le_bytes 2 0x5A4D ++ (m.dos_rest ++ (le_bytes 4 m.e_lfanew ++ []))

abbrev pub nt_bytes : Image → List ℕ
nt_bytes m =
    le_bytes 4 0x4550 ++ (m.nt_front ++ (le_bytes 4 m.start ++ (le_bytes 4 m.size ++ m.nt_rest)))

abbrev pub directory_bytes : Image → List ℕ
directory_bytes m =
    m.directory_front
    ++ table_bytes 4 (length m.rvas ∷ length m.entries ∷ m.functions ∷ m.names ∷ m.ordinals ∷ [])

-- The image stands in the target's memory at `base`.
pub record IsMapped (read : Read) (base : ℕ) (m : Image) : Type 0 where
  pub dos : read base 64 ≡ some (dos_bytes m)
  pub nt : read ((base + m.e_lfanew) % 2 ^ 64) 264 ≡ some (nt_bytes m)
  pub directory : read ((base + m.start) % 2 ^ 64) 40 ≡ some (directory_bytes m)
  pub function_table :
      read ((base + m.functions) % 2 ^ 64) (length m.rvas * 4) ≡ some (table_bytes 4 m.rvas)
  pub name_table :
      read ((base + m.names) % 2 ^ 64) (length m.entries * 4)
      ≡ some (table_bytes 4 (map (λ e. e.name_rva) m.entries))
  pub ordinal_table :
      read ((base + m.ordinals) % 2 ^ 64) (length m.entries * 2)
      ≡ some (table_bytes 2 (map (λ e. e.ordinal) m.entries))

-- The numbers fit into their fields, there is an export directory, and the fields are in their places.
pub record IsImage (m : Image) : Type 0 where
  pub lfanew : m.e_lfanew < 2 ^ 31
  pub present : 0 < m.start
  pub in_range : m.start + m.size < 2 ^ 32
  pub functions_fit : m.functions < 2 ^ 32
  pub names_fit : m.names < 2 ^ 32
  pub ordinals_fit : m.ordinals < 2 ^ 32
  pub function_count : length m.rvas < 2 ^ 32
  pub name_count : length m.entries < 2 ^ 32
  pub rvas_fit : All (λ v. v < 256 ^ 4) m.rvas
  pub name_rvas_fit : All (λ v. v < 256 ^ 4) (map (λ e. e.name_rva) m.entries)
  pub numbers_fit : All (λ v. v < 256 ^ 2) (map (λ e. e.ordinal) m.entries)
  pub dos_size : 58 ≡ length m.dos_rest
  pub nt_size : 132 ≡ length m.nt_front
  pub directory_size : 20 ≡ length m.directory_front

abbrev tables_of : Image → ExportTables
tables_of m = record {
  directory_start = m.start;
  directory_length = m.size;
  function_count = length m.rvas;
  name_count = length m.entries;
  functions = table_bytes 4 m.rvas;
  names = table_bytes 4 (map (λ e. e.name_rva) m.entries);
  ordinals = table_bytes 2 (map (λ e. e.ordinal) m.entries);
}

-- The headers whose fields are read.
nt_headers-fields :
    (read : Read) (base e : ℕ) (dos nt : List ℕ)
    → read base 64 ≡ some dos
    → number_at 2 dos 0 ≡ 0x5A4D
    → number_at 4 dos 60 ≡ e
    → e < 2 ^ 31
    → read ((base + e) % 2 ^ 64) 264 ≡ some nt
    → number_at 4 nt 0 ≡ 0x4550
    → nt_headers read base ≡ some nt
unfolding nt_headers
nt_headers-fields read base e dos nt has magic lfanew small headers signature =
    let low : ltb e (2 ^ 31) ≡ true = ground (arith, small) in
    rw (has, nt_headers, magic, lfanew, low, headers, signature) refl

not_null : (n : ℕ) → 0 < n → (n == 0) ≡ false
not_null n h = ground (arith, h)

export_directory-fields :
    (read : Read) (base start : ℕ) (nt directory : List ℕ)
    → number_at 4 nt 136 ≡ start
    → 0 < start
    → read ((base + start) % 2 ^ 64) 40 ≡ some directory
    → export_directory read base nt ≡ some directory
unfolding export_directory
export_directory-fields read base start nt directory at_start present has =
    rw (export_directory, at_start, not_null start present, has) refl

read_tables-fields :
    (read : Read) (base : ℕ) (m : Image) (nt directory : List ℕ)
    → IsMapped read base m
    → number_at 4 nt 136 ≡ m.start
    → number_at 4 nt 140 ≡ m.size
    → number_at 4 directory 20 ≡ length m.rvas
    → number_at 4 directory 24 ≡ length m.entries
    → number_at 4 directory 28 ≡ m.functions
    → number_at 4 directory 32 ≡ m.names
    → number_at 4 directory 36 ≡ m.ordinals
    → read_tables read base nt directory ≡ some (tables_of m)
unfolding read_tables
read_tables-fields read base m nt directory mapped start size count names f n o =
    rw
      (
        read_tables, f, count, mapped.function_table, n, names, mapped.name_table, o, names,
        mapped.ordinal_table, start, size, count, names,
      )
      refl

-- The address and the size of the export directory.
start_at :
    (front more : List ℕ) (start size : ℕ)
    → 132 ≡ length front
    → start < 2 ^ 32
    → number_at 4
        (le_bytes 4 0x4550 ++ (front ++ (le_bytes 4 start ++ (le_bytes 4 size ++ more))))
        136
      ≡ start
start_at front more start size long fits =
    number_at-skip 4 4 132 (le_bytes 4 0x4550)
      (front ++ (le_bytes 4 start ++ (le_bytes 4 size ++ more))) refl
    ∙ number_at-behind 4 132 start front (le_bytes 4 size ++ more) long fits

size_at :
    (front more : List ℕ) (start size : ℕ)
    → 132 ≡ length front
    → size < 2 ^ 32
    → number_at 4
        (le_bytes 4 0x4550 ++ (front ++ (le_bytes 4 start ++ (le_bytes 4 size ++ more))))
        140
      ≡ size
size_at front more start size long fits =
    number_at-skip 4 4 136 (le_bytes 4 0x4550)
      (front ++ (le_bytes 4 start ++ (le_bytes 4 size ++ more))) refl
    ∙ number_at-skip 4 132 4 front (le_bytes 4 start ++ (le_bytes 4 size ++ more)) long
    ∙ number_at-behind 4 4 size (le_bytes 4 start) more (sym (length-le_bytes 4 start)) fits

-- A word of the export directory.
word_at :
    (front words : List ℕ) (i v : ℕ)
    → 20 ≡ length front
    → All (λ v. v < 256 ^ 4) words
    → get_elem? words i ≡ some v
    → number_at 4 (front ++ table_bytes 4 words) (20 + i * 4) ≡ v
word_at front words i v long fit there =
    number_at-skip 4 20 (i * 4) front (table_bytes 4 words) long
    ∙ number_at-table_bytes 4 i words v fit there

export_tables-Image :
    (read : Read) (base : ℕ) (m : Image)
    → IsImage m
    → IsMapped read base m
    → export_tables read base ≡ some (tables_of m)
unfolding export_tables
export_tables-Image read base m ok mapped =
    let start_fits : m.start < 2 ^ 32 = omega (arith, ok.in_range) in
    let size_fits : m.size < 2 ^ 32 = omega (arith, ok.in_range) in
    let words : List ℕ =
      length m.rvas ∷ length m.entries ∷ m.functions ∷ m.names ∷ m.ordinals ∷ [] in
    let fit : All (λ v. v < 256 ^ 4) words = (
      ok.function_count,
      (ok.name_count, (ok.functions_fit, (ok.names_fit, (ok.ordinals_fit, tt)))),
    ) in
    rw
      (
        export_tables,
        nt_headers-fields read base m.e_lfanew (dos_bytes m) (nt_bytes m) mapped.dos
            (number_at-le_bytes 2 0x5A4D (m.dos_rest ++ (le_bytes 4 m.e_lfanew ++ []))
              (omega arith))
            (number_at-skip 4 2 58 (le_bytes 2 0x5A4D) (m.dos_rest ++ (le_bytes 4 m.e_lfanew ++ []))
                refl
              ∙ number_at-behind 4 58 m.e_lfanew m.dos_rest [] ok.dos_size
                  (omega (arith, ok.lfanew)))
            ok.lfanew mapped.nt
            (number_at-le_bytes 4 0x4550
              (m.nt_front ++ (le_bytes 4 m.start ++ (le_bytes 4 m.size ++ m.nt_rest)))
              (omega arith)),
        export_directory-fields read base m.start (nt_bytes m) (directory_bytes m)
            (start_at m.nt_front m.nt_rest m.start m.size ok.nt_size start_fits) ok.present
            mapped.directory,
      )
      (read_tables-fields read base m (nt_bytes m) (directory_bytes m) mapped
        (start_at m.nt_front m.nt_rest m.start m.size ok.nt_size start_fits)
        (size_at m.nt_front m.nt_rest m.start m.size ok.nt_size size_fits)
        (word_at m.directory_front words 0 _ ok.directory_size fit refl)
        (word_at m.directory_front words 1 _ ok.directory_size fit refl)
        (word_at m.directory_front words 2 _ ok.directory_size fit refl)
        (word_at m.directory_front words 3 _ ok.directory_size fit refl)
        (word_at m.directory_front words 4 _ ok.directory_size fit refl))

get_elem?-map :
    {A B : Type 0} (f : A → B) (xs : List A) (i : ℕ) {x : A}
    → get_elem? xs i ≡ some x
    → get_elem? (map f xs) i ≡ some (f x)
get_elem?-map f [] i h = cc
get_elem?-map f (y ∷ ys) zero h = let same : y ≡ _ = cc in ap (λ z. some (f z)) same
get_elem?-map f (y ∷ ys) (suc i) h = get_elem?-map f ys i h

tables_of-Holds : (m : Image) → IsImage m → Holds (tables_of m) m.start m.size m.rvas
tables_of-Holds m ok = record {
  starts = refl;
  sized = refl;
  in_range = ok.in_range;
  counted = refl;
  functions = λ i rva there. number_at-table_bytes 4 i m.rvas rva ok.rvas_fit there;
}

tables_of-Lists : (m : Image) → IsImage m → Lists (tables_of m) 0 m.entries
tables_of-Lists m ok i e there =
    let from_zero : 0 + i ≡ i = omega arith in
    (
      ap (λ k. number_at 4 (table_bytes 4 (map (λ e. e.name_rva) m.entries)) (k * 4)) from_zero
          ∙ number_at-table_bytes 4 i _ e.name_rva ok.name_rvas_fit
              (get_elem?-map (λ e. e.name_rva) m.entries i there),
      ap (λ k. number_at 2 (table_bytes 2 (map (λ e. e.ordinal) m.entries)) (k * 2)) from_zero
          ∙ number_at-table_bytes 2 i _ e.ordinal ok.numbers_fit
              (get_elem?-map (λ e. e.ordinal) m.entries i there),
    )

-- When an image with exports stands in the target's memory by the layout of the PE format, then
-- GetRemoteExport gives, for the first entry of its table of names whose text is the name that is looked
-- for, what the function table has at the entry's ordinal: the address of a function, or the text of a
-- forwarder if the offset lies in the export directory. It gives nothing when no text is the name, and
-- when the ordinal is beyond the table or the forwarder cannot be read. A text of which the read of 256
-- bytes fails is not the name.
pub get_remote_export-Resolves :
    {read : Read} {base : ℕ} {m : Image} (function_name : List ℕ)
    → IsImage m
    → IsMapped read base m
    → Resolves read base m.start m.size function_name m.rvas m.entries
        (get_remote_export read base function_name)
unfolding get_remote_export
get_remote_export-Resolves {read} {base} {m} function_name ok mapped =
    rw (export_tables-Image read base m ok mapped, get_remote_export)
      (find_export-Resolves read base m.start m.size function_name m.rvas (tables_of m)
        (tables_of-Holds m ok) 0 m.entries (tables_of-Lists m ok))
