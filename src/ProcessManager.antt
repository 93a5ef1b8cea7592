-- ===== src/ProcessManager.antt =====
-- src/apiscope/process_manager.cpp: the export table of a module that is loaded in the target. The layout
-- of the image's headers is that of the PE format. `read` is a read of the target's memory, which fails
-- or gives all bytes; a pointer is its value, and a difference or a sum of pointers wraps at 2^64.
pub mod Encoding
pub mod Exports
pub mod Images
use hook_nt.Prelude.{
  ℕ, zero, suc, ◌+◌, ◌-◌, ◌*◌, ◌%◌, ◌^◌, Bool, true, false, not, ◌&&◌, Option, none, some,
}
use hook_nt.Prelude.{List, [], take, drop, leb, ltb, ◌==◌, if◌then◌else◌}
use hook_nt.Prelude.Words.{from_le_bytes}
use hook_nt.Memory.{custom_str_cmp, c_str}
use hook_nt.Transport.{is_zero}
use hook_nt.Debug.{RemoteExport}

abbrev pub Read : Type 0
Read = ℕ → ℕ → Option (List ℕ)

abbrev pub dos_header_size : ℕ
dos_header_size = 64

abbrev pub nt_headers_size : ℕ
nt_headers_size = 264

abbrev pub export_directory_size : ℕ
export_directory_size = 40

-- The number of `width` bytes at an offset of a structure.
abbrev pub number_at : ℕ → List ℕ → ℕ → ℕ
number_at width bytes offset = from_le_bytes width (take width (drop offset bytes))

-- `dllBase + e_lfanew`, where the offset is a LONG.
abbrev pub nt_headers_address : ℕ → ℕ → ℕ
nt_headers_address base e_lfanew =
    if ltb e_lfanew (2 ^ 31)
    then (base + e_lfanew) % 2 ^ 64
    else (base + (2 ^ 64 - 2 ^ 32) + e_lfanew) % 2 ^ 64

-- The NT headers of an image whose two signatures are right.
unfoldable pub nt_headers : Read → ℕ → Option (List ℕ)
nt_headers read base = elim (read base dos_header_size) [
  | none ↦ none
  | some dos ↦
      if not (number_at 2 dos 0 == 0x5A4D)
      then none
      else elim (read (nt_headers_address base (number_at 4 dos 60)) nt_headers_size) [
        | none ↦ none
        | some nt ↦ if number_at 4 nt 0 == 0x4550 then some nt else none
      ]
]

-- The address and the size of the export directory.
abbrev pub directory_address : List ℕ → ℕ
directory_address nt = number_at 4 nt 136

abbrev pub directory_size : List ℕ → ℕ
directory_size nt = number_at 4 nt 140

unfoldable pub export_directory : Read → ℕ → List ℕ → Option (List ℕ)
export_directory read base nt =
    if directory_address nt == 0
    then none
    else read ((base + directory_address nt) % 2 ^ 64) export_directory_size

-- The three tables, with what the headers say about them.
pub record ExportTables : Type 0 where
  pub directory_start : ℕ
  pub directory_length : ℕ
  pub function_count : ℕ
  pub name_count : ℕ
  pub functions : List ℕ
  pub names : List ℕ
  pub ordinals : List ℕ

-- The tables that `GetRemoteExport` reads before its loop.
unfoldable pub read_tables : Read → ℕ → List ℕ → List ℕ → Option ExportTables
read_tables read base nt directory =
    let function_count = number_at 4 directory 20 in
    let name_count = number_at 4 directory 24 in
    let table = λ (offset : ℕ). (base + number_at 4 directory offset) % 2 ^ 64 in
    elim (read (table 28) (function_count * 4)) [
      | none ↦ none
      | some functions ↦ elim (read (table 32) (name_count * 4)) [
        | none ↦ none
        | some names ↦ elim (read (table 36) (name_count * 2)) [
          | none ↦ none
          | some ordinals ↦ some (record {
            directory_start = directory_address nt;
            directory_length = directory_size nt;
            function_count = function_count;
            name_count = name_count;
            functions = functions;
            names = names;
            ordinals = ordinals;
          })
        ]
      ]
    ]

unfoldable pub export_tables : Read → ℕ → Option ExportTables
export_tables read base = elim (nt_headers read base) [
  | none ↦ none
  | some nt ↦ elim (export_directory read base nt) [
    | none ↦ none
    | some directory ↦ read_tables read base nt directory
  ]
]

-- A buffer of 256 bytes as a C string, with its last byte cleared.
abbrev pub short_string : List ℕ → List ℕ
short_string buffer = c_str (take 255 buffer)

module _ (read : Read) (base : ℕ) (tables : ExportTables) where
  -- The export behind the name at an index.
  unfoldable pub export_at : ℕ → Option RemoteExport
  export_at index =
      let ordinal = number_at 2 tables.ordinals (index * 2) in
      let rva = number_at 4 tables.functions (ordinal * 4) in
      let address = (base + rva) % 2 ^ 64 in
      if leb tables.function_count ordinal
      then none
      else if leb tables.directory_start rva
          && ltb rva ((tables.directory_start + tables.directory_length) % 2 ^ 32)
      then elim (read address 256) [
        | none ↦ none
        | some forwarder ↦ some (record { address = 0; forwarder = short_string forwarder })
      ]
      else some (record { address = address; forwarder = [] })

  -- Whether the name at an index can be read and is the one that is looked for.
  unfoldable pub is_named : List ℕ → ℕ → Bool
  is_named function_name index =
      elim (read ((base + number_at 4 tables.names (index * 4)) % 2 ^ 64) 256) [
        | none ↦ false
        | some buffer ↦ is_zero (custom_str_cmp (short_string buffer) function_name)
      ]

  -- The loop of `GetRemoteExport`, with the rounds that are left.
  unfoldable pub find_export : List ℕ → ℕ → ℕ → Option RemoteExport
  find_export function_name zero index = none
  find_export function_name (suc rounds) index =
      let rest = find_export function_name rounds (suc index) in
      if is_named function_name index then export_at index else rest

unfoldable pub get_remote_export : Read → ℕ → List ℕ → Option RemoteExport
get_remote_export read base function_name = elim (export_tables read base) [
  | none ↦ none
  | some tables ↦ find_export read base tables function_name tables.name_count 0
]

-- `GetRemoteModuleName`.
unfoldable pub get_remote_module_name : Read → ℕ → List ℕ
get_remote_module_name read base = elim (nt_headers read base) [
  | none ↦ []
  | some nt ↦ elim (export_directory read base nt) [
    | none ↦ []
    | some directory ↦
        if number_at 4 directory 12 == 0
        then []
        else elim (read ((base + number_at 4 directory 12) % 2 ^ 64) 256) [
          | none ↦ []
          | some buffer ↦ short_string buffer
        ]
  ]
]

-- `GetRemoteImageSize`.
unfoldable pub get_remote_image_size : Read → ℕ → ℕ
get_remote_image_size read base = elim (nt_headers read base) [
  | none ↦ 0
  | some nt ↦ number_at 4 nt 80
]
