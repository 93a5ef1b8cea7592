-- ===== src/Debug.antt =====
-- src/include/debug_session.h and src/apiscope/debug_session.cpp: the modules that the target has loaded
-- and the search for the address of an export in them. Strings are lists of their bytes, a pointer is
-- its value, and 0 is null.
pub mod Modules
pub mod Forwarders
pub mod Session
pub mod Installed
pub mod Hooked
pub mod Handlers
pub mod Loop
pub mod Cleanup
pub mod Rounds
use hook_nt.Prelude.{ℕ, zero, suc, ◌+◌, Bool, true, false, not, ◌||◌, Option, none, some}
use hook_nt.Prelude.{
  List, [], ◌∷◌, ◌++◌, length, take, drop, any, get_or, leb, ltb, ◌==◌, if◌then◌else◌, bytes_eq,
  codes,
}
use hook_nt.Registry.{normalize_module_name}

pub record ModuleRecord : Type 0 where
  pub base : ℕ
  pub path : List ℕ
  pub name : List ℕ
  pub generation : ℕ

-- What `GetRemoteExport` finds: an address, or 0 and the forwarder.
pub record RemoteExport : Type 0 where
  pub address : ℕ
  pub forwarder : List ℕ

-- `Resolved` with the address and the base of the module that has it.
pub data ResolveResult : Type 0 where
  resolved : ℕ → ℕ → ResolveResult
  pending : ResolveResult
  error : ResolveResult

-- The characters of a wide string, or the empty string if one is no ASCII.
abbrev pub narrow_ascii : List ℕ → List ℕ
narrow_ascii value = if any (λ character. ltb 0x7F character) value then [] else value

-- `modules_[base] = module`; the map is the list of its values, the least base first.
unfoldable pub put_module : List ModuleRecord → ModuleRecord → List ModuleRecord
put_module [] module_record = module_record ∷ []
put_module (entry ∷ modules) module_record =
    let rest = put_module modules module_record in
    if ltb module_record.base entry.base
    then module_record ∷ (entry ∷ modules)
    else if entry.base == module_record.base
    then module_record ∷ modules
    else entry ∷ rest

-- `modules_.erase(base)`.
unfoldable pub erase_module : List ModuleRecord → ℕ → List ModuleRecord
erase_module [] base = []
erase_module (entry ∷ modules) base =
    let rest = erase_module modules base in if entry.base == base then modules else entry ∷ rest

-- The test of `FindModule` for an entry, with the newest module so far.
abbrev pub is_newer : Option ModuleRecord → ModuleRecord → Bool
is_newer none entry = true
is_newer (some newest) entry = ltb newest.generation entry.generation

unfoldable pub newest_module :
    List ModuleRecord → List ℕ → Option ModuleRecord → Option ModuleRecord
newest_module [] name newest = newest
newest_module (entry ∷ modules) name newest =
    let rest = newest_module modules name in
    if bytes_eq entry.name name
    then (if is_newer newest entry then rest (some entry) else rest newest)
    else rest newest

abbrev pub find_module : List ModuleRecord → List ℕ → Option ModuleRecord
find_module modules name = newest_module modules name none

-- `find_last_of('.')`; `none` is `npos`.
unfoldable pub find_last_dot : List ℕ → Option ℕ
find_last_dot [] = none
find_last_dot (c ∷ cs) = elim (find_last_dot cs) [
  | some i ↦ some (suc i)
  | none ↦ if c == 46 then some 0 else none
]

-- The module and the export that a forwarder names; `none` is an unsupported one.
unfoldable pub split_forwarder : List ℕ → Option (List ℕ × List ℕ)
split_forwarder forwarder = elim (find_last_dot forwarder) [
  | none ↦ none
  | some separator ↦
      if separator == 0
        || leb (length forwarder) (separator + 1)
        || get_or forwarder (separator + 1) 0 == 35
      then none
      else some (take separator forwarder, drop (separator + 1) forwarder)
]

-- `normalizedModule`.
abbrev pub module_file : List ℕ → List ℕ
module_file module_name =
    let name = normalize_module_name module_name in
    if any (λ c. c == 46) name then name else name ++ codes ".dll"

abbrev pub identity : List ℕ → List ℕ → List ℕ
identity module_name export_name = module_file module_name ++ (33 ∷ export_name)

-- Where a round of `ResolveExportAddress` goes that finds no loop, from the normalized module on.
pub data Hop : Type 0 where
  ends : ResolveResult → Hop
  goes : List ℕ → List ℕ → Hop

module _ (modules : List ModuleRecord) (get_remote_export : ℕ → List ℕ → Option RemoteExport) where
  unfoldable pub hop : List ℕ → List ℕ → Hop
  hop file export_name = elim (find_module modules file) [
    | none ↦ ends pending
    | some found ↦ elim (get_remote_export found.base export_name) [
      | none ↦ ends error
      | some remote_export ↦
          if not (remote_export.address == 0)
          then ends (resolved remote_export.address found.base)
          else elim (split_forwarder remote_export.forwarder) [
            | none ↦ ends error
            | some target ↦ goes target.0 target.1
          ]
    ]
  ]

  -- The first argument is what the depth leaves of the eight rounds.
  unfoldable pub resolve_export_address : ℕ → List (List ℕ) → List ℕ → List ℕ → ResolveResult
  resolve_export_address zero visited module_name export_name = error
  resolve_export_address (suc rounds) visited module_name export_name =
      elim (any (bytes_eq (identity module_name export_name)) visited) [
        | true ↦ error
        | false ↦ elim (hop (module_file module_name) export_name) [
          | ends result ↦ result
          | goes next_module next_export ↦
              resolve_export_address rounds (identity module_name export_name ∷ visited) next_module
                next_export
        ]
      ]
