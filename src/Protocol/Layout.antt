-- ===== src/Protocol/Layout.antt =====
-- What a well-formed event holds: the names, and the fields in order, one behind the other in the
-- payload. This is the contract between the hook DLL and the controller.
use hook_nt.Prelude.{ℕ, ◌+◌, ◌^◌, ◌≤◌, ◌<◌, Bool, true, false, not, ◌&&◌, ◌||◌}
use hook_nt.Prelude.{◌≡◌, refl, ap, List, [], ◌∷◌, ◌++◌, length, all, any, arith}
use hook_nt.Prelude.{
  leb, ◌==◌, bytes_eq, bytes_eq_sym, any-append, length-append, append_assoc, if◌then◌else◌, All,
}
use hook_nt.Prelude.Words.{from_le_bytes}
use hook_nt.Protocol.{
  TraceEvent, TraceFieldHeader, field_header_bytes, read_field_header, read_bytes_header,
  trace_event_magic, trace_event_version, trace_max_event_bytes, event_header_size, payload_size,
  trace_max_buffer_bytes, bytes_header_size,
}

pub record Field : Type 0 where
  pub type : ℕ
  pub name : List ℕ
  pub value : List ℕ

abbrev pub field_header : Field → TraceFieldHeader
field_header f = record { type = f.type; name_length = length f.name; value_size = length f.value }

abbrev pub encode_field : Field → List ℕ
encode_field f = field_header_bytes (field_header f) ++ (f.name ++ f.value)

abbrev pub encode_fields : List Field → List ℕ
encode_fields [] = []
encode_fields (f ∷ fs) = encode_field f ++ encode_fields fs

-- A lower-case letter, then at most 62 lower-case letters, digits and underscores.
abbrev pub is_field_name : List ℕ → Bool
is_field_name [] = false
is_field_name (c ∷ cs) =
    leb b'a' c
    && leb c b'z'
    && leb (length cs) 62
    && all (λ d. (leb b'a' d && leb d b'z') || (leb b'0' d && leb d b'9') || d == b'_') cs

-- 1 to 63 letters, digits and underscores; in a module's name also dots and dashes.
abbrev pub is_identifier : Bool → List ℕ → Bool
is_identifier module_name cs =
    leb 1 (length cs)
    && leb (length cs) 63
    && all
        (λ d.
          (leb b'a' d && leb d b'z')
          || (leb b'A' d && leb d b'Z')
          || (leb b'0' d && leb d b'9')
          || d == b'_'
          || (module_name && (d == b'.' || d == b'-')))
        cs

-- Which values a type code allows: 8 bytes, 4 bytes, one byte 0 or 1, a captured buffer, or, for a
-- code that has no meaning, anything.
unfoldable pub is_value : ℕ → List ℕ → Bool
is_value type value =
    if type == 1 || type == 3 || type == 7
    then length value == 8
    else if type == 2 || type == 4 || type == 6
    then length value == 4
    else if type == 8
    then length value == 1 && leb (from_le_bytes 1 value) 1
    else if type == 5
    then leb 12 (length value)
      && leb (read_bytes_header value).captured trace_max_buffer_bytes
      && leb (read_bytes_header value).captured (read_bytes_header value).requested
      && length value == bytes_header_size + (read_bytes_header value).captured
    else true

pub record IsField (f : Field) : Type 0 where
  pub named : is_field_name f.name ≡ true
  pub valued : is_value f.type f.value ≡ true
  pub fits : length f.value < 2 ^ 16

abbrev pub has_name : List ℕ → Field → Bool
has_name name f = bytes_eq f.name name

-- No two fields have one name: each differs from those behind it.
abbrev pub distinct_names : List Field → Bool
distinct_names [] = true
distinct_names (f ∷ fs) = not (any (has_name f.name) fs) && distinct_names fs

-- The event says that it comes from `api` in `module_name` and holds `fields`; `unused` is what stands
-- in the payload behind them.
pub record IsEvent (event : TraceEvent) (module_name api : List ℕ) (fields : List Field)
    : Type 0 where
  pub magic : event.header.magic ≡ trace_event_magic
  pub version : event.header.version ≡ trace_event_version
  pub module_length : event.header.module_name_length ≡ length module_name
  pub api_length : event.header.api_name_length ≡ length api
  pub count : event.header.field_count ≡ length fields
  pub size :
      event.header.size
      ≡ event_header_size + (length module_name + length api) + length (encode_fields fields)
  pub fits : event.header.size ≤ trace_max_event_bytes
  pub whole : length event.payload ≡ payload_size
  pub unused : List ℕ
  pub layout : event.payload ≡ module_name ++ (api ++ (encode_fields fields ++ unused))
  pub module_named : is_identifier true module_name ≡ true
  pub api_named : is_identifier false api ≡ true
  pub fields_ok : All IsField fields
  pub distinct : distinct_names fields ≡ true

pub length-encode_field : (f : Field) → length (encode_field f) ≡ 4 + length f.name + length f.value
length-encode_field f = omega (arith, length-append f.name f.value)

pub encode_fields-append :
    (fs gs : List Field) → encode_fields (fs ++ gs) ≡ encode_fields fs ++ encode_fields gs
encode_fields-append [] gs = refl
encode_fields-append (f ∷ fs) gs = simp (encode_fields-append fs gs, append_assoc)

-- A field takes at least five bytes, so the count of the fields stays small.
pub length-fields-le : (fs : List Field) → All IsField fs → length fs ≤ length (encode_fields fs)
length-fields-le [] h = omega arith
length-fields-le (f ∷ fs) (h, hs) = omega (
  arith,
  length-fields-le fs hs,
  length-append (encode_field f) (encode_fields fs),
  length-encode_field f,
)

-- Reading a field's header gives back the header, whatever follows it.
pub read_field_header-encode :
    (f : Field) (more : List ℕ)
    → length f.value < 2 ^ 16
    → read_field_header (field_header_bytes (field_header f) ++ more) ≡ field_header f
read_field_header-encode f more h =
    ap (λ v. record { type = f.type; name_length = length f.name; value_size = v }) (omega arith)

pub is_field_name-length :
    (name : List ℕ) → is_field_name name ≡ true → (1 ≤ length name) × (length name ≤ 63)
is_field_name-length [] h = cc
is_field_name-length (c ∷ cs) h = ground arith

-- A field with a new name may stand behind the others.
pub distinct_names-append :
    (fs : List Field) (f : Field)
    → distinct_names fs ≡ true
    → any (has_name f.name) fs ≡ false
    → distinct_names (fs ++ (f ∷ [])) ≡ true
distinct_names-append [] f h k = refl
distinct_names-append (g ∷ fs) f h k = ground (
  arith,
  distinct_names-append fs f,
  any-append (has_name g.name) fs (f ∷ []),
  bytes_eq_sym g.name f.name,
)

-- A field's bytes, part by part, in front of others.
pub encode_field-append :
    (f : Field) (behind : List ℕ)
    → encode_field f ++ behind
      ≡ field_header_bytes (field_header f) ++ (f.name ++ (f.value ++ behind))
encode_field-append f behind =
    ap (λ r. field_header_bytes (field_header f) ++ r) (append_assoc f.name f.value behind)
