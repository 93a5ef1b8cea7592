-- ===== src/Renderer/Exact.antt =====
-- What `ParseTraceEvent` accepts is well formed: nothing but the contract gets through.
use hook_nt.Prelude.{ℕ, ◌+◌, ◌-◌, ◌≤◌, Bool, true, false, not, ◌≡◌, refl, ap, sym, ◌∙◌, subst}
use hook_nt.Prelude.{Option, none, some, List, [], ◌++◌, length, take, drop, arith, map}
use hook_nt.Prelude.{if◌then◌else◌, All, IsByte}
use hook_nt.Prelude.{take-append-drop, length-take_of_le, length-drop, All-drop}
use hook_nt.Protocol.{
  payload_size, TraceEvent, trace_event_magic, trace_event_version, event_header_size,
  trace_max_event_bytes,
}
use hook_nt.Protocol.Layout.{Field, is_identifier, IsEvent}
use hook_nt.Renderer.{
  TraceFieldView, ParsedEvent, is_valid_identifier, parse_fields, is_valid_header,
  parse_trace_event,
}
use hook_nt.Renderer.Accept.{view, is_valid_identifier_lem}
use hook_nt.Renderer.Sound.{ReadAll, read_all}

identifiers :
    (n : ℕ) (bytes : List ℕ) (module_name : Bool)
    → n ≤ length bytes
    → is_valid_identifier bytes n module_name ≡ is_identifier module_name (take n bytes)
identifiers n bytes module_name h =
    ap (λ b. is_valid_identifier b n module_name) (sym (take-append-drop n bytes))
    ∙ ap (λ k. is_valid_identifier (take n bytes ++ drop n bytes) k module_name)
        (sym (length-take_of_le n bytes h))
    ∙ is_valid_identifier_lem (take n bytes) (drop n bytes) module_name

ladder {ℓ κ} :
    {A : Type ℓ} {B : Type κ} (b₁ b₂ b₃ : Bool) (r : Option A) (f : A → B) {out : B}
    → (if not b₁
        then none
        else if not b₂
        then none
        else if not b₃
        then none
        else elim r [ none ↦ none | some x ↦ some (f x) ])
      ≡ some out
    → (b₁ ≡ true) × (b₂ ≡ true) × (b₃ ≡ true) × ((x : A) × (r ≡ some x) × (f x ≡ out))
ladder b₁ b₂ b₃ none f h = ground arith
ladder b₁ b₂ b₃ (some x) f h = (ground arith, ground arith, ground arith, (x, refl, ground arith))

header_facts :
    (event : TraceEvent) (n : ℕ)
    → is_valid_header event n ≡ true
    → (event.header.magic ≡ trace_event_magic)
      × (event.header.version ≡ trace_event_version)
      × (event.header.size ≡ n)
      × (event.header.size ≤ trace_max_event_bytes)
      × (event_header_size + event.header.module_name_length + event.header.api_name_length
          ≤ event.header.size)
unfolding is_valid_header
header_facts event n h = ground arith

module _ (event : TraceEvent) (bytes_received : ℕ) {parsed : ParsedEvent}
    (e : parse_trace_event event bytes_received ≡ some parsed) where
  abbrev m : ℕ
  m = event.header.module_name_length

  abbrev a : ℕ
  a = event.header.api_name_length

  abbrev at_api : List ℕ
  at_api = drop m event.payload

  abbrev at_fields : List ℕ
  at_fields = drop a at_api

  abbrev remaining : ℕ
  remaining = event.header.size - (event_header_size + m + a)

  abbrev result : List TraceFieldView → ParsedEvent
  result fields = record {
    module_name = take m event.payload;
    api_name = take a at_api;
    fields = fields;
  }

  abbrev Accepted : Type 0
  Accepted =
      (is_valid_header event bytes_received ≡ true)
      × (is_valid_identifier event.payload m true ≡ true)
      × (is_valid_identifier at_api a false ≡ true)
      × ((x : List TraceFieldView) × (parse_fields event.header.field_count remaining at_fields []
            ≡ some x)
          × (result x ≡ parsed))

  passed : Accepted
  unfolding parse_trace_event
  passed =
      ladder (is_valid_header event bytes_received) (is_valid_identifier event.payload m true)
        (is_valid_identifier at_api a false)
        (parse_fields event.header.field_count remaining at_fields []) result e

  module _ (whole : length event.payload ≡ payload_size) (bytes : All IsByte event.payload) where
    facts :
        (event.header.magic ≡ trace_event_magic)
        × (event.header.version ≡ trace_event_version)
        × (event.header.size ≡ bytes_received)
        × (event.header.size ≤ trace_max_event_bytes)
        × (event_header_size + m + a ≤ event.header.size)
    facts = header_facts event bytes_received passed.0

    length-at_fields : length at_fields + (m + a) ≡ payload_size
    length-at_fields =
        omega (arith, whole, facts, length-drop m event.payload, length-drop a at_api)

    all : ReadAll event.header.field_count remaining at_fields [] passed.3.0
    all =
        read_all event.header.field_count remaining at_fields []
          (All-drop IsByte a at_api (All-drop IsByte m event.payload bytes))
          (omega (arith, length-at_fields, facts)) refl passed.3.1

    module_length : length (take m event.payload) ≡ m
    module_length = length-take_of_le m event.payload (omega (arith, whole, facts))

    api_length : length (take a at_api) ≡ a
    api_length =
        length-take_of_le a at_api (omega (arith, whole, facts, length-drop m event.payload))

    found : IsEvent event (take m event.payload) (take a at_api) all.fields
    found = record {
      magic = facts.0;
      version = facts.1;
      module_length = sym module_length;
      api_length = sym api_length;
      count = sym all.counted;
      size = omega (arith, all.moved, facts, module_length, api_length);
      fits = facts.3;
      whole = whole;
      unused = all.unused;
      layout =
          sym (take-append-drop m event.payload)
          ∙ ap (λ r. take m event.payload ++ r)
              (sym (take-append-drop a at_api) ∙ ap (λ r. take a at_api ++ r) all.bytes);
      module_named =
          sym (identifiers m event.payload true (omega (arith, whole, facts))) ∙ passed.1;
      api_named =
          sym
            (identifiers a at_api false (omega (arith, whole, facts, length-drop m event.payload)))
          ∙ passed.2;
      fields_ok = all.ok;
      distinct = all.distinct;
    }

-- What `ParseTraceEvent` accepts, at whatever size, is a well-formed event of that size, and the
-- results are what the event holds. The payload is 992 bytes.
pub parse_trace_event_sound :
    (event : TraceEvent) (bytes_received : ℕ) {parsed : ParsedEvent}
    → length event.payload ≡ payload_size
    → All IsByte event.payload
    → parse_trace_event event bytes_received ≡ some parsed
    → (fs : List Field) × IsEvent event parsed.module_name parsed.api_name fs
      × (parsed.fields ≡ map view fs)
      × (event.header.size ≡ bytes_received)
parse_trace_event_sound event bytes_received {parsed} whole bytes e =
    let x = found event bytes_received e whole bytes in
    (
      (all event bytes_received e whole bytes).fields,
      subst
          (λ p.
            IsEvent event p.module_name p.api_name (all event bytes_received e whole bytes).fields)
          (passed event bytes_received e).3.2 x,
      ap (λ p. p.fields) (sym ((passed event bytes_received e).3.2))
          ∙ (all event bytes_received e whole bytes).views,
      (facts event bytes_received e whole bytes).2,
    )
