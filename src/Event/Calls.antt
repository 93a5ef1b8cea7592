-- ===== src/Event/Calls.antt =====
-- A hook's sequence of AddTrace calls (trace_transport.cpp, lines 191 to 256) as an abstract builder:
-- a list of fields that takes each new field which still fits.
use hook_nt.Prelude.{ℕ, ◌+◌, ◌%◌, ◌^◌, ◌≤◌, ◌<◌, Bool, true, ◌&&◌, ◌≡◌, refl, ap, ◌∙◌, Option, some}
use hook_nt.Prelude.{
  List, [], ◌∷◌, ◌++◌, length, take, arith, leb, if◌then◌else◌, map, All, subst, min,
}
use hook_nt.Prelude.Words.{le_bytes}
use hook_nt.Memory.{c_str}
use hook_nt.Protocol.{FieldType, type_code, TraceEvent}
use hook_nt.Protocol.{pointer, uint32, uint64, status, bytes, int32, int64, boolean}
use hook_nt.Protocol.Layout.{Field, encode_field, encode_fields, is_value, IsEvent}
use hook_nt.Transport.{append_trace_field}
use hook_nt.Transport.Fields.{is_new_name, accepts, Appended, append_to_event_lem}
use hook_nt.Event.{
  ReadMemory, capture_trace_buffer, add_trace_pointer, add_trace_uint32, add_trace_uint64,
  add_trace_int32, add_trace_int64, add_trace_boolean, add_trace_status, add_trace_buffer_preview,
}
use hook_nt.Event.Preview.{
  preview_bytes, length-preview_bytes, preview-is_value, capture_trace_buffer_bounds,
}

-- One call, with the C string of the field's name and the value.
pub data FieldCall : Type 0 where
  add_pointer add_uint32 add_uint64 add_int32 add_int64 add_status : List ℕ → ℕ → FieldCall
  add_boolean : List ℕ → Bool → FieldCall
  add_buffer : List ℕ → ℕ → ℕ → FieldCall

module _ (reader : ReadMemory) where
  unfoldable pub perform : Option TraceEvent → FieldCall → Option TraceEvent
  perform event (add_pointer name value) = (add_trace_pointer event (some name) value).0
  perform event (add_uint32 name value) = (add_trace_uint32 event (some name) value).0
  perform event (add_uint64 name value) = (add_trace_uint64 event (some name) value).0
  perform event (add_int32 name value) = (add_trace_int32 event (some name) value).0
  perform event (add_int64 name value) = (add_trace_int64 event (some name) value).0
  perform event (add_status name value) = (add_trace_status event (some name) value).0
  perform event (add_boolean name value) = (add_trace_boolean event (some name) value).0
  perform event (add_buffer name buffer size) =
      (add_trace_buffer_preview reader event (some name) buffer size).0

  unfoldable pub perform_all : Option TraceEvent → List FieldCall → Option TraceEvent
  perform_all event [] = event
  perform_all event (c ∷ calls) = perform_all (perform event c) calls

  abbrev pub word_field : FieldType → ℕ → List ℕ → ℕ → Field
  word_field type width name value = record {
    type = type_code type;
    name = c_str name;
    value = le_bytes width value;
  }

  -- The field that a call is about.
  abbrev pub call_field : FieldCall → Field
  call_field (add_pointer name value) = word_field pointer 8 name value
  call_field (add_uint32 name value) = word_field uint32 4 name value
  call_field (add_uint64 name value) = word_field uint64 8 name value
  call_field (add_int32 name value) = word_field int32 4 name value
  call_field (add_int64 name value) = word_field int64 8 name value
  call_field (add_status name value) = word_field status 4 name value
  call_field (add_boolean name value) = record {
    type = type_code boolean;
    name = c_str name;
    value = (if value then 1 else 0) ∷ [];
  }
  call_field (add_buffer name buffer size) = record {
    type = type_code bytes;
    name = c_str name;
    value =
        take (12 + (capture_trace_buffer reader buffer size).header.captured)
          (preview_bytes reader buffer size);
  }

-- The length of a buffer is a 32-bit number.
abbrev pub IsCall : FieldCall → Type 0
IsCall (add_buffer name buffer size) = size < 2 ^ 32
IsCall _ = Unit

module _ (module_name api : List ℕ) where
  -- The abstract builder.
  abbrev pub takes : List Field → Field → Bool
  takes fs f =
      is_new_name fs f.name
      && leb
          (32
            + (length module_name + length api)
            + length (encode_fields fs)
            + length (encode_field f))
          1024

  abbrev pub add_field : List Field → Field → List Field
  add_field fs f = if takes fs f then fs ++ (f ∷ []) else fs

  abbrev pub add_fields : List Field → List Field → List Field
  add_fields fs [] = fs
  add_fields fs (f ∷ more) = add_fields (add_field fs f) more

  abbrev pub takes_all : List Field → List Field → Bool
  takes_all fs [] = true
  takes_all fs (f ∷ more) = takes fs f && takes_all (add_field fs f) more

-- `after` is what `before` has become by calls that leave it with the fields `fs`.
pub record Built (before : TraceEvent) (module_name api : List ℕ) (fs : List Field) (taken : Bool)
    (after : TraceEvent) : Type 0 where
  pub event : IsEvent after module_name api fs
  pub stamps :
      (after.header.thread_id ≡ before.header.thread_id)
      × (after.header.timestamp_100ns ≡ before.header.timestamp_100ns)
  pub unflagged : after.header.flags ≡ (if taken then before.header.flags else after.header.flags)

module _ (reader : ReadMemory) {before : TraceEvent} {m a : List ℕ} {fs : List Field}
    (e : IsEvent before m a fs) where
  Built-Appended :
      (f : Field) (r : TraceEvent × Bool)
      → Appended before m a fs f r
      → Built before m a (add_field m a fs f) (takes m a fs f) r.0
  Built-Appended f r p = record {
    event = subst (λ t. IsEvent r.0 m a (if t then fs ++ (f ∷ []) else fs)) same p.holds;
    stamps = p.stamps;
    unflagged =
        subst (λ t. r.0.header.flags ≡ (if t then before.header.flags else r.0.header.flags)) same
          p.unflagged;
  }
    where
      same : accepts before fs f ≡ takes m a fs f
      same = ap (λ s. is_new_name fs f.name && leb (s + length (encode_field f)) 1024) e.size

  built :
      (type : FieldType) (name value : List ℕ) (size : ℕ)
      → size ≤ length value
      → size < 2 ^ 16
      → is_value (type_code type) (take size value) ≡ true
      → (after : TraceEvent) × ((append_trace_field
            (some before)
            type
            (some name)
            (some value)
            size).0
          ≡ some after)
        × Built before m a
            (add_field m a fs
              (record { type = type_code type; name = c_str name; value = take size value }))
            (takes m a fs
              (record { type = type_code type; name = c_str name; value = take size value }))
            after
  unfolding append_trace_field
  built type name value size h k ok =
      (_, refl, Built-Appended _ _ (append_to_event_lem e type name value size h k ok))

  -- One call is one addition to the list of fields.
  pub perform-Built :
      (c : FieldCall)
      → IsCall c
      → (after : TraceEvent) × (perform reader (some before) c ≡ some after)
        × Built before m a
            (add_field m a fs (call_field reader c))
            (takes m a fs (call_field reader c))
            after
  unfolding perform add_trace_pointer add_trace_uint32 add_trace_uint64 add_trace_int32
      add_trace_int64 add_trace_status add_trace_boolean add_trace_buffer_preview is_value
      append_trace_field capture_trace_buffer
  perform-Built (add_pointer name value) h =
      built pointer name (le_bytes 8 value) 8 (omega arith) (omega arith) refl
  perform-Built (add_uint32 name value) h =
      built uint32 name (le_bytes 4 value) 4 (omega arith) (omega arith) refl
  perform-Built (add_uint64 name value) h =
      built uint64 name (le_bytes 8 value) 8 (omega arith) (omega arith) refl
  perform-Built (add_int32 name value) h =
      built int32 name (le_bytes 4 value) 4 (omega arith) (omega arith) refl
  perform-Built (add_int64 name value) h =
      built int64 name (le_bytes 8 value) 8 (omega arith) (omega arith) refl
  perform-Built (add_status name value) h =
      built status name (le_bytes 4 value) 4 (omega arith) (omega arith) refl
  perform-Built (add_boolean name value) h =
      built boolean name ((if value then 1 else 0) ∷ []) 1 (omega arith) (omega arith)
        (ground arith)
  perform-Built (add_buffer name buffer size) h = rw small (
      built bytes name (preview_bytes reader buffer size)
        (12 + (capture_trace_buffer reader buffer size).header.captured)
        (omega (arith, length-preview_bytes reader buffer size, bounds)) (omega (arith, bounds))
        (preview-is_value reader buffer size h))
    where
      bounds : (capture_trace_buffer reader buffer size).header.captured ≤ min size 64
      bounds = (capture_trace_buffer_bounds reader buffer size).0

      small :
          (12 + (capture_trace_buffer reader buffer size).header.captured) % 2 ^ 16
          ≡ 12 + (capture_trace_buffer reader buffer size).header.captured
      small = omega (arith, bounds)

-- A sequence of AddTrace calls on a well-formed event never breaks it: the event ends up with the
-- fields that the abstract builder collects, the thread and the time stay, and no flag is set if the
-- builder takes every field. The lengths of buffers are 32-bit numbers.
pub perform_all-Built :
    (reader : ReadMemory) (calls : List FieldCall) {before : TraceEvent} {m a : List ℕ}
    {fs : List Field}
    → IsEvent before m a fs
    → All IsCall calls
    → (after : TraceEvent) × (perform_all reader (some before) calls ≡ some after)
      × Built before m a
          (add_fields m a fs (map (call_field reader) calls))
          (takes_all m a fs (map (call_field reader) calls))
          after
unfolding perform_all
perform_all-Built reader [] {before} e h =
    (before, refl, record { event = e; stamps = (refl, refl); unflagged = refl })
perform_all-Built reader (c ∷ calls) e (h, hs) =
    let (mid, first, b) = perform-Built reader e c h in
    let (after, later, b') = perform_all-Built reader calls b.event hs in
    (
      after,
      ap (λ o. perform_all reader o calls) first ∙ later,
      record {
        event = b'.event;
        stamps = (b'.stamps.0 ∙ b.stamps.0, b'.stamps.1 ∙ b.stamps.1);
        unflagged = ground (arith, b.unflagged, b'.unflagged);
      },
    )
