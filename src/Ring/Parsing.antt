-- ===== src/Ring/Parsing.antt =====
-- src/apiscope-hooks/trace_transport.cpp, src/apiscope/trace_session.cpp and
-- src/apiscope/trace_renderer.cpp: from an event that is emitted to the view of what the reader takes.
use hook_nt.Prelude.{
  ℕ, ◌+◌, ◌-◌, ◌≡◌, arith, some, List, ◌++◌, length, take, drop, map, sym, ap, ◌∙◌,
}
use hook_nt.Prelude.{Bool, ◌<◌, ◌^◌, get_elem?}
use hook_nt.Prelude.{take-append, take-append-drop, length-append, append_assoc}
use hook_nt.Protocol.{TraceEvent, event_header_size}
use hook_nt.Protocol.Layout.{Field, IsEvent, encode_fields}
use hook_nt.Renderer.{parse_trace_event}
use hook_nt.Renderer.Accept.{view, parse_trace_event-IsEvent}
use hook_nt.Ring.{with_sequence}
use hook_nt.Ring.Copies.{IsCopy}
use hook_nt.Ring.System.{System, Reach}
use hook_nt.Ring.Order.{Reach-Inv}

-- The bytes of an event in front of what is unused.
used : List ℕ → List ℕ → List Field → List ℕ
used m a fs = m ++ (a ++ encode_fields fs)

length-used :
    (m a : List ℕ) (fs : List Field)
    → length (used m a fs) ≡ (length m + length a) + length (encode_fields fs)
unfolding used
length-used m a fs =
    omega (arith, length-append m (a ++ encode_fields fs), length-append a (encode_fields fs))

used-append :
    (m a : List ℕ) (fs : List Field) (rest : List ℕ)
    → used m a fs ++ rest ≡ m ++ (a ++ (encode_fields fs ++ rest))
unfolding used
used-append m a fs rest =
    append_assoc m (a ++ encode_fields fs) rest
    ∙ ap (λ xs. m ++ xs) (append_assoc a (encode_fields fs) rest)

pub IsCopy-IsEvent :
    {event out : TraceEvent} {m a : List ℕ} {fs : List Field} (n : ℕ)
    → IsEvent event m a fs
    → IsCopy (with_sequence event n) out
    → IsEvent out m a fs
IsCopy-IsEvent {event} {out} {m} {a} {fs} n e c =
    let size = event.header.size - event_header_size in
    let front : (take size out.payload ≡ used m a fs) =
      c.payload
      ∙ ap (take size) (e.layout ∙ sym (used-append m a fs e.unused))
      ∙ take-append size (used m a fs) e.unused (omega (arith, e.size, length-used m a fs)) in
    record {
      magic = ap (λ h. h.magic) c.header ∙ e.magic;
      version = ap (λ h. h.version) c.header ∙ e.version;
      module_length = ap (λ h. h.module_name_length) c.header ∙ e.module_length;
      api_length = ap (λ h. h.api_name_length) c.header ∙ e.api_length;
      count = ap (λ h. h.field_count) c.header ∙ e.count;
      size = ap (λ h. h.size) c.header ∙ e.size;
      fits = omega (arith, ap (λ h. h.size) c.header, e.fits);
      whole = c.whole;
      unused = drop size out.payload;
      layout =
          sym (take-append-drop size out.payload)
          ∙ ap (λ xs. xs ++ drop size out.payload) front
          ∙ used-append m a fs (drop size out.payload);
      module_named = e.module_named;
      api_named = e.api_named;
      fields_ok = e.fields_ok;
      distinct = e.distinct;
    }

-- Within 2^62 accesses of any number of producers and the reader: when the claim at a place is that of an
-- event of a module's API with some fields, under its number, the parser reads the module, the API and
-- these fields, in their order, from what the reader has taken out at this place, whatever an earlier
-- event has left in the slot.
pub Reach-parse_trace_event :
    {wakes may_fail : Bool} {k : ℕ} {s : System} (j n : ℕ) {event out : TraceEvent} {m a : List ℕ}
    {fs : List Field}
    → k < 2 ^ 62
    → Reach wakes may_fail k s
    → get_elem? s.shared.claims j ≡ some (with_sequence event n)
    → get_elem? s.shared.output j ≡ some out
    → IsEvent event m a fs
    → parse_trace_event out out.header.size
      ≡ some (record { module_name = m; api_name = a; fields = map view fs })
Reach-parse_trace_event j n {event} {out} early r claim taken e =
    let copy = (Reach-Inv early r).order j out taken (with_sequence event n) claim in
    parse_trace_event-IsEvent (IsCopy-IsEvent n e copy)
