-- ===== src/Ring/Copies.antt =====
-- src/apiscope-hooks/trace_transport.cpp and src/apiscope/trace_session.cpp: what a slot holds of an
-- event that was copied into it.
use hook_nt.Prelude.{ℕ, ◌-◌, ◌≤◌, ◌≡◌, refl, arith, length, take}
use hook_nt.Prelude.{
  length-take, take-append_add, length-take_of_le, List, ◌++◌, drop, sym, ap, ◌∙◌,
}
use hook_nt.Memory.Laws.{custom_mem_cpy_lem, length-custom_mem_cpy}
use hook_nt.Protocol.{TraceEvent, payload_size, event_header_size, trace_max_event_bytes}
use hook_nt.Ring.{copy_event}

-- The bytes that the event's size counts are the same; the rest of the payload may be anything.
pub record IsCopy (event copy : TraceEvent) : Type 0 where
  pub header : copy.header ≡ event.header
  pub payload :
      take (event.header.size - event_header_size) copy.payload
      ≡ take (event.header.size - event_header_size) event.payload
  pub whole : length copy.payload ≡ payload_size

-- What the checks of `EmitTraceEvent` say about the sizes.
pub record IsSized (event : TraceEvent) : Type 0 where
  pub least : event_header_size ≤ event.header.size
  pub most : event.header.size ≤ trace_max_event_bytes
  pub whole : length event.payload ≡ payload_size

take_self : (n : ℕ) (xs ys : List ℕ) → n ≡ length xs → take n (xs ++ ys) ≡ xs
take_self n xs ys h = hook_nt.Prelude.take-append n xs ys h

pub copy_event-IsCopy :
    (slot event : TraceEvent)
    → IsSized event
    → length slot.payload ≡ payload_size
    → IsCopy event (copy_event slot event)
copy_event-IsCopy slot event sized room =
    let n = event.header.size - event_header_size in
    let fits : n ≤ length event.payload = omega (arith, sized.most, sized.whole) in
    let short : n ≤ length slot.payload = omega (arith, sized.most, room) in
    record {
      header = refl;
      payload =
          ap (take n) (custom_mem_cpy_lem n slot.payload event.payload short fits)
          ∙ take_self n (take n event.payload) (drop n slot.payload)
              (sym (length-take_of_le n event.payload fits));
      whole = length-custom_mem_cpy n slot.payload event.payload ∙ room;
    }
