-- ===== src/Event/Preview.antt =====
-- `CaptureTraceBuffer` (trace_transport.cpp, lines 221 to 249): the preview has the shape that the
-- renderer asks of a field of bytes, whatever the memory reader answers.
use hook_nt.Prelude.{ℕ, ◌+◌, ◌^◌, ◌≤◌, ◌<◌, true, ◌≡◌}
use hook_nt.Prelude.{none, some, List, ◌++◌, length, take, arith, min}
use hook_nt.Prelude.{length-append, length-take_of_le, replicate, take-append_add}
use hook_nt.Memory.Laws.{length-custom_mem_cpy}
use hook_nt.Protocol.{bytes_header_bytes, read_bytes_header, TraceBytesHeader, TraceBytesValue}
use hook_nt.Protocol.Layout.{is_value}
use hook_nt.Event.{ReadMemory, capture_trace_buffer}

-- CaptureTraceBuffer keeps at most 64 bytes and no more than were asked for, reports the size that
-- was asked for, and fills a buffer of 64 bytes, whatever the memory reader answers.
pub capture_trace_buffer_bounds :
    (reader : ReadMemory) (buffer size : ℕ)
    → ((capture_trace_buffer reader buffer size).header.captured ≤ min size 64)
      × ((capture_trace_buffer reader buffer size).header.requested ≡ size)
      × (length (capture_trace_buffer reader buffer size).bytes ≡ 64)
unfolding capture_trace_buffer
capture_trace_buffer_bounds none buffer size = ground arith
capture_trace_buffer_bounds (some read_memory) buffer size = ground (
  arith,
  length-custom_mem_cpy (length (read_memory buffer 64).bytes) (replicate 64 0)
      (read_memory buffer 64).bytes,
  length-custom_mem_cpy (length (read_memory buffer size).bytes) (replicate 64 0)
      (read_memory buffer size).bytes,
)

read_bytes_header-append :
    (h : TraceBytesHeader) (more : List ℕ)
    → h.requested < 2 ^ 32
    → h.captured < 2 ^ 32
    → ((read_bytes_header (bytes_header_bytes h ++ more)).requested ≡ h.requested)
      × ((read_bytes_header (bytes_header_bytes h ++ more)).captured ≡ h.captured)
read_bytes_header-append h more hr hc = (omega arith, omega arith)

module _ (reader : ReadMemory) (buffer size : ℕ) where
  abbrev preview : TraceBytesValue
  preview = capture_trace_buffer reader buffer size

  abbrev captured : ℕ
  captured = preview.header.captured

  -- The bytes of the struct from its start.
  abbrev pub preview_bytes : List ℕ
  preview_bytes = bytes_header_bytes preview.header ++ preview.bytes

  pub length-preview_bytes : length preview_bytes ≡ 76
  length-preview_bytes = omega (
    arith,
    length-append (bytes_header_bytes preview.header) preview.bytes,
    capture_trace_buffer_bounds reader buffer size,
  )

  -- The field's value: the header, and then what was captured.
  pub take-preview_bytes :
      take (12 + captured) preview_bytes
      ≡ bytes_header_bytes preview.header ++ take captured preview.bytes
  take-preview_bytes =
      take-append_add (12 + captured) captured (bytes_header_bytes preview.header) preview.bytes
        (omega arith)

  -- The preview that CaptureTraceBuffer makes passes the contract for a field of bytes, whatever the
  -- memory reader answers. The size is a 32-bit number.
  pub preview-is_value : size < 2 ^ 32 → is_value 5 (take (12 + captured) preview_bytes) ≡ true
  unfolding is_value
  preview-is_value h = rw take-preview_bytes (
      ground (
        arith,
        read_bytes_header-append preview.header (take captured preview.bytes),
        capture_trace_buffer_bounds reader buffer size,
        length-append (bytes_header_bytes preview.header) (take captured preview.bytes),
        length-take_of_le captured preview.bytes,
      ))
