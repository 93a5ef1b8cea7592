-- ===== src/Rendering.antt =====
-- src/apiscope/trace_renderer.cpp, lines 15 to 103 and 241 to 430: how the controller prints an event.
-- What a function puts into a stream is the list of its bytes. `FileTimeToSystemTime` is a parameter.
pub mod Escaping
pub mod Events
pub mod Numerals
use hook_nt.Prelude.{ℕ, zero, suc, ◌+◌, ◌-◌, ◌/◌, ◌%◌, ◌^◌, max, Bool, true, false, not, ◌&&◌, ◌||◌}
use hook_nt.Prelude.{Option, none, some, List, [], ◌∷◌, ◌++◌, ltb, leb, ◌==◌, if◌then◌else◌}
use hook_nt.Prelude.{length, replicate, map, take, drop, codes, get_or}
use hook_nt.Prelude.Words.{from_le_bytes}
use hook_nt.Protocol.{TraceBytesHeader, read_bytes_header, TraceEvent, bytes_header_size}
use hook_nt.Renderer.{TraceFieldView}

abbrev pub hex_digit : Bool → ℕ → ℕ
hex_digit upper d = if ltb d 10 then 48 + d else if upper then 55 + d else 87 + d

-- A number below 16^width with `std::hex`, `std::setw(width)` and `std::setfill('0')`.
unfoldable pub hex : Bool → ℕ → ℕ → List ℕ
hex upper zero v = []
hex upper (suc width) v = hex upper width (v / 16) ++ (hex_digit upper (v % 16) ∷ [])

-- A number in decimal digits, at most `fuel`; a number of 64 bits has 20 digits at most.
unfoldable pub digits : ℕ → ℕ → List ℕ
digits zero v = []
digits (suc fuel) v =
    let rest = digits fuel (v / 10) in
    if ltb v 10 then (48 + v) ∷ [] else rest ++ ((48 + v % 10) ∷ [])

abbrev pub print : ℕ → List ℕ
print v = digits 20 v

-- A bit pattern of `bits` bits as a signed number.
abbrev pub print_signed : ℕ → ℕ → List ℕ
print_signed bits v = if ltb v (2 ^ (bits - 1)) then print v else 45 ∷ print (2 ^ bits - v)

unfoldable pub hex_status : ℕ → List ℕ
hex_status status = codes "0x" ++ hex true 8 status

-- `HexBytes`; a byte behind the first follows a blank if they are spaced.
unfoldable pub hex_bytes_from : Bool → Bool → List ℕ → List ℕ
hex_bytes_from spaced first [] = []
hex_bytes_from spaced first (b ∷ bytes) =
    (if spaced && not first then 32 ∷ [] else [])
    ++ (hex true 2 b ++ hex_bytes_from spaced false bytes)

unfoldable pub hex_bytes : List ℕ → Bool → List ℕ
hex_bytes bytes spaced = hex_bytes_from spaced true bytes

-- One round of `JsonEscape`.
unfoldable pub escape : ℕ → List ℕ
escape c =
    if c == 34
    then 92 ∷ 34 ∷ []
    else if c == 92
    then 92 ∷ 92 ∷ []
    else if c == 8
    then 92 ∷ 98 ∷ []
    else if c == 12
    then 92 ∷ 102 ∷ []
    else if c == 10
    then 92 ∷ 110 ∷ []
    else if c == 13
    then 92 ∷ 114 ∷ []
    else if c == 9
    then 92 ∷ 116 ∷ []
    else if ltb c 0x20
    then 92 ∷ 117 ∷ hex false 4 c
    else c ∷ []

unfoldable pub json_escape : List ℕ → List ℕ
json_escape [] = []
json_escape (c ∷ cs) = escape c ++ json_escape cs

unfoldable pub preview_text : List ℕ → List ℕ
preview_text bytes = map (λ b. if leb 32 b && leb b 126 then b else 46) bytes
