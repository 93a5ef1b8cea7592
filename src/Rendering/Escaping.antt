-- ===== src/Rendering/Escaping.antt =====
-- src/apiscope/trace_renderer.cpp: `JsonEscape` against the strings of JSON.
use hook_nt.Prelude.{ℕ, zero, suc, ◌+◌, ◌-◌, ◌*◌, ◌||◌, Option, none, some}
use hook_nt.Prelude.{List, [], ◌∷◌, ltb, leb, ◌==◌, if◌then◌else◌}

abbrev hex_value : ℕ → ℕ
hex_value c = if leb c 57 then c - 48 else c - 87

abbrev prepend : ℕ → Option (List ℕ) → Option (List ℕ)
prepend c none = none
prepend c (some cs) = some (c ∷ cs)

-- The character that a backslash and a letter stand for.
abbrev short_escape : ℕ → Option ℕ
short_escape c =
    if c == 34 || c == 92 || c == 47
    then some c
    else if c == 98
    then some 8
    else if c == 102
    then some 12
    else if c == 110
    then some 10
    else if c == 114
    then some 13
    else if c == 116
    then some 9
    else none

-- Where a reader of a JSON string stands: in the text, behind a backslash, or in front of some of the
-- four digits behind `\u`, with the value so far.
pub data Position : Type 0 where
  plain : Position
  escaped : Position
  unicode : ℕ → ℕ → Position

-- The inside of a JSON string, by RFC 8259: a quote ends the string and a control character is not
-- allowed in it, so there is no text then.
unfoldable pub json_read : Position → List ℕ → Option (List ℕ)
json_read plain [] = some []
json_read plain (c ∷ cs) =
    let in_escape = json_read escaped cs in
    let rest = json_read plain cs in
    if c == 92 then in_escape else if c == 34 || ltb c 32 then none else prepend c rest
json_read escaped [] = none
json_read escaped (c ∷ cs) =
    let in_digits = json_read (unicode 4 0) cs in
    let rest = json_read plain cs in
    if c == 117 then in_digits else elim (short_escape c) [ none ↦ none | some v ↦ prepend v rest ]
json_read (unicode left value) [] = none
json_read (unicode zero value) (c ∷ cs) = none
json_read (unicode (suc zero) value) (c ∷ cs) =
    prepend (value * 16 + hex_value c) (json_read plain cs)
json_read (unicode (suc (suc left)) value) (c ∷ cs) =
    json_read (unicode (suc left) (value * 16 + hex_value c)) cs
