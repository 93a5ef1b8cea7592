-- ===== src/Rendering/Numerals.antt =====
-- src/apiscope/trace_renderer.cpp: the numbers and bytes that the renderers print, read back.
use hook_nt.Prelude.{ℕ, ◌+◌, ◌-◌, ◌*◌}
use hook_nt.Prelude.{List, [], ◌∷◌, leb, if◌then◌else◌}

abbrev upper_value : ℕ → ℕ
upper_value c = if leb c 57 then c - 48 else c - 55

-- The bytes that pairs of hexadecimal digits stand for.
abbrev pub read_hex : List ℕ → List ℕ
read_hex [] = []
read_hex (a ∷ []) = []
read_hex (a ∷ b ∷ cs) = (upper_value a * 16 + upper_value b) ∷ read_hex cs
