-- ===== src/Tests/Rendering.antt =====
-- Runs and instances for the printing of events: trace_renderer.cpp.
use hook_nt.Prelude.{ℕ, ◌≡◌, refl, List, [], ◌∷◌, ◌++◌, codes}
use hook_nt.Rendering.{escape, json_escape, print, digits, hex}

abbrev odd_text : List ℕ
odd_text = 34 ∷ 92 ∷ 10 ∷ 1 ∷ 65 ∷ 200 ∷ []

escaped_text : json_escape odd_text ≡ codes "\\\"\\\\\\n\\u0001A" ++ (200 ∷ [])
unfolding json_escape escape hex
escaped_text = refl

newline : codes "\n" ≡ 10 ∷ []
newline = refl

printed_number : print 1024 ≡ codes "1024"
unfolding digits
printed_number = refl
