-- ===== src/Net/Codec/Lines.antt =====
-- core/src/net.rs: lines that are sent arrive as the same lines, whichever of the two ends each has.
use aetherflow.Base.{◌≡◌, none, List, [], ◌∷◌, ◌++◌}
use aetherflow.Base.AllOf.{AllOf}
use aetherflow.Net.{Bytes}
use aetherflow.Net.Codec.{newline_position, strip_return}

-- A line as it is sent: a newline behind it, or a return and a newline.
pub data Line : Type 0 where
  newline : Bytes → Line
  return_newline : Bytes → Line

abbrev pub text : Line → Bytes
text (newline f) = f
text (return_newline f) = f

abbrev pub encode_line : Line → Bytes
encode_line (newline f) = f ++ (10 ∷ [])
encode_line (return_newline f) = f ++ (13 ∷ 10 ∷ [])

-- No newline in it; and with a newline alone behind it, it does not end with a return.
abbrev pub IsLine : Line → Type 0
IsLine (newline f) = (newline_position f ≡ none) × (strip_return f ≡ f)
IsLine (return_newline f) = newline_position f ≡ none
