-- ===== src/Web/Validation.antt =====
-- app/validation.py: what a field of a request must be. An HTTPException is a raise; the checks of
-- URLs, which call urlparse, are left out.
use Prim.Native.Char.{Char, code}
use Prim.Native.Nat.{ℕ}
use fabric_unified_permissio.Base.{String, ◌<>◌, Bool, false, not, ◌&&◌, ◌||◌, List, [], ◌∷◌}
use fabric_unified_permissio.Base.{string_eq, if◌then◌else◌, eqb, ltb, leb, contains, any_of}
use fabric_unified_permissio.Base.Outcome.{Outcome, ok, raised}
use fabric_unified_permissio.Base.Text.{
  is_empty, is_digit, strip, lower_char, all_chars, has_char, split, text_length,
}

-- `[a-f0-9]` under re.IGNORECASE
abbrev pub is_hex : Char → Bool
is_hex c = is_digit c || (leb 97 (code (lower_char c)) && leb (code (lower_char c)) 102)

-- `[a-f0-9]{n}`
abbrev pub hex_run : ℕ → String → Bool
hex_run n s = eqb (text_length s) n && all_chars is_hex s

abbrev uuid_parts : List String → Bool
uuid_parts (a ∷ b ∷ c ∷ d ∷ e ∷ []) =
    hex_run 8 a && hex_run 4 b && hex_run 4 c && hex_run 4 d && hex_run 12 e
uuid_parts _ = false

abbrev pub accept : Bool → String → String → Outcome String
accept b cleaned detail = if b then ok cleaned else raised detail

pub require_uuid : String → String → Outcome String
unfolding split strip text_length all_chars lower_char
require_uuid value field_name =
    accept (uuid_parts (split b'-' (strip value))) (strip value) ("Invalid " <> field_name)

pub require_pairing_id : String → Outcome String
unfolding strip text_length all_chars lower_char
require_pairing_id pairing_id =
    accept (hex_run 10 (strip pairing_id)) (strip pairing_id) "Invalid pairing ID"

-- The characters that a path segment must not have: `/`, `\`, `?` and `#`, and the control characters.
pub require_safe_path_segment : String → String → ℕ → Outcome String
unfolding strip text_length all_chars has_char
require_safe_path_segment value field_name max_length =
    let cleaned = strip value in
    accept
      (not (
        is_empty cleaned
        || ltb max_length (text_length cleaned)
        || contains ("." ∷ ".." ∷ []) cleaned
        || not (all_chars (λ c. leb 32 (code c)) cleaned)
        || any_of (λ n. has_char n cleaned) (47 ∷ 92 ∷ 63 ∷ 35 ∷ [])))
      cleaned ("Invalid " <> field_name)

unfoldable pub require_choice : String → List String → String → Outcome String
unfolding strip
require_choice value allowed field_name =
    accept (contains allowed (strip value)) (strip value) ("Invalid " <> field_name)
