-- ===== src/Space/Codes.antt =====
-- app/services/space.py, `_feature_code`. What Python and the database know of letters is a parameter.
use Prim.Native.Char.{Char, code}
use Prim.Native.String.{String, ◌++◌ as ◌<>◌}
use desmobapp_backend.Prelude.{Bool, true, false, ◌&&◌, ◌||◌, leb, ◌==◌, if◌then◌else◌}

-- `str.lower`, `str.strip`, PostgreSQL's ILIKE of a text and a pattern, and the order of its texts.
pub record Letters : Type 0 where
  pub lower : String → String
  pub strip : String → String
  pub ilike : String → String → Bool
  pub may_precede : String → String → Bool

-- `[a-z0-9]`
abbrev is_code_char : Char → Bool
is_code_char c =
    (leb b'a' (code c) && leb (code c) b'z') || (leb b'0' (code c) && leb (code c) b'9')

-- `re.sub(r"[^a-z0-9]+", "_", text)`; `in_run` says whether the run before has its `_`.
unfoldable pub sub_runs : Bool → String → String
sub_runs in_run String.[] = String.[]
sub_runs in_run (String.◌∷◌ c s) =
    let outside = sub_runs false s in
    let inside = sub_runs true s in
    if is_code_char c then String.◌∷◌ c outside else if in_run then inside else "_" <> inside

-- The two ends of `text.strip("_")`.
unfoldable pub strip_start : String → String
strip_start String.[] = String.[]
strip_start (String.◌∷◌ c s) =
    let rest = strip_start s in if code c == b'_' then rest else String.◌∷◌ c s

abbrev pub cons_unless_last : Char → String → String
cons_unless_last c String.[] = if code c == b'_' then String.[] else String.◌∷◌ c String.[]
cons_unless_last c (String.◌∷◌ d s) = String.◌∷◌ c (String.◌∷◌ d s)

unfoldable pub strip_end : String → String
strip_end String.[] = String.[]
strip_end (String.◌∷◌ c s) = cons_unless_last c (strip_end s)

abbrev or_feature : String → String
or_feature String.[] = "feature"
or_feature (String.◌∷◌ c s) = String.◌∷◌ c s

-- `_feature_code`
unfoldable pub feature_code : Letters → String → String
unfolding sub_runs strip_start strip_end
feature_code letters raw_value =
    or_feature (strip_end (strip_start (sub_runs false (letters.lower (letters.strip raw_value)))))
