-- ===== src/Agents/Parse.antt =====
-- `_parse_object` and `_parse_plan` of agents/patterns.py.
use production_agent_runtime.Common.{
  ℕ, ◌-◌, Bool, ◌||◌, ◌==◌, not, Option, none, some, List, [], ◌∷◌, map, Text, text, strip,
  is_blank, keep, take, drop, length, if◌then◌else◌,
}
use production_agent_runtime.Common.Strings.{starts_with, splitlines, join, strip_by}
use production_agent_runtime.Common.Json.{Json, string, array, object, Fields, end, field, to_list}
use production_agent_runtime.Agents.{Codec}

-- lines[1:-1]
abbrev inner_lines : List Text → List Text
inner_lines lines = take (length lines - 2) (drop 1 lines)

abbrev without_tag : Text → Text
without_tag cleaned = if starts_with cleaned (text "json") then strip (drop 4 cleaned) else cleaned

-- the text of a fenced block
unfoldable pub unfence : Text → Text
unfence cleaned =
    if starts_with cleaned (text "```")
    then without_tag (strip (join (text "\n") (inner_lines (splitlines cleaned))))
    else cleaned

abbrev as_fields : Text → Option Json → Fields
as_fields value (some (object fields)) = fields
as_fields value _ = field (text "final") (string value) end

unfoldable pub parse_object : Codec → Text → Fields
unfolding unfence
parse_object codec value = as_fields value (codec.loads (unfence (strip value)))

-- str(item)
abbrev shown : Codec → Json → Text
shown codec (string s) = s
shown codec v = codec.show v

abbrev pub is_written : Text → Bool
is_written s = not (is_blank s)

-- the steps of a decoded list, or the default plan
abbrev or_default : List Text → List Text
or_default [] = text "Answer the task" ∷ []
or_default (step ∷ steps) = step ∷ steps

-- the characters of strip(" -\t")
abbrev is_bullet : ℕ → Bool
is_bullet c = c == b' ' || c == b'-' || c == 9

abbrev as_plan : Codec → Text → Option Json → List Text
as_plan codec value none = or_default (
    keep is_written (
      map strip
        (map (strip_by is_bullet) (keep (λ line. is_written (strip line)) (splitlines value)))))
as_plan codec value (some (array items)) =
    or_default (keep is_written (map strip (map (shown codec) (to_list items))))
as_plan codec value (some _) = strip value ∷ []

unfoldable pub parse_plan : Codec → Text → List Text
parse_plan codec value = as_plan codec value (codec.loads value)
