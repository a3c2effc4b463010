-- ===== src/Tools/Describe.antt =====
-- `describe` of tools.py.
use production_agent_runtime.Common.{Bool, List, map, text}
use mathlib.Core.List.{Perm}
use production_agent_runtime.Common.Dict
use production_agent_runtime.Common.Dict.{Dict}
use production_agent_runtime.Common.Json.{Json, string, array, object, field, end, of_list}
use production_agent_runtime.Common.Sorting.{
  sort, text_leb, sort-perm, sort-IsSorted, text_leb-IsOrder, IsSorted,
}
use production_agent_runtime.Tools.{Tool, ToolRegistry}

abbrev pub by_name : Tool → Tool → Bool
by_name x y = text_leb x.name y.name

-- sorted(self._tools.values(), key=lambda item: item.name)
unfoldable pub sorted_tools : ToolRegistry → List Tool
sorted_tools r = sort by_name (Dict.values r.tools)

-- {"name": tool.name, "description": tool.description}
abbrev pub description_of : Tool → Json
description_of tool = object (
    field (text "name") (string tool.name)
      (field (text "description") (string tool.description) end))

unfoldable pub describe : ToolRegistry → Json
describe r = array (of_list (map description_of (sorted_tools r)))

-- The tools that are described are the registered ones, each as often as it is registered, in the
-- order of their names.
pub sorted_tools-IsSorted :
    (r : ToolRegistry)
    → IsSorted by_name (sorted_tools r) × Perm (sorted_tools r) (Dict.values r.tools)
unfolding sorted_tools
sorted_tools-IsSorted r = (
  sort-IsSorted by_name (text_leb-IsOrder λ (tool : Tool). tool.name) (Dict.values r.tools),
  sort-perm by_name (Dict.values r.tools),
)
