-- ===== src/Config/Expand.antt =====
-- `_ENV_PATTERN` and `_expand_env` of config.py: a text "${NAME}" stands for an environment variable.
use production_agent_runtime.Common.{
  ℕ, Bool, ◌&&◌, ◌||◌, ◌==◌, Option, none, some, [], ◌∷◌, ◌++◌, Text, text, leb, drop,
  if◌then◌else◌,
}
use production_agent_runtime.Common.Strings.{starts_with}
use production_agent_runtime.Common.Json.{
  Json, string, array, object, Items, nil, cons, Fields, end, field,
}
use production_agent_runtime.Common.Exec.{Result, ok, err, configuration_error}

abbrev is_upper : ℕ → Bool
is_upper c = leb b'A' c && leb c b'Z'

-- [A-Z0-9_]
abbrev is_name_char : ℕ → Bool
is_name_char c = is_upper c || (leb b'0' c && leb c b'9') || c == b'_'

-- $: the end, or a newline at the end
abbrev at_end : Text → Option Text
at_end [] = some []
at_end (c ∷ []) = if c == 10 then some [] else none
at_end (c ∷ d ∷ s) = none

abbrev with_char : ℕ → Option Text → Option Text
with_char c none = none
with_char c (some s) = some (c ∷ s)

-- [A-Z0-9_]*\}$
unfoldable pub name_rest : Text → Option Text
name_rest [] = none
name_rest (c ∷ s) =
    let rest = name_rest s in
    if c == b'}' then at_end s else if is_name_char c then with_char c rest else none

abbrev name_start : Text → Option Text
name_start [] = none
name_start (c ∷ s) = if is_upper c then with_char c (name_rest s) else none

-- the name in "${NAME}": _ENV_PATTERN.match(value).group(1)
unfoldable pub env_name : Text → Option Text
unfolding starts_with
env_name s = if starts_with s (text "${") then name_start (drop 2 s) else none

abbrev pub missing : Text → Text
missing name = text "required environment variable is missing: " ++ name

module _ (environ : Text → Option Text) where
  abbrev pub lookup : Text → Option Text → Result Json
  lookup name none = err (configuration_error (missing name))
  lookup name (some s) = ok (string s)

  abbrev pub expand_text : Text → Option Text → Result Json
  expand_text value none = ok (string value)
  expand_text value (some name) = lookup name (environ name)

  abbrev pub as_array : Result Items → Result Json
  as_array (ok items) = ok (array items)
  as_array (err e) = err e

  abbrev pub as_object : Result Fields → Result Json
  as_object (ok fields) = ok (object fields)
  as_object (err e) = err e

  -- the first value that raises ends the expansion
  abbrev pub cons_item : Result Json → Result Items → Result Items
  cons_item (err e) rest = err e
  cons_item (ok v) (err e) = err e
  cons_item (ok v) (ok rest) = ok (cons v rest)

  abbrev pub cons_field : Text → Result Json → Result Fields → Result Fields
  cons_field key (err e) rest = err e
  cons_field key (ok v) (err e) = err e
  cons_field key (ok v) (ok rest) = ok (field key v rest)

  -- `_expand_env`
  unfoldable mutual
    pub expand_env : Json → Result Json
    expand_env (object fields) = as_object (expand_fields fields)
    expand_env (array items) = as_array (expand_items items)
    expand_env (string s) = expand_text s (env_name s)
    expand_env v = ok v

    pub expand_items : Items → Result Items
    expand_items nil = ok nil
    expand_items (cons v items) = cons_item (expand_env v) (expand_items items)

    pub expand_fields : Fields → Result Fields
    expand_fields end = ok end
    expand_fields (field key v rest) = cons_field key (expand_env v) (expand_fields rest)
