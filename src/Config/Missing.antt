-- ===== src/Config/Missing.antt =====
-- When the expansion of config.py fails.
use production_agent_runtime.Common.{◌≡◌, refl, Option, none, some, List, [], ◌∷◌, ◌++◌, Text}
use production_agent_runtime.Common.Json.{
  Json, null, bool, number, string, array, object, Items, nil, cons, Fields, end, field,
}
use production_agent_runtime.Common.Exec.{Result, ok, err, configuration_error}
use production_agent_runtime.Config.Expand.{
  env_name, missing, lookup, expand_text, as_array, as_object, cons_item, cons_field, expand_env,
  expand_items, expand_fields,
}

abbrev listed : Option Text → List Text
listed none = []
listed (some name) = name ∷ []

-- the names of the variables that a value refers to, in the order of the values
unfoldable mutual
  pub references : Json → List Text
  references (object fields) = field_references fields
  references (array items) = item_references items
  references (string s) = listed (env_name s)
  references v = []

  pub item_references : Items → List Text
  item_references nil = []
  item_references (cons v items) = references v ++ item_references items

  pub field_references : Fields → List Text
  field_references end = []
  field_references (field key v rest) = references v ++ field_references rest

abbrev missing_or : Option Text → Text → Option Text → Option Text
missing_or (some s) name rest = rest
missing_or none name rest = some name

-- the first name without a variable
unfoldable pub first_missing : (Text → Option Text) → List Text → Option Text
first_missing environ [] = none
first_missing environ (name ∷ names) = missing_or (environ name) name (first_missing environ names)

-- a result, if no variable is missing, and otherwise the error that names the first
abbrev pub Expands : {A : Type 0} → Option Text → Result A → Type 0
Expands none (ok w) = Unit
Expands none (err e) = ⊥
Expands (some name) r = r ≡ err (configuration_error (missing name))

module _ (environ : Text → Option Text) where
  abbrev or_else : Option Text → Option Text → Option Text
  or_else none later = later
  or_else (some name) later = some name

  first_missing-append :
      (xs ys : List Text)
      → first_missing environ (xs ++ ys)
        ≡ or_else (first_missing environ xs) (first_missing environ ys)
  unfolding first_missing
  first_missing-append [] ys = refl
  first_missing-append (x ∷ xs) ys = by_value (environ x) (first_missing-append xs ys)
    where
      by_value :
          (o : Option Text)
          → first_missing environ (xs ++ ys)
            ≡ or_else (first_missing environ xs) (first_missing environ ys)
          → missing_or o x (first_missing environ (xs ++ ys))
            ≡ or_else (missing_or o x (first_missing environ xs)) (first_missing environ ys)
      by_value none later = refl
      by_value (some s) later = later

  cons_item-Expands :
      (m n : Option Text) (v : Result Json) (rest : Result Items)
      → Expands m v
      → Expands n rest
      → Expands (or_else m n) (cons_item environ v rest)
  cons_item-Expands none n (err e) rest h k = elim h [ ]
  cons_item-Expands none none (ok v) (ok rest) h k = tt
  cons_item-Expands none none (ok v) (err e) h k = elim k [ ]
  cons_item-Expands none (some name) (ok v) rest h k = rw k refl
  cons_item-Expands (some name) n v rest h k = rw h refl

  cons_field-Expands :
      (key : Text) (m n : Option Text) (v : Result Json) (rest : Result Fields)
      → Expands m v
      → Expands n rest
      → Expands (or_else m n) (cons_field environ key v rest)
  cons_field-Expands key none n (err e) rest h k = elim h [ ]
  cons_field-Expands key none none (ok v) (ok rest) h k = tt
  cons_field-Expands key none none (ok v) (err e) h k = elim k [ ]
  cons_field-Expands key none (some name) (ok v) rest h k = rw k refl
  cons_field-Expands key (some name) n v rest h k = rw h refl

  as_array-Expands :
      (m : Option Text) (r : Result Items) → Expands m r → Expands m (as_array environ r)
  as_array-Expands none (ok items) h = tt
  as_array-Expands none (err e) h = elim h [ ]
  as_array-Expands (some name) r h = rw h refl

  as_object-Expands :
      (m : Option Text) (r : Result Fields) → Expands m r → Expands m (as_object environ r)
  as_object-Expands none (ok fields) h = tt
  as_object-Expands none (err e) h = elim h [ ]
  as_object-Expands (some name) r h = rw h refl

  looked_up :
      (name : Text) (o : Option Text) → Expands (missing_or o name none) (lookup environ name o)
  looked_up name none = refl
  looked_up name (some s) = tt

  expand_text-Expands :
      (s : Text) (name : Option Text)
      → Expands (first_missing environ (listed name)) (expand_text environ s name)
  unfolding first_missing
  expand_text-Expands s none = tt
  expand_text-Expands s (some name) = looked_up name (environ name)

  mutual
    unfolding expand_env references first_missing

    value-Expands :
        (v : Json) → Expands (first_missing environ (references v)) (expand_env environ v)
    value-Expands null = tt
    value-Expands (bool b) = tt
    value-Expands (number n) = tt
    value-Expands (string s) = expand_text-Expands s (env_name s)
    value-Expands (array items) = as_array-Expands _ _ (items-Expands items)
    value-Expands (object fields) = as_object-Expands _ _ (fields-Expands fields)

    items-Expands :
        (items : Items)
        → Expands (first_missing environ (item_references items)) (expand_items environ items)
    items-Expands nil = tt
    items-Expands (cons v items) =
        rw (first_missing-append (references v) (item_references items))
          (cons_item-Expands _ _ _ _ (value-Expands v) (items-Expands items))

    fields-Expands :
        (fields : Fields)
        → Expands (first_missing environ (field_references fields)) (expand_fields environ fields)
    fields-Expands end = tt
    fields-Expands (field key v rest) =
        rw (first_missing-append (references v) (field_references rest))
          (cons_field-Expands key _ _ _ _ (value-Expands v) (fields-Expands rest))

  -- The expansion of a decoded value succeeds if every variable that a text of it refers to is
  -- set, and otherwise raises the configuration error that names the first one that is not.
  pub expand_env-Expands :
      (v : Json) → Expands (first_missing environ (references v)) (expand_env environ v)
  expand_env-Expands v = value-Expands v
