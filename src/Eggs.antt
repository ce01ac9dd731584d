-- ===== src/Eggs.antt =====
-- web/src/components/admin/AdminEggsTab.tsx: the form for an egg, and the import of an egg from a
-- JSON text. `parse` is `JSON.parse`, `none` where it throws.
pub mod Requests
use sky_panel.Base.{
  ◌≡◌, ℕ, zero, suc, refl, ap, ◌∙◌, ◌&&◌, ◌++◌, String, Option, none, some, Bool, true, List, [],
  ◌∷◌, map, nonempty, str_eq, if◌then◌else◌,
}
use sky_panel.Base.Json.{Json, bool, str, arr, obj, items, elements, get_field}
use sky_panel.Wire.Servers.{Egg, EggVariable}
use sky_panel.Endpoints.Admin.{EggInput, egg_body, egg_variable}

abbrev pub empty_form : EggInput
empty_form = record {
  name = "";
  docker_image = "";
  startup = "";
  category = some "";
  description = some "";
  stop_command = some "";
  variables = some [];
}

-- A property of a value; null, undefined and the primitive values have none of these.
abbrev property : String → Json → Option Json
property key (obj fs) = get_field key fs
property key _ = none

-- `typeof v === "string" ? v : ""`
abbrev text_of : Option Json → String
text_of (some (str s)) = s
text_of _ = ""

-- `v !== false`
abbrev not_false : Option Json → Bool
not_false (some (bool b)) = b
not_false _ = true

unfoldable pub coerce_variable : Json → EggVariable
unfolding get_field
coerce_variable v = record {
  name = text_of (property "name" v);
  env = text_of (property "env" v);
  default = text_of (property "default" v);
  user_editable = not_false (property "user_editable" v);
}

-- `Array.isArray(o.variables) ? … : []`
abbrev variables_of : Option Json → List EggVariable
variables_of (some (arr vs)) = map coerce_variable (elements vs)
variables_of _ = []

unfoldable pub coerce_egg_input : Json → EggInput
unfolding coerce_variable get_field
coerce_egg_input raw = record {
  name = text_of (property "name" raw);
  docker_image = text_of (property "docker_image" raw);
  startup = text_of (property "startup" raw);
  category = some (text_of (property "category" raw));
  description = some (text_of (property "description" raw));
  stop_command = some (text_of (property "stop_command" raw));
  variables = some (variables_of (property "variables" raw));
}

pub record EggForm : Type 0 where
  pub editing_id : Option String
  pub form : EggInput
  pub import_error : Option String

abbrev refused : String → EggForm → EggForm
refused message s = record s { import_error = some message }

abbrev import_refusal : String
import_refusal = "JSON must include at least a name and docker_image."

abbrev loaded : EggInput → EggForm → EggForm
loaded next s =
    if nonempty next.name && nonempty next.docker_image
    then record { editing_id = none; form = next; import_error = none }
    else refused import_refusal s

abbrev imported : Option Json → EggForm → EggForm
imported none s = refused "That doesn't look like valid JSON." s
imported (some parsed) s = loaded (coerce_egg_input parsed) s

unfoldable pub load_from_json : (parse : String → Option Json) → String → EggForm → EggForm
unfolding coerce_egg_input
load_from_json parse text s = imported (parse text) s

unfoldable pub reset_form : EggForm → EggForm
reset_form s = record s { editing_id = none; form = empty_form }

-- An egg as the input of the form
abbrev pub input_of : Egg → EggInput
input_of e = record {
  name = e.name;
  docker_image = e.docker_image;
  startup = e.startup;
  category = some e.category;
  description = some e.description;
  stop_command = some e.stop_command;
  variables = some e.variables;
}

unfoldable pub start_edit : Egg → EggForm → EggForm
start_edit e s = record s { editing_id = some e.id; form = input_of e }

-- After a successful deletion of the egg `id`
unfoldable pub removed : String → EggForm → EggForm
unfolding reset_form
removed id s = elim s.editing_id [ none ↦ s | some own ↦ if str_eq id own then reset_form s else s ]

abbrev listed : Option (List EggVariable) → List EggVariable
listed none = []
listed (some vs) = vs

abbrev change_at : ℕ → (EggVariable → EggVariable) → List EggVariable → List EggVariable
change_at index patch [] = []
change_at zero patch (v ∷ vs) = patch v ∷ vs
change_at (suc index) patch (v ∷ vs) = v ∷ change_at index patch vs

abbrev remove_at : ℕ → List EggVariable → List EggVariable
remove_at index [] = []
remove_at zero (v ∷ vs) = vs
remove_at (suc index) (v ∷ vs) = v ∷ remove_at index vs

abbrev on_variables : (List EggVariable → List EggVariable) → EggForm → EggForm
on_variables change s = record s {
  form = record s.form { variables = some (change (listed s.form.variables)) };
}

unfoldable pub update_variable : ℕ → (EggVariable → EggVariable) → EggForm → EggForm
update_variable index patch s = on_variables (change_at index patch) s

unfoldable pub add_variable : EggForm → EggForm
add_variable s =
    on_variables
      (λ vs. vs ++ record { name = ""; env = ""; default = ""; user_editable = true } ∷ []) s

unfoldable pub remove_variable : ℕ → EggForm → EggForm
remove_variable index s = on_variables (remove_at index) s

coerce_variables :
    (vs : List EggVariable) → map coerce_variable (elements (items (map egg_variable vs))) ≡ vs
unfolding coerce_variable get_field
coerce_variables [] = refl
coerce_variables (v ∷ vs) = ap (λ ws. v ∷ ws) (coerce_variables vs)

coerce_egg_body : (e : Egg) → coerce_egg_input (egg_body (input_of e)) ≡ input_of e
unfolding coerce_egg_input get_field
coerce_egg_body e =
    ap
      (λ vs. record {
        name = e.name;
        docker_image = e.docker_image;
        startup = e.startup;
        category = some e.category;
        description = some e.description;
        stop_command = some e.stop_command;
        variables = some vs;
      })
      (coerce_variables e.variables)

-- The import of a text that parses as the JSON of an egg's input, as the panel is sent it, fills the
-- form with that egg, as a new one, as long as it has a name and an image.
pub load_from_json-egg_body :
    (parse : String → Option Json) (text : String) (e : Egg) (s : EggForm)
    → parse text ≡ some (egg_body (input_of e))
    → nonempty e.name ≡ true
    → nonempty e.docker_image ≡ true
    → load_from_json parse text s
      ≡ record { editing_id = none; form = input_of e; import_error = none }
unfolding load_from_json
load_from_json-egg_body parse text e s read named imaged =
    ap (λ o. imported o s) read
    ∙ ap (λ next. loaded next s) (coerce_egg_body e)
    ∙ ap
        (λ b.
          if b && nonempty e.docker_image
          then record { editing_id = none; form = input_of e; import_error = none }
          else refused import_refusal s)
        named
    ∙ ap
        (λ b.
          if b
          then record { editing_id = none; form = input_of e; import_error = none }
          else refused import_refusal s)
        imaged
