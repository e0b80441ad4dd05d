-- ===== src/Examples/Loading.antt =====
-- Launch files as texts: parsing, building and including them.
use launch_cpp.Yaml.Parser.{parse_file}
use launch_cpp.Yaml.Texts.{get_indent, is_number, split_at, unquote}
use launch_cpp.Yaml.Streams.{getline, seekg, tellg}
use launch_cpp.Prelude.{
  ℕ, ◌+◌, true, false, Option, none, some, [], ◌∷◌, ◌++◌, Str, codes, ◌≡◌, refl, ◌⊎◌, str_eq,
  str_lt,
}
use launch_cpp.Errors.{ok}
use launch_cpp.Context.{
  Context, new_context, has_launch_configuration, set_launch_configuration,
  get_launch_configuration,
}
use launch_cpp.Substitutions.{System, text, environment_variable, perform}
use launch_cpp.Actions.{visit_description, action, cons, nil, include_launch_description, Host}
use launch_cpp.Yaml.Streams.{getline, tellg, seekg, seek_back}
use launch_cpp.Yaml.{
  find_field, add_array_element, Floats, YamlValue, null, string, set_object_field,
}
use launch_cpp.Yaml.Texts.{trim, get_indent, split_at, is_number, unquote, trim_end}
use launch_cpp.Yaml.Texts.Lengths.{has_byte}
use launch_cpp.Yaml.Texts.Plain.{IsPlain, plainword, keyword}
use launch_cpp.Yaml.Texts.Heads.{elementword}
use launch_cpp.Yaml.Scalars.{parse_scalar}
use launch_cpp.Yaml.Steps.{returns, throws}
use launch_cpp.Yaml.Parser.{parse}
use launch_cpp.Yaml.Parser.Ending.{parse_ends}
use launch_cpp.Yaml.Parser.Printing.{scalar, sequence, Item, AreItems, print, launch_value}
use launch_cpp.Yaml.Parser.ReadingBack.{parse-print}
use launch_cpp.Yaml.Builder.{build_substitution, execute_process, from_yaml, from_yaml_file}
use launch_cpp.Yaml.Builder.Writing.{
  Written, argument, process, items_of, entities_of, IsWord, AreWritten,
}
use launch_cpp.Yaml.Builder.Loading.{from_yaml-print}
use launch_cpp.Prelude.Ordered.{find, set}
use launch_cpp.Actions.Configurations.{IncludesKeep}
use launch_cpp.Includes.Keeping.{with_includes-has_launch_configuration}
use launch_cpp.Includes.{Options, with_includes, execute, set_arguments}
use launch_cpp.Includes.Overriding.{execute-set_arguments}

-- Every number is 7.
abbrev pub floats : Floats
floats = record { Double = ℕ; zero = 0; stod = λ s. some 7 }

abbrev line : Str → Str → Str
line s rest = s ++ 10 ∷ rest

abbrev talker : Str
talker = line (codes "entities:") (
    line (codes "  - type: execute_process") (
      line (codes "    cmd:") (
        line (codes "      - $(env SHELL)")
          (line (codes "      - \"-c\"") (codes "    name: talker")))))

from_yaml_test :
    from_yaml floats talker
    ≡ returns (
        ok (
          execute_process (record {
            name = some (text (codes "talker"));
            cmd = environment_variable (codes "SHELL") [] ∷ text (codes "-c") ∷ [];
            output = [];
            depends_on = [];
          })
          ∷ []))
unfolding from_yaml build_substitution parse getline trim get_indent split_at tellg seekg str_eq
    is_number seek_back set_object_field find_field add_array_element str_lt unquote
from_yaml_test = refl

-- The line behind a nested object is lost.
lost_line_test :
    parse floats (line (codes "a:") (line (codes "  k: v") (line (codes "b: w") [])))
    ≡ returns (
        ok (
          set_object_field floats
            (codes "a")
            (set_object_field floats (codes "k") (string floats (codes "v")) (null floats))
            (null floats)))
unfolding parse getline trim get_indent split_at tellg seekg str_eq is_number unquote
lost_line_test = refl

-- An argument with a colon is no string for the builder.
lost_argument_test :
    from_yaml floats (
      line (codes "entities:") (
        line (codes "  - type: execute_process") (
          line
            (codes "    cmd:")
            (line (codes "      - ros2") (line (codes "      - use_sim_time:=true") [])))))
    ≡ returns (
        ok (
          execute_process
            (record { name = none; cmd = text (codes "ros2") ∷ []; output = []; depends_on = [] })
          ∷ []))
unfolding from_yaml build_substitution parse getline trim get_indent split_at tellg seekg str_eq
    is_number seek_back set_object_field find_field add_array_element str_lt unquote
lost_argument_test = refl

-- A tab counts for two in the indent and is one byte.
tab_test :
    parse floats (line (codes "e:") (line (codes "  - a: b") (line (9 ∷ 9 ∷ codes "x") [])))
    ≡ throws
unfolding parse getline trim get_indent split_at tellg seekg
tab_test = refl

parse_ends_example :
    ((v : YamlValue floats) × (parse floats talker ≡ returns (ok v)))
    ⊎ (parse floats talker ≡ throws) × (has_byte 9 talker ≡ true)
parse_ends_example = parse_ends floats talker

abbrev item : Item
item = record {
  key = codes "type";
  text = codes "execute_process";
  more =
      scalar (codes "name") (codes "talker")
      ∷ sequence (codes "cmd") (codes "ros2") (codes "run" ∷ [])
      ∷ scalar (codes "output") (codes "screen")
      ∷ [];
}

item-AreItems : AreItems (item ∷ [])
unfolding trim_end has_byte
item-AreItems = (
  keyword (codes "type") refl refl refl refl,
  plainword (codes "execute_process") refl refl refl,
  (
    (keyword (codes "name") refl refl refl refl, plainword (codes "talker") refl refl refl),
    (
      (
        keyword (codes "cmd") refl refl refl refl,
        (
          elementword (plainword (codes "ros2") refl refl refl) refl,
          (elementword (plainword (codes "run") refl refl refl) refl, tt),
        ),
      ),
      (
        (keyword (codes "output") refl refl refl refl, plainword (codes "screen") refl refl refl),
        tt,
      ),
    ),
  ),
  tt,
)

parse-print_example :
    parse floats (print (item ∷ [])) ≡ returns (ok (launch_value floats (item ∷ [])))
parse-print_example = parse-print floats item [] item-AreItems

abbrev pub speed : Written
speed = argument (codes "speed") (codes "slow") (codes "How fast")

abbrev pub shell : Written
shell = process (record {
  name = codes "talker";
  command = codes "$(env SHELL)";
  arguments = codes "run" ∷ [];
  output = codes "screen";
  depends_on = codes "master" ∷ [];
})

is_word : {t : Str} → IsPlain t → parse_scalar floats t ≡ ok (string floats t) → IsWord floats t
is_word p h = (p, h)

speed-AreWritten : AreWritten floats (speed ∷ [])
unfolding trim_end has_byte parse_scalar str_eq trim is_number unquote
speed-AreWritten = (
  (
    (plainword (codes "speed") refl refl refl, refl),
    (plainword (codes "slow") refl refl refl, refl),
    (plainword (codes "How fast") refl refl refl, refl),
  ),
  tt,
)

pub shell-AreWritten : AreWritten floats (shell ∷ (speed ∷ []))
unfolding trim_end has_byte parse_scalar str_eq trim is_number unquote
shell-AreWritten = (
  (
    (plainword (codes "talker") refl refl refl, refl),
    (
      elementword (plainword (codes "$(env SHELL)") refl refl refl) refl,
      refl,
      (elementword (plainword (codes "run") refl refl refl) refl, refl, tt),
    ),
    (plainword (codes "screen") refl refl refl, refl),
    (elementword (plainword (codes "master") refl refl refl) refl, refl, tt),
  ),
  speed-AreWritten,
)

from_yaml-print_example :
    from_yaml floats (print (items_of (shell ∷ (speed ∷ []))))
    ≡ returns (ok (entities_of floats (shell ∷ (speed ∷ []))))
from_yaml-print_example = from_yaml-print floats shell (speed ∷ []) shell-AreWritten

abbrev system : System
system = record { popen = λ cmd. none; is_executable = λ path. false }

abbrev pub host : Host
host = record {
  system = system;
  World = ℕ;
  execute_process = λ p c w. (ok tt, w + 1);
  execute_include = λ id c w. (ok tt, (c, w));
  sleep = λ period w. w;
}

abbrev read_speed : Str → Option Str
read_speed path = some (print (items_of (speed ∷ [])))

speed_loads :
    from_yaml_file floats read_speed (perform system (text (codes "speed.yaml")) (new_context []))
    ≡ returns (ok (entities_of floats (speed ∷ [])))
unfolding from_yaml_file parse_file from_yaml
speed_loads = from_yaml-print floats speed [] speed-AreWritten

-- The file's default is slow, the include says fast.
execute-set_arguments_example :
    get_launch_configuration
      (codes "speed")
      (execute floats host read_speed 0
        (record {
          source = some (text (codes "speed.yaml"));
          arguments = [] ++ (codes "speed", some (text (codes "fast"))) ∷ [];
        })
        (new_context [], 0)).1.0
    ≡ ok (perform system (text (codes "fast")) (set_arguments system [] (new_context [])))
execute-set_arguments_example =
    execute-set_arguments floats host read_speed 0 (text (codes "speed.yaml")) [] (codes "speed")
      (text (codes "fast")) (new_context []) 0 refl speed_loads

-- The object 0 includes "speed.yaml", with the process 5 as its first one.
abbrev includes : ℕ → ℕ × Options
includes id = (5, record { source = some (text (codes "speed.yaml")); arguments = [] })

abbrev named : Context
named = set_launch_configuration (codes "robot") (codes "r2") (new_context [])

is_named : has_launch_configuration (codes "robot") named ≡ true
unfolding has_launch_configuration set_launch_configuration find set str_eq
is_named = refl

host-IncludesKeep : IncludesKeep host
host-IncludesKeep id c w key h = h

with_includes-has_launch_configuration_example :
    has_launch_configuration
      (codes "robot")
      (visit_description
        (with_includes floats host read_speed includes)
        (cons (action none (include_launch_description 0)) nil)
        (named, 0)).1.0
    ≡ true
with_includes-has_launch_configuration_example =
    with_includes-has_launch_configuration floats host host-IncludesKeep read_speed includes
      (cons (action none (include_launch_description 0)) nil) named 0 (codes "robot") is_named
