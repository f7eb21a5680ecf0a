-- ===== src/Poset/Messages.antt =====
-- The debugging messages of poset.cc.
use Prim.Native.String.{String, ◌++◌}
use text.Mathlib.Text.{◌==◌ as str_eq}
use mimuw.Prelude.{ℕ, Bool, Option, none, some, if◌then◌else◌}
use mimuw.Poset.Matrix.{Relation, relation, no_relation, rel_transitivity}

-- Whether NDEBUG is not set, and the library's `to_string` for a number.
pub record Config : Type 0 where
  pub debug : Bool
  pub to_string : ℕ → String

-- `getStrErr`
unfoldable pub str_err : Option String → String
str_err none = "NULL"
str_err (some s) = "\"" ++ s ++ "\""

-- `getPairErr`; without its second argument the default is the empty text.
unfoldable pub pair_err : String → String → String
pair_err s t = if str_eq t "" then "(" ++ s ++ ")" else "(" ++ s ++ ", " ++ t ++ ")"

unfoldable pub poset_id_err : Config → ℕ → String
poset_id_err c id = ": poset " ++ c.to_string id

unfoldable pub last_expr_err : String → String
last_expr_err s = " " ++ s ++ "\n"

unfoldable pub invalid_val_err : String → String
invalid_val_err s = ": invalid " ++ s ++ " (NULL)\n"

unfoldable pub comma_elem_err : String → String
comma_elem_err s = ", " ++ s ++ " "

unfoldable pub relation_err : Config → String → ℕ → Option String → Option String → String
unfolding poset_id_err comma_elem_err pair_err str_err
relation_err c f id v w =
    f ++ poset_id_err c id ++ comma_elem_err "relation" ++ pair_err (str_err v) (str_err w)

-- What is written to `cerr` when messages are on.
abbrev pub say : Config → String → String → String
say c s log = if c.debug then log ++ s else log

unfoldable pub poset_not_exist : Config → String → ℕ → String → String
unfolding poset_id_err last_expr_err
poset_not_exist c f id = say c (f ++ poset_id_err c id ++ last_expr_err "does not exist")

unfoldable pub elem_not_exist : Config → String → ℕ → Option String → String → String
unfolding poset_id_err comma_elem_err str_err last_expr_err
elem_not_exist c f id v = say c (
    f
    ++ poset_id_err c id
    ++ comma_elem_err "element"
    ++ str_err v
    ++ last_expr_err "does not exist")

unfoldable pub elem_exist : Config → String → ℕ → Option String → String → String
unfolding poset_id_err comma_elem_err str_err
elem_exist c f id v =
    say c (f ++ poset_id_err c id ++ comma_elem_err "element" ++ str_err v ++ " already exists\n")

unfoldable pub one_value_null : Config → String → String → String
unfolding invalid_val_err
one_value_null c f = say c (f ++ invalid_val_err "value")

-- A message for one argument, if it is null
abbrev null_err : Config → String → String → Option String → String → String
null_err c f name none log = say c (f ++ invalid_val_err name) log
null_err c f name (some v) log = log

unfoldable pub two_value_null : Config → String → Option String → Option String → String → String
unfolding invalid_val_err
two_value_null c f v w log = null_err c f "value2" w (null_err c f "value1" v log)

unfoldable pub three_arg_func_name :
    Config → String → ℕ → Option String → Option String → String → String
unfolding pair_err str_err
three_arg_func_name c f id v w =
    say c (f ++ pair_err (c.to_string id) (str_err v ++ ", " ++ str_err w) ++ "\n")

unfoldable pub two_arg_func_name : Config → String → ℕ → Option String → String → String
unfolding pair_err str_err
two_arg_func_name c f id v = say c (f ++ pair_err (c.to_string id) (str_err v) ++ "\n")

unfoldable pub one_arg_func_name : Config → String → ℕ → String → String
unfolding pair_err
one_arg_func_name c f id =
    say c (if str_eq f "poset_new" then f ++ "()\n" else f ++ pair_err (c.to_string id) "" ++ "\n")

unfoldable pub inserted : Config → String → ℕ → Option String → String → String
unfolding poset_id_err comma_elem_err str_err
inserted c f id v =
    say c (f ++ poset_id_err c id ++ comma_elem_err "element" ++ str_err v ++ " inserted\n")

unfoldable pub contains : Config → String → (id size : ℕ) → String → String
unfolding poset_id_err
contains c f id size =
    say c (f ++ poset_id_err c id ++ " contains " ++ c.to_string size ++ " element(s)\n")

unfoldable pub elem_removed : Config → String → ℕ → Option String → String → String
unfolding poset_id_err comma_elem_err str_err
elem_removed c f id v =
    say c (f ++ poset_id_err c id ++ comma_elem_err "element" ++ str_err v ++ " removed\n")

unfoldable pub is_relation_added :
    Config → Relation → String → ℕ → Option String → Option String → String → String
unfolding relation_err last_expr_err
is_relation_added c no_relation f id v w log =
    say c (relation_err c f id v w ++ last_expr_err "cannot be added") log
is_relation_added c relation f id v w log =
    say c (relation_err c f id v w ++ last_expr_err "added") log
is_relation_added c rel_transitivity f id v w log = log

unfoldable pub is_relation_deleted :
    Config → Bool → String → ℕ → Option String → Option String → String → String
unfolding relation_err last_expr_err
is_relation_deleted c done f id v w =
    say c
      (relation_err c f id v w ++ last_expr_err (if done then "deleted" else "cannot be deleted"))

unfoldable pub relation_exists :
    Config → Bool → String → ℕ → Option String → Option String → String → String
unfolding relation_err last_expr_err
relation_exists c done f id v w =
    say c (relation_err c f id v w ++ last_expr_err (if done then "exists" else "does not exist"))

unfoldable pub state_of_poset : Config → String → ℕ → String → String
unfolding poset_id_err last_expr_err
state_of_poset c f id = say c (
    f
    ++ poset_id_err c id
    ++ last_expr_err (
        if str_eq f "poset_new"
        then "created"
        else if str_eq f "poset_clear"
        then "cleared"
        else "deleted"))
