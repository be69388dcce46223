-- ===== src/Core/Graph/Types.antt =====
-- Node types and the registry of extensions: `TypeRegistry` and `Node.normalize_known_type` of
-- src/intent_engineering/core/models/graph.py.
use Prim.Native.Char.{code}
use intent_engineer.Base.{
  String, Bool, true, false, not, ◌&&◌, ◌||◌, Option, none, some, List, [], ◌∷◌, eqb, if◌then◌else◌,
  is_some, Result, ok, ◌>>◌, raise_if,
}
use intent_engineer.Base.Text.{is_space}
use intent_engineer.Base.Texts.{elem}
use intent_engineer.Core.Vocabulary.{NodeType, node_type_value, node_type_of_value}

-- `NodeType | str`
pub data NodeKind : Type 0 where
  builtin : NodeType → NodeKind
  text : String → NodeKind

-- The text of a node's type.
unfoldable pub kind_value : NodeKind → String
unfolding node_type_value
kind_value (builtin t) = node_type_value t
kind_value (text s) = s

abbrev kind_or : String → Option NodeType → NodeKind
kind_or s none = text s
kind_or s (some t) = builtin t

-- `Node.normalize_known_type`
unfoldable pub normalize_known_type : NodeKind → NodeKind
unfolding node_type_of_value
normalize_known_type (builtin t) = builtin t
normalize_known_type (text s) = kind_or s (node_type_of_value s)

-- `[^\s:]+` up to the end, `seen` once there was a character.
unfoldable pub names_rest : Bool → String → Bool
unfolding is_space
names_rest seen String.[] = seen
names_rest seen (String.◌∷◌ c s) =
    let rest = names_rest true s in if eqb (code c) b':' || is_space (code c) then false else rest

-- `[^\s:]+:[^\s:]+` up to the end.
unfoldable pub names_from : Bool → String → Bool
unfolding names_rest
names_from seen String.[] = false
names_from seen (String.◌∷◌ c s) =
    let rest = names_from true s in
    if eqb (code c) b':'
    then seen && names_rest false s
    else if is_space (code c)
    then false
    else rest

-- `_NAMESPACED_TYPE.fullmatch(s)`
unfoldable pub is_namespaced : String → Bool
unfolding names_from
is_namespaced s = names_from false s

pub record TypeRegistry : Type 0 where
  pub extensions : List String

pub data TypeError : Type 0 where
  not_namespaced unregistered : String → TypeError

-- `TypeRegistry.validate_extensions`
unfoldable pub validate_extensions : List String → Result TypeError Unit
unfolding is_namespaced
validate_extensions [] = ok tt
validate_extensions (e ∷ es) =
    raise_if (not (is_namespaced e)) (not_namespaced e) >> validate_extensions es

-- `TypeRegistry.assert_registered`
unfoldable pub assert_registered : TypeRegistry → NodeKind → Result TypeError Unit
unfolding kind_value is_namespaced
assert_registered registry kind =
    let value = kind_value kind in
    if is_some (node_type_of_value value)
    then ok tt
    else raise_if (not (is_namespaced value)) (not_namespaced value)
      >> raise_if (not (elem value registry.extensions)) (unregistered value)
