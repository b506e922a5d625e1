-- ===== src/Examples/Tree.antt =====
-- A concrete serde_json `Value` for the examples: trees with the operations that the code calls.
use pulse_cutover.Prelude.{
  ℕ, String, Bool, true, false, ◌&&◌, Option, none, some, List, [], ◌∷◌, nat_eq, ◌==◌,
  if◌then◌else◌, unwrap_or,
}
use pulse_cutover.Json.{Json}

mutual
  pub data Tree : Type 0 where
    nil : Tree
    flag : Bool → Tree
    num : ℕ → Tree
    str : String → Tree
    arr : Items → Tree
    obj : Fields → Tree

  pub data Items : Type 0 where
    end : Items
    item : Tree → Items → Items

  pub data Fields : Type 0 where
    stop : Fields
    field : String → Tree → Fields → Fields

abbrev same_flag : Bool → Bool → Bool
same_flag true b = b
same_flag false true = false
same_flag false false = true

unfoldable mutual
  pub same_tree : Tree → Tree → Bool
  same_tree nil nil = true
  same_tree (flag a) (flag b) = same_flag a b
  same_tree (num a) (num b) = nat_eq a b
  same_tree (str a) (str b) = a == b
  same_tree (arr a) (arr b) = same_items a b
  same_tree (obj a) (obj b) = same_fields a b
  same_tree _ _ = false

  same_items : Items → Items → Bool
  same_items end end = true
  same_items (item a vs) (item b ws) = same_tree a b && same_items vs ws
  same_items _ _ = false

  same_fields : Fields → Fields → Bool
  same_fields stop stop = true
  same_fields (field j a vs) (field k b ws) = (j == k) && (same_tree a b && same_fields vs ws)
  same_fields _ _ = false

abbrev pub field_of : Fields → String → Option Tree
field_of stop k = none
field_of (field j v fs) k = if j == k then some v else field_of fs k

abbrev pub put : Fields → String → Tree → Fields
put stop k x = field k x stop
put (field j v fs) k x = if j == k then field j x fs else field j v (put fs k x)

abbrev pub to_list : Items → List Tree
to_list end = []
to_list (item v vs) = v ∷ to_list vs

abbrev pub to_items : List Tree → Items
to_items [] = end
to_items (v ∷ vs) = item v (to_items vs)

abbrev pub get_tree : Tree → String → Option Tree
get_tree (obj fs) k = field_of fs k
get_tree _ k = none

abbrev pub tree_str : Tree → Option String
tree_str (str s) = some s
tree_str _ = none

abbrev pub tree_num : Tree → Option ℕ
tree_num (num n) = some n
tree_num _ = none

abbrev pub tree_flag : Tree → Option Bool
tree_flag (flag b) = some b
tree_flag _ = none

abbrev pub tree_items : Tree → Option (List Tree)
tree_items (arr vs) = some (to_list vs)
tree_items _ = none

abbrev pub is_nil : Tree → Bool
is_nil nil = true
is_nil _ = false

abbrev pub is_obj : Tree → Bool
is_obj (obj fs) = true
is_obj _ = false

abbrev pub assign_tree : Tree → String → Tree → Tree
assign_tree (obj fs) k x = obj (put fs k x)
assign_tree v k x = obj (field k x stop)

abbrev pub with_fields : Fields → List (String × Tree) → Fields
with_fields acc [] = acc
with_fields acc ((k, v) ∷ fs) = with_fields (put acc k v) fs

instance abbrev pub tree_json : Json
tree_json = record {
  Value = Tree;
  null = nil;
  index = λ v k. unwrap_or (get_tree v k) nil;
  get = get_tree;
  as_str = tree_str;
  as_u64 = tree_num;
  as_bool = tree_flag;
  as_array = tree_items;
  is_null = is_nil;
  is_object = is_obj;
  same = same_tree;
  text = str;
  array = λ vs. arr (to_items vs);
  assign = assign_tree;
  flag = flag;
  number = num;
  object = λ fs. obj (with_fields stop fs);
}
