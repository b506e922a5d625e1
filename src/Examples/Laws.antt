-- ===== src/Examples/Laws.antt =====
-- The concrete `Value` and the laws of `JsonLaws`.
use pulse_cutover.Prelude.{
  ◌≡◌, ◌≢◌, refl, sym, ◌∙◌, ap, String, true, false, ◌||◌, none, some, List, [], ◌∷◌, ◌==◌, eq_iff,
  Bool-cases, inl, inr, unwrap_or, or_else, then_some, subst, Option, ◌⊎◌,
}
use pulse_cutover.Json.{JsonLaws, BuildLaws, entry}
use pulse_cutover.Examples.Tree.{
  Tree, nil, flag, num, str, arr, obj, Fields, stop, field, field_of, put, to_list, to_items,
  tree_json, tree_str, with_fields, is_nil, is_obj, assign_tree, get_tree,
}

field_of-put_self : (fs : Fields) (k : String) (x : Tree) → field_of (put fs k x) k ≡ some x
field_of-put_self stop k x = rw ((eq_iff k k).1 refl) refl
field_of-put_self (field j v fs) k x = elim (Bool-cases (j == k)) [
  | inl e ↦ rw (e, put, field_of) (rw e refl)
  | inr e ↦ rw (e, put, field_of) (rw e (field_of-put_self fs k x))
]

differs : (i j : String) → i ≢ j → i == j ≡ false
differs i j d = elim (Bool-cases (i == j)) [ inl e ↦ absurd (d ((eq_iff i j).0 e)) | inr e ↦ e ]

field_of-put_ne :
    (fs : Fields) (j k : String) (x : Tree) → j ≢ k → field_of (put fs k x) j ≡ field_of fs j
field_of-put_ne stop j k x d = rw (differs k j (λ p. d (sym p))) refl
field_of-put_ne (field i v fs) j k x d = elim (Bool-cases (i == k)) [
  | inl e ↦
      let n : i == j ≡ false = differs i j (λ p. d (sym p ∙ (eq_iff i k).0 e)) in
      rw (e, put, field_of, n) refl
  | inr e ↦ elim (Bool-cases (i == j)) [
    | inl f ↦ rw (e, put, field_of, f) refl
    | inr f ↦ rw (e, put, field_of, f) (field_of-put_ne fs j k x d)
  ]
]

to_list-to_items : (vs : List Tree) → to_list (to_items vs) ≡ vs
to_list-to_items [] = refl
to_list-to_items (v ∷ vs) = ap (λ ws. v ∷ ws) (to_list-to_items vs)

assign_self :
    (v x : Tree) (k : String)
    → (is_obj v || is_nil v) ≡ true
    → unwrap_or (get_tree (assign_tree v k x) k) nil ≡ x
assign_self (obj fs) x k o = ap (λ t. unwrap_or t nil) (field_of-put_self fs k x)
assign_self nil x k o = ap (λ t. unwrap_or t nil) (field_of-put_self stop k x)
assign_self (flag b) x k o = cc
assign_self (num n) x k o = cc
assign_self (str s) x k o = cc
assign_self (arr vs) x k o = cc

assign_ne :
    (v x : Tree) (j k : String)
    → (is_obj v || is_nil v) ≡ true
    → j ≢ k
    → unwrap_or (get_tree (assign_tree v k x) j) nil ≡ unwrap_or (get_tree v j) nil
assign_ne (obj fs) x j k o d = ap (λ t. unwrap_or t nil) (field_of-put_ne fs j k x d)
assign_ne nil x j k o d = ap (λ t. unwrap_or t nil) (field_of-put_ne stop j k x d)
assign_ne (flag b) x j k o d = cc
assign_ne (num n) x j k o d = cc
assign_ne (str s) x j k o d = cc
assign_ne (arr vs) x j k o d = cc

assign_object :
    (v x : Tree) (k : String) → (is_obj v || is_nil v) ≡ true → is_obj (assign_tree v k x) ≡ true
assign_object (obj fs) x k o = refl
assign_object nil x k o = refl
assign_object (flag b) x k o = refl
assign_object (num n) x k o = refl
assign_object (str s) x k o = refl
assign_object (arr vs) x k o = refl

no_entries : (v : Tree) (k : String) → is_obj v ≡ false → unwrap_or (get_tree v k) nil ≡ nil
no_entries (obj fs) k o = cc
no_entries nil k o = refl
no_entries (flag b) k o = refl
no_entries (num n) k o = refl
no_entries (str s) k o = refl
no_entries (arr vs) k o = refl

object_not_nil : (v : Tree) → is_obj v ≡ true → is_nil v ≡ false
object_not_nil (obj fs) o = refl
object_not_nil nil o = cc
object_not_nil (flag b) o = refl
object_not_nil (num n) o = refl
object_not_nil (str s) o = refl
object_not_nil (arr vs) o = refl

nil_no_text : (v : Tree) → is_nil v ≡ true → tree_str v ≡ none
nil_no_text (obj fs) o = refl
nil_no_text nil o = refl
nil_no_text (flag b) o = refl
nil_no_text (num n) o = refl
nil_no_text (str s) o = cc
nil_no_text (arr vs) o = refl

pub tree_laws : JsonLaws tree_json
tree_laws = record {
  index-assign_self = assign_self;
  index-assign_ne = assign_ne;
  is_object-assign = assign_object;
  index_no_object = no_entries;
  null_no_object = refl;
  object_not_null = object_not_nil;
  as_str-null = refl;
  as_u64-null = refl;
  as_bool-null = refl;
  as_array-null = refl;
  as_str-is_null = nil_no_text;
  as_str-text = λ s. refl;
  as_array-array = λ vs. ap some (to_list-to_items vs);
}

field_of-with_fields :
    (acc : Fields) (fs : List (String × Tree)) (k : String)
    → field_of (with_fields acc fs) k ≡ or_else (entry fs k) (field_of acc k)
unfolding entry
field_of-with_fields acc [] k = refl
field_of-with_fields acc ((j, v) ∷ fs) k =
    field_of-with_fields (put acc j v) fs k ∙ put_entry (entry fs k) (Bool-cases (j == k))
  where
    put_entry :
        (o : Option Tree)
        → (j == k ≡ true) ⊎ (j == k ≡ false)
        → or_else o (field_of (put acc j v) k)
          ≡ or_else (or_else o (then_some (j == k) v)) (field_of acc k)
    put_entry (some x) c = refl
    put_entry none (inl e) = rw e (
        subst (λ i. field_of (put acc i v) k ≡ some v) (sym ((eq_iff j k).0 e))
          (field_of-put_self acc k v))
    put_entry none (inr e) = rw e (field_of-put_ne acc k j v (λ p. cc (e, (eq_iff j k).1 (sym p))))

or_else-none : (o : Option Tree) → or_else o none ≡ o
or_else-none none = refl
or_else-none (some x) = refl

pub tree_builds : BuildLaws tree_json
tree_builds = record {
  get-object = λ fs k. field_of-with_fields stop fs k ∙ or_else-none (entry fs k);
  is_object-object = λ fs. refl;
  as_bool-flag = λ b. refl;
  as_u64-number = λ n. refl;
  as_str-built = λ s. refl;
  as_array-built = λ vs. ap some (to_list-to_items vs);
}
