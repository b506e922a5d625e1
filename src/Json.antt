-- ===== src/Json.antt =====
-- serde_json's `Value`, which the program reads and does not implement: the operations that the code
-- calls, as a parameter of every definition that reads a document.
use pulse_cutover.Prelude.{
  ℕ, ◌≡◌, ◌≢◌, String, Bool, true, false, ◌||◌, Option, none, some, List, [], ◌∷◌, ◌==◌, or_else,
  then_some,
}

pub record Json : Type 1 where
  pub Value : Type 0
  pub null : Value
  -- `v["k"]`, which is null for a missing key or a value that is no object.
  pub index : Value → String → Value
  -- `v.get("k")`.
  pub get : Value → String → Option Value
  pub as_str : Value → Option String
  pub as_u64 : Value → Option ℕ
  pub as_bool : Value → Option Bool
  pub as_array : Value → Option (List Value)
  pub is_null : Value → Bool
  pub is_object : Value → Bool
  -- `==` of two values.
  pub same : Value → Value → Bool
  -- `json!(s)` of a text, and `Value::Array`.
  pub text : String → Value
  pub array : List Value → Value
  -- `v["k"] = x` of an object.
  pub assign : Value → String → Value → Value
  -- `json!` of a flag, of a number, and of an object `{k: v, ...}`.
  pub flag : Bool → Value
  pub number : ℕ → Value
  pub object : List (String × Value) → Value

-- What serde_json documents of these operations, as far as the theorems use it.
module _ (J : Json) where
  open J use {
    Value, null, index, as_str, as_u64, as_bool, as_array, is_null, is_object, text, array, assign,
  }

  pub record JsonLaws : Type 0 where
    -- A mutable index takes an object, or null, which becomes one.
    pub index-assign_self :
        (v x : Value) (k : String) → (is_object v || is_null v) ≡ true → index (assign v k x) k ≡ x
    pub index-assign_ne :
        (v x : Value) (j k : String)
        → (is_object v || is_null v) ≡ true
        → j ≢ k
        → index (assign v k x) j ≡ index v j
    pub is_object-assign :
        (v x : Value) (k : String)
        → (is_object v || is_null v) ≡ true
        → is_object (assign v k x) ≡ true
    -- Only an object has entries.
    pub index_no_object : (v : Value) (k : String) → is_object v ≡ false → index v k ≡ null
    pub null_no_object : is_object null ≡ false
    pub object_not_null : (v : Value) → is_object v ≡ true → is_null v ≡ false
    pub as_str-null : as_str null ≡ none
    pub as_u64-null : as_u64 null ≡ none
    pub as_bool-null : as_bool null ≡ none
    pub as_array-null : as_array null ≡ none
    pub as_str-is_null : (v : Value) → is_null v ≡ true → as_str v ≡ none
    pub as_str-text : (s : String) → as_str (text s) ≡ some s
    pub as_array-array : (vs : List Value) → as_array (array vs) ≡ some vs

-- What an object literal has under a key: of two equal keys the later one counts.
unfoldable pub entry : {V : Type 0} → List (String × V) → String → Option V
entry [] k = none
entry ((j, v) ∷ fs) k = or_else (entry fs k) (then_some (j == k) v)

-- What serde_json documents of the values that `json!` builds.
pub record BuildLaws (J : Json) : Type 0 where
  pub get-object :
      (fs : List (String × Json.Value J)) (k : String)
      → Json.get J (Json.object J fs) k ≡ entry fs k
  pub is_object-object :
      (fs : List (String × Json.Value J)) → Json.is_object J (Json.object J fs) ≡ true
  pub as_bool-flag : (b : Bool) → Json.as_bool J (Json.flag J b) ≡ some b
  pub as_u64-number : (n : ℕ) → Json.as_u64 J (Json.number J n) ≡ some n
  pub as_str-built : (s : String) → Json.as_str J (Json.text J s) ≡ some s
  pub as_array-built : (vs : List (Json.Value J)) → Json.as_array J (Json.array J vs) ≡ some vs
