-- ===== src/Fleet/Foreign.antt =====
-- src/fleet.rs: `drop_foreign_ceremonies` and `annotate_evidence`, which rewrite the relay's document
-- before the fleet decisions read it. `none` is a panic: a mutable index into a value that is neither
-- an object nor null. An index that adds a null entry for a missing key is not told apart from none.
pub mod Safety
pub mod Rewrites
pub mod Document
use pulse_cutover.Prelude.{
  ℕ, ◌+◌, String, Bool, not, ◌||◌, Option, none, some, List, [], ◌∷◌, if◌then◌else◌, nat_eq,
  is_none, is_some_and, unwrap_or, and_then, map_option, filter,
}
use pulse_cutover.Json.{Json}
use pulse_cutover.Fleet.Reports.{past_create, is_text, is_num}

-- A loop that changes each element and counts; a panic ends it.
unfoldable pub each : {A : Type 0} → (A → Option (A × ℕ)) → List A → Option (List A × ℕ)
each f [] = some ([], 0)
each f (x ∷ xs) =
    and_then (f x)
      λ (r : _ × ℕ). map_option (λ (s : List _ × ℕ). (r.0 ∷ s.0, r.1 + s.1)) (each f xs)

module _ ⦃J : Json⦄ where
  open J use {Value, null, index, as_str, as_u64, as_array, is_null, is_object, text, array, assign}

  abbrev pub indexable : Value → Bool
  indexable v = is_object v || is_null v

  -- `v["key"]` changed in place.
  abbrev pub at_key : String → (Value → Option (Value × ℕ)) → Value → Option (Value × ℕ)
  at_key key f v =
      if indexable v
      then map_option (λ (r : Value × ℕ). (assign v key r.0, r.1)) (f (index v key))
      else none

  -- The array at `key` changed element by element; anything else is left.
  abbrev pub at_array : String → (Value → Option (Value × ℕ)) → Value → Option (Value × ℕ)
  at_array key f v =
      at_key key
        (λ a. elim (as_array a) [
          | none ↦ some (a, 0)
          | some xs ↦ map_option (λ (r : List Value × ℕ). (array r.0, r.1)) (each f xs)
        ])
        v

  -- The H that a report's journal was armed for is another one.
  unfoldable pub is_foreign : ℕ → Value → Bool
  is_foreign h r =
      is_some_and (as_u64 (index (index (index r "ceremony") "evidence") "h"))
        (λ j. not (nat_eq j h))

  abbrev pub past_text : Value → Value
  past_text r = text (unwrap_or (as_str (index (index r "ceremony") "state")) "past creation")

  -- A foreign report loses its ceremony; that it was past creation is kept.
  unfoldable pub fix : ℕ → Value → Value × ℕ
  unfolding is_foreign
  fix h r =
      if is_foreign h r
      then (
        assign (if past_create r then assign r "foreign_past_create" (past_text r) else r)
            "ceremony" null,
        1,
      )
      else (r, 0)

  unfoldable pub fix_producer : ℕ → Value → Option (Value × ℕ)
  unfolding fix each
  fix_producer h p =
      and_then (at_array "beacons" (at_key "report" (λ r. some (fix h r))) p) λ (a : Value × ℕ).
        if is_object (index a.0 "report")
        then map_option (λ (b : Value × ℕ). (b.0, a.1 + b.1))
            (at_key "report" (λ r. some (fix h r)) a.0)
        else some a

  -- The producers of the network entries with the id.
  unfoldable pub in_network : String → (Value → Option (Value × ℕ)) → Value → Option (Value × ℕ)
  unfolding each
  in_network network f n =
      if is_text (as_str (index n "id")) network then at_array "producers" f n else some (n, 0)

  -- The document without foreign ceremonies, and how many were dropped.
  unfoldable pub drop_foreign_ceremonies : Value → String → ℕ → Option (Value × ℕ)
  unfolding in_network fix_producer each
  drop_foreign_ceremonies status network h =
      at_array "networks" (in_network network (fix_producer h)) status

  -- An observation blocks a resume for the event and the H.
  unfoldable pub blocks : Option String → ℕ → Value → Bool
  blocks event h o =
      let oe = as_str (index o "event_id") in
      let oh = as_u64 (index o "h") in
      is_some_and event (is_text oe) || is_num oh h || is_none oh || is_none oe

  unfoldable pub annotate_log : Option String → ℕ → Value → Value
  unfolding blocks
  annotate_log event h log = elim (as_array (index log "obs")) [
    | none ↦ log
    | some obs ↦ assign log "blocking" (array (filter obs (blocks event h)))
  ]

  unfoldable pub annotate_evidence : Value → String → Option String → ℕ → Option Value
  unfolding in_network annotate_log each
  annotate_evidence status network event h =
      map_option (λ (r : Value × ℕ). r.0)
        (at_array "networks"
          (in_network network
            (at_key "creation_evidence" (λ log. some (annotate_log event h log, 0))))
          status)
