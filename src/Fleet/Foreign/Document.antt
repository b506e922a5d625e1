-- ===== src/Fleet/Foreign/Document.antt =====
-- src/fleet.rs, `drop_foreign_ceremonies` on a whole document.
use pulse_cutover.Prelude.{
  ℕ, ◌≡◌, ◌≢◌, refl, sym, ap, ◌∙◌, subst, String, Bool, true, Option, none, some, List, [], ◌∷◌,
  map, not, ◌&&◌, inl, inr, Bool-cases, Option-cases, find, map_or, is_empty, if◌then◌else◌,
}
use pulse_cutover.Json.{Json, JsonLaws}
use pulse_cutover.Fleet.Reports.{Beacon, beacons, beacon_of, producers, past_create, is_text}
use pulse_cutover.Fleet.Foreign.{
  at_key, at_array, fix, fix_producer, in_network, drop_foreign_ceremonies,
}
use pulse_cutover.Fleet.Foreign.Safety.{past_create-fix, fix-object, names_differ}
use pulse_cutover.Fleet.Foreign.Rewrites.{
  and_then-some, map_option-some, map-each, find-each, items, at_key-some, at_array-some, Changed,
}

map-map_or :
    {A B C : Type 0} (g : B → C) (f : A → B) (o : Option (List A))
    → map g (map_or [] (map f) o) ≡ map (λ a. g (f a)) (map_or [] (λ xs. xs) o)
map-map_or g f none = refl
map-map_or g f (some xs) = map-map g f xs
  where
    map-map :
        {A B C : Type 0} (g : B → C) (f : A → B) (xs : List A)
        → map g (map f xs) ≡ map (λ a. g (f a)) xs
    map-map g f [] = refl
    map-map g f (x ∷ xs) = ap (λ ys. g (f x) ∷ ys) (map-map g f xs)

is_empty-map : {A B : Type 0} (f : A → B) (xs : List A) → is_empty (map f xs) ≡ is_empty xs
is_empty-map f [] = refl
is_empty-map f (x ∷ xs) = refl

is_empty-map_or :
    {A B : Type 0} (f : A → B) (o : Option (List A))
    → is_empty (map_or [] (map f) o) ≡ is_empty (map_or [] (λ xs. xs) o)
is_empty-map_or f none = refl
is_empty-map_or f (some xs) = is_empty-map f xs

module _ ⦃J : Json⦄ where
  open J use {Value, index, as_str, as_array, is_null}

  -- Whether each report that the relay lists for a producer is past creation.
  abbrev pub pasts : Value → List Bool
  pasts p = map (λ b. past_create b.report) (beacons p)

  -- A producer by its name, and what its reports say of chain creation.
  abbrev pub past_facts : Value → Option String × List Bool
  past_facts p = (as_str (index p "name"), pasts p)

  abbrev past_of_report : Value → Bool
  past_of_report b = past_create (index b "report")

  listed : Value → List Bool
  listed p = map past_of_report (items "beacons" p)

  pasts_lem :
      (p : Value)
      → pasts p ≡ (
          if is_empty (items "beacons" p) && not (is_null (index p "report"))
          then past_of_report p ∷ []
          else listed p)
  unfolding beacons listed
  pasts_lem p =
      let e = is_empty-map_or beacon_of (as_array (index p "beacons")) in
      elim (Bool-cases (is_empty (items "beacons" p) && not (is_null (index p "report")))) [
        | inl t ↦ rw (e, t) refl
        | inr t ↦
            rw (e, t)
              (map-map_or (λ (b : Beacon). past_create b.report) beacon_of
                (as_array (index p "beacons")))
      ]

module _ ⦃J : Json⦄ (laws : JsonLaws J) (h : ℕ) where
  open J use {Value, index, as_str, as_array, is_null, is_object, assign}

  abbrev fix_report : Value → Option (Value × ℕ)
  fix_report r = some (fix h r)

  ap_first : {a b : Value × ℕ} → some a ≡ some b → a.0 ≡ b.0
  ap_first {a} {b} i = let q : a ≡ b = cc i in ap (λ (p : Value × ℕ). p.0) q

  -- The change of a value's `report` keeps its sign of chain creation, and the other entries.
  at_report :
      (v w : Value) (n : ℕ)
      → at_key "report" fix_report v ≡ some (w, n)
      → (past_of_report w ≡ past_of_report v)
        × ((j : String) → j ≢ "report" → index w j ≡ index v j)
        × (index w "report" ≡ (fix h (index v "report")).0)
  at_report v w n e =
      let (x, o, i, p) = at_key-some "report" fix_report v w n e in
      let q : index w "report" ≡ (fix h (index v "report")).0 =
        ap (λ y. index y "report") p ∙ laws.index-assign_self v x "report" o ∙ sym (ap_first i) in
      (
        ap past_create q ∙ past_create-fix laws h (index v "report"),
        λ j d. ap (λ y. index y j) p ∙ laws.index-assign_ne v x j "report" o d,
        q,
      )

  pasts-same :
      (p q : Value)
      → listed q ≡ listed p
      → past_of_report q ≡ past_of_report p
      → is_null (index q "report") ≡ is_null (index p "report")
      → pasts q ≡ pasts p
  unfolding listed
  pasts-same p q l r n =
      let e : is_empty (items "beacons" q) ≡ is_empty (items "beacons" p) =
        sym (is_empty-map past_of_report (items "beacons" q))
        ∙ ap is_empty l
        ∙ is_empty-map past_of_report (items "beacons" p) in
      pasts_lem q ∙ rw (e, r, n, l) refl ∙ sym (pasts_lem p)

  listed-Changed :
      (p q : Value) → Changed "beacons" (at_key "report" fix_report) p q → listed q ≡ listed p
  unfolding listed
  listed-Changed p q c = elim c.array_left [
    | inl same ↦ ap (map past_of_report) same
    | inr (k, i) ↦
        map-each (at_key "report" fix_report) past_of_report (λ x y n e. (at_report x y n e).0) _ _
          k i
  ]

  fix_producer-past_facts :
      (p q : Value) (n : ℕ) → fix_producer h p ≡ some (q, n) → past_facts q ≡ past_facts p
  unfolding fix_producer listed
  fix_producer-past_facts p q n e =
      let ((a, k), i, r) = and_then-some (at_array "beacons" (at_key "report" fix_report) p) _ e in
      let c = at_array-some laws "beacons" (at_key "report" fix_report) p a k i in
      let name = ap as_str (c.others "name" (names_differ refl)) in
      let report = c.others "report" (names_differ refl) in
      let l = listed-Changed p a c in
      elim (Bool-cases (is_object (index a "report"))) [
        | inl o ↦
            let ((b, m), j, s) = map_option-some _ (at_key "report" fix_report a) (rw o at r) in
            let t = at_report a b m j in
            let b_name = ap as_str (t.1 "name" (names_differ refl)) in
            let b_list : listed b ≡ listed a =
              ap (λ v. map past_of_report (map_or [] (λ xs. xs) (as_array v)))
                (t.1 "beacons" (names_differ refl)) in
            let pasts_eq = pasts-same p b (b_list ∙ l) (t.0 ∙ ap past_create report) (
              ap is_null t.2
              ∙ fix-object laws h (index a "report") o
              ∙ sym (laws.object_not_null _ o)
              ∙ ap is_null report) in
            subst (λ v. past_facts v ≡ past_facts p) (ap (λ (z : Value × ℕ). z.0) s)
              (cc (b_name ∙ name, pasts_eq))
        | inr o ↦
            let pasts_eq = pasts-same p a l (ap past_create report) (ap is_null report) in
            subst (λ v. past_facts v ≡ past_facts p) (ap_first (rw o at r)) (cc (name, pasts_eq))
      ]

  abbrev facts_in : Value → List (Option String × List Bool)
  facts_in n = map past_facts (items "producers" n)

  abbrev has_id : String → Value → Bool
  has_id network n = is_text (as_str (index n "id")) network

  in_network-facts :
      (network : String) (n m : Value) (k : ℕ)
      → in_network network (fix_producer h) n ≡ some (m, k)
      → (has_id network m ≡ has_id network n) × (has_id network n ≡ true → facts_in m ≡ facts_in n)
  unfolding in_network
  in_network-facts network n m k e = elim (Bool-cases (has_id network n)) [
    | inl t ↦
        let c = at_array-some laws "producers" (fix_producer h) n m k (rw t at e) in
        (
          ap (λ v. is_text (as_str v) network) (c.others "id" (names_differ refl)),
          λ u. elim c.array_left [
            | inl same ↦ ap (map past_facts) same
            | inr (l, i) ↦ map-each (fix_producer h) past_facts fix_producer-past_facts _ _ l i
          ],
        )
    | inr t ↦
        let same : n ≡ m = ap_first (rw t at e) in
        (ap (has_id network) (sym same), λ u. ap facts_in (sym same))
  ]

  facts-producers :
      (status : Value) (network : String)
      → map past_facts (producers status network)
        ≡ map_or [] facts_in (find (items "networks" status) (has_id network))
  unfolding producers
  facts-producers status network = elim (Option-cases (as_array (index status "networks"))) [
    | inl e ↦ rw e refl
    | inr (nets, e) ↦ elim (Option-cases (find nets (has_id network))) [
      | inl f ↦ rw (e, f) refl
      | inr (n, f) ↦ elim (Option-cases (as_array (index n "producers"))) [
        | inl g ↦ rw (e, f, g) refl
        | inr (ps, g) ↦ rw (e, f, g) refl
      ]
    ]
  ]

  -- Dropping the ceremonies for another H keeps every producer of the network, its name, and of each
  -- of its reports whether it is past chain creation.
  pub producers-drop_foreign_ceremonies :
      (status out : Value) (network : String) (dropped : ℕ)
      → drop_foreign_ceremonies status network h ≡ some (out, dropped)
      → map past_facts (producers out network) ≡ map past_facts (producers status network)
  unfolding drop_foreign_ceremonies
  producers-drop_foreign_ceremonies status out network dropped e =
      let c =
        at_array-some laws "networks" (in_network network (fix_producer h)) status out dropped e in
      facts-producers out network
      ∙ elim c.array_left [
        | inl same ↦ ap (λ ns. map_or [] facts_in (find ns (has_id network))) same
        | inr (k, i) ↦
            find-each (in_network network (fix_producer h)) (has_id network) facts_in []
              (in_network-facts network) _ _ k i
      ]
      ∙ sym (facts-producers status network)
