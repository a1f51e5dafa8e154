-- ===== src/Kafka/Fields/Chosen.antt =====
-- Which fields reader_modules/mod_kafka/kafka_data_config.go chooses, and what
-- reader_modules/mod_kafka/json_converter.go writes for them.
use log_reader.Prelude.{
  String, Bool, true, false, not, ◌&&◌, ◌||◌, List, [], ◌∷◌, Option, none, some, ◌≡◌, refl, ap, ◌∙◌,
  str_eq, if◌then◌else◌, lookup, insert, lookup-insert, map, arith, Bool-cases, inl, inr, eq_iff,
}
use log_reader.Fields.Types.{FieldDef}
use log_reader.Fields.Log.{BfeLog}
use log_reader.Fields.Registry.{
  FieldRegistry, default_fields, required_fields, all_fields, is_valid_field, extract,
}
use log_reader.Fields.Names.{contains}
use log_reader.Kafka.Fields.{
  ConfKafkaFields, OutputFields, add_all, add_customized, resolve_fields, object_of,
}

abbrev pub is_found {ℓ} : {A : Type ℓ} → Option A → Bool
is_found none = false
is_found (some a) = true

abbrev pub in_set : String → OutputFields → Bool
in_set name set = is_found (lookup name set)

in_set-insert :
    (name other : String) (set : OutputFields)
    → in_set other (insert name true set) ≡ (str_eq name other || in_set other set)
in_set-insert name other set =
    ap is_found (lookup-insert name other true set) ∙ go (str_eq name other)
  where
    go : (b : Bool) → is_found (if b then some true else lookup other set) ≡ (b || in_set other set)
    go true = refl
    go false = refl

in_set-add_all :
    (other : String) (names : List String) (set : OutputFields)
    → in_set other (add_all names set) ≡ (contains other names || in_set other set)
in_set-add_all other [] set = refl
in_set-add_all other (name ∷ names) set =
    in_set-add_all other names (insert name true set)
    ∙ rw (in_set-insert name other set) (ground arith)

module _ (reg : FieldRegistry) where
  -- A name is one of the list, not empty, and registered.
  abbrev pub listed : String → List String → Bool
  listed other [] = false
  listed other (name ∷ names) =
      (str_eq name other && (not (str_eq name "") && is_valid_field reg name)) || listed other names

  in_set-add_customized :
      (other : String) (names : List String) (set : OutputFields)
      → in_set other (add_customized reg names set) ≡ (listed other names || in_set other set)
  unfolding add_customized
  in_set-add_customized other [] set = refl
  in_set-add_customized other (name ∷ names) set =
      go (str_eq name "") (is_valid_field reg name) (in_set-add_customized other names set) (
        in_set-add_customized other names (insert name true set)
        ∙ ap (λ b. listed other names || b) (in_set-insert name other set))
    where
      go :
          (e v : Bool)
          → in_set other (add_customized reg names set) ≡ (listed other names || in_set other set)
          → in_set other (add_customized reg names (insert name true set))
            ≡ (listed other names || (str_eq name other || in_set other set))
          → in_set other (
              if e
              then add_customized reg names set
              else if not v
              then add_customized reg names set
              else add_customized reg names (insert name true set))
            ≡ (((str_eq name other && (not e && v)) || listed other names) || in_set other set)
      go true v p q = p ∙ ground arith
      go false true p q = q ∙ ground arith
      go false false p q = p ∙ ground arith

  -- The names that a mode adds to the required ones; an empty or unknown mode adds the defaults.
  abbrev pub by_mode : ConfKafkaFields → String → Bool
  by_mode c name =
      if str_eq c.field_mode "require"
      then false
      else if str_eq c.field_mode "all"
      then contains name (map (λ (d : FieldDef). d.name) (all_fields reg))
      else if str_eq c.field_mode "customized"
      then listed name c.field_names
      else contains name (default_fields reg)

  -- A field is in the set that `ResolveFields` returns if and only if it is required or its mode adds
  -- it: "all" adds every registered field, "customized" the listed names that are registered and not
  -- empty, "require" none, and any other mode, the empty one included, the default fields.
  pub resolve_fields-by_mode :
      (c : ConfKafkaFields) (name : String)
      → in_set name (resolve_fields reg c) ≡ (contains name (required_fields reg) || by_mode c name)
  unfolding resolve_fields
  resolve_fields-by_mode c name =
      let m : String = c.field_mode in
      elim (Bool-cases (str_eq m "")) [
        | inl e ↦ rw ((eq_iff m "").0 e) (added (default_fields reg))
        | inr e ↦ elim (Bool-cases (str_eq m "require")) [
          | inl r ↦ rw (e, r) (in_set-add_all name (required_fields reg) [])
          | inr r ↦ elim (Bool-cases (str_eq m "default")) [
            | inl d ↦ rw ((eq_iff m "default").0 d) (added (default_fields reg))
            | inr d ↦ elim (Bool-cases (str_eq m "all")) [
              | inl a ↦ rw (e, r, d, a) (added (map (λ (d : FieldDef). d.name) (all_fields reg)))
              | inr a ↦ elim (Bool-cases (str_eq m "customized")) [
                | inl u ↦
                    rw (e, r, d, a, u)
                      (with_base _ _ (in_set-add_customized name c.field_names base))
                | inr u ↦ rw (e, r, d, a, u) (added (default_fields reg))
              ]
            ]
          ]
        ]
      ]
    where
      base : OutputFields
      base = add_all (required_fields reg) []

      with_base :
          (b x : Bool)
          → b ≡ (x || in_set name base)
          → b ≡ (contains name (required_fields reg) || x)
      with_base b x e = e ∙ rw (in_set-add_all name (required_fields reg) []) (ground arith)

      added :
          (names : List String)
          → in_set name (add_all names base)
            ≡ (contains name (required_fields reg) || contains name names)
      added names = with_base _ _ (in_set-add_all name names base)

  lookup-object_of :
      (log : BfeLog) (name : String) (set : OutputFields)
      → lookup name (object_of reg log set)
        ≡ (if in_set name set then some (extract reg name log).0 else none)
  unfolding object_of
  lookup-object_of log name [] = refl
  lookup-object_of log name ((n, b) ∷ set) = elim (Bool-cases (str_eq n name)) [
    | inl e ↦ rw (e, (eq_iff n name).0 e) refl
    | inr e ↦ rw e (lookup-object_of log name set)
  ]

  -- The object that is marshalled for a record has a key for a field if and only if the field is
  -- required or the mode adds it, and the value there is the one that the registry extracts from this
  -- record.
  pub object_of-resolve_fields :
      (c : ConfKafkaFields) (log : BfeLog) (name : String)
      → lookup name (object_of reg log (resolve_fields reg c)) ≡ (
          if contains name (required_fields reg) || by_mode c name
          then some (extract reg name log).0
          else none)
  object_of-resolve_fields c log name =
      lookup-object_of log name (resolve_fields reg c)
      ∙ ap (λ b. if b then some (extract reg name log).0 else none) (resolve_fields-by_mode c name)
