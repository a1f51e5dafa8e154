-- ===== src/Mysql/Mapper/Tags.antt =====
-- The tag columns of reader_modules/mod_log_mysql/field_mapper.go, against the tags of the record
-- (`ai_apikeytags` of reader_modules/mod_fields/field_registry.go).
use mathlib.Core.List.{foldl}
use mathlib.Core.Bool.{beq}
use log_reader.Prelude.{
  upto, upto_sound, ℕ, zero, suc, ◌≤◌, String, Bool, true, false, not, ◌||◌, ◌≡◌, refl, ◌∙◌, ap,
  inl, inr, List, [], ◌∷◌, Option, none, some, ℤ, pos, negsuc, arith, ◌==◌, str_eq, if◌then◌else◌,
  lookup, insert, lookup-insert, le_const, lt_const, Bool-cases,
}
use log_reader.Fields.Log.{BfeLog, RequestLog, ApikeyTag}
use log_reader.Fields.Value.{Value, nil, object, ApikeyTagJson}
use log_reader.Fields.Extractors.{level_key, set_tag, no_tags, ai_apikeytags}
use log_reader.Mysql.Mapper.{non_empty, flatten_tag, tags_of}

-- The last tag of a record that has the given level.
abbrev pub has_level : ℕ → ℤ → Bool
has_level l lvl = elim lvl [ pos n ↦ n == l | _ ↦ false ]

abbrev pub last_tag : ℕ → List ApikeyTag → Option ApikeyTag
last_tag l [] = none
last_tag l (t ∷ ts) = elim (last_tag l ts) [
  | some u ↦ some u
  | none ↦ if has_level l t.taglevel then some t else none
]

abbrev pub tags : BfeLog → List ApikeyTag
tags log = elim log.request_log [ none ↦ [] | some r ↦ r.ai_apikeytags ]

-- The keys of two levels up to 5 are equal only if the levels are.
same_key : ℕ → ℕ → Bool
same_key n l = beq (str_eq (level_key (pos n)) (level_key (pos l))) (n == l)

keys_table : upto (λ n. upto (λ l. same_key n l) 5) 5 ≡ true
unfolding same_key level_key
keys_table = refl

keys_differ : (n l : ℕ) → n ≤ 5 → l ≤ 5 → str_eq (level_key (pos n)) (level_key (pos l)) ≡ (n == l)
unfolding same_key
keys_differ n l hn hl = go _ _ (
    upto_sound (same_key n) 5 l hl (upto_sound (λ x. upto (λ y. same_key x y) 5) 5 n hn keys_table))
  where
    go : (a b : Bool) → beq a b ≡ true → a ≡ b
    go a b e = ground arith

abbrev json_of : ApikeyTag → ApikeyTagJson
json_of t = record { tagname = t.tagname; tagvalue = t.tagvalue }

lookup-set_tag :
    (l : ℕ) (m : List (String × Option ApikeyTagJson)) (t : ApikeyTag)
    → 1 ≤ l
    → l ≤ 5
    → lookup (level_key (pos l)) (set_tag m t)
      ≡ (if has_level l t.taglevel then some (some (json_of t)) else lookup (level_key (pos l)) m)
unfolding set_tag
lookup-set_tag l m t h1 h5 = go t.taglevel
  where
    skip : ℤ → Bool
    skip lvl = lt_const lvl 1 || not (le_const lvl 5)

    go :
        (lvl : ℤ)
        → lookup
            (level_key (pos l))
            (if skip lvl then m else insert (level_key lvl) (some (json_of t)) m)
          ≡ (if has_level l lvl then some (some (json_of t)) else lookup (level_key (pos l)) m)
    go (negsuc n) = refl
    go (pos n) = elim (Bool-cases (skip (pos n))) [
      | inl s ↦ rw s (ground arith)
      | inr s ↦ rw s (
          lookup-insert (level_key (pos n)) (level_key (pos l)) (some (json_of t)) m
          ∙ rw (keys_differ n l (ground arith) h5))
    ]

abbrev tag_or : Option ApikeyTag → Option (Option ApikeyTagJson) → Option (Option ApikeyTagJson)
tag_or o d = elim o [ some t ↦ some (some (json_of t)) | none ↦ d ]

lookup-foldl :
    (l : ℕ) (ts : List ApikeyTag) (m : List (String × Option ApikeyTagJson))
    → 1 ≤ l
    → l ≤ 5
    → lookup (level_key (pos l)) (foldl set_tag m ts)
      ≡ tag_or (last_tag l ts) (lookup (level_key (pos l)) m)
lookup-foldl l [] m h1 h5 = refl
lookup-foldl l (t ∷ ts) m h1 h5 =
    lookup-foldl l ts (set_tag m t) h1 h5 ∙ rw (lookup-set_tag l m t h1 h5) (ground arith)

abbrev pub tag_cells : Option ApikeyTag → Value × Value
tag_cells o = elim o [ none ↦ (nil, nil) | some t ↦ (non_empty t.tagname, non_empty t.tagvalue) ]

no_tag : (l : ℕ) → 1 ≤ l → l ≤ 5 → lookup (level_key (pos l)) no_tags ≡ some none
unfolding level_key
no_tag zero h1 h5 = absurd (omega arith)
no_tag (suc zero) h1 h5 = refl
no_tag (suc (suc zero)) h1 h5 = refl
no_tag (suc (suc (suc zero))) h1 h5 = refl
no_tag (suc (suc (suc (suc zero)))) h1 h5 = refl
no_tag (suc (suc (suc (suc (suc zero))))) h1 h5 = refl
no_tag (suc (suc (suc (suc (suc (suc l)))))) h1 h5 = absurd (omega arith)

abbrev found_cells : Option (Option ApikeyTagJson) → Value × Value
found_cells o = elim o [
  | none ↦ (nil, nil)
  | some none ↦ (nil, nil)
  | some (some tag) ↦ (non_empty tag.tagname, non_empty tag.tagvalue)
]

flatten_tag_lem :
    (m : List (String × Option ApikeyTagJson)) (l : ℕ)
    → flatten_tag (some m) l ≡ found_cells (lookup (level_key (pos l)) m)
unfolding flatten_tag
flatten_tag_lem m l = refl

cells_of_last : (o : Option ApikeyTag) → found_cells (tag_or o (some none)) ≡ tag_cells o
cells_of_last none = refl
cells_of_last (some t) = refl

tags_lem : (log : BfeLog) → tags_of (ai_apikeytags log) ≡ some (foldl set_tag no_tags (tags log))
unfolding ai_apikeytags
tags_lem log = go log.request_log
  where
    go :
        (o : Option RequestLog)
        → tags_of (elim o [
          | none ↦ object no_tags
          | some r ↦ object (foldl set_tag no_tags r.ai_apikeytags)
        ])
          ≡ some (foldl set_tag no_tags (elim o [ none ↦ [] | some r ↦ r.ai_apikeytags ]))
    go none = refl
    go (some r) = refl

-- For each of the levels 1 to 5, the name and the value that `flattenTag` puts in a row are those of
-- the last tag of the record at that level, each NULL if it is empty, and both NULL if there is none.
pub flatten_tag-last :
    (log : BfeLog) (l : ℕ)
    → 1 ≤ l
    → l ≤ 5
    → flatten_tag (tags_of (ai_apikeytags log)) l ≡ tag_cells (last_tag l (tags log))
flatten_tag-last log l h1 h5 =
    ap (λ (o : Option (List (String × Option ApikeyTagJson))). flatten_tag o l) (tags_lem log)
    ∙ (flatten_tag_lem (foldl set_tag no_tags (tags log)) l
        ∙ (ap found_cells (lookup-foldl l (tags log) no_tags h1 h5)
            ∙ rw (no_tag l h1 h5) (cells_of_last (last_tag l (tags log)))))
