-- ===== src/Monitor/Labelled.antt =====
-- The labels as a map.
use nesquic.Prelude.{
  ◌∷◌, List, none, if◌then◌else◌, some, [], ◌≡◌, Bool-cases, inl, inr, ◌∙◌, ap, refl, ok, Returns,
  sym, Bool, Option, true, false,
}
use nesquic.Text.{Text, eq_text, eq_text_iff, codes}
use nesquic.Labels.{Labels, insert_label, or_else, no_labels, parse_labels, extend, collect}
use nesquic.Labels.Override.{last_value, or_else-none, last_value-cons, extend-collect}
use nesquic.Metrics.Push.{insert_tag}
use nesquic.Monitor.Options.{insert_all, labels, Cli, unwrap_or_empty}

-- The map that entries stand for.
unfoldable pub lookup : List (Text × Text) → Labels
lookup [] key = none
lookup ((k, v) ∷ entries) key =
    let rest = lookup entries key in if eq_text key k then some v else rest

lookup-insert_tag :
    (k v : Text) (entries : List (Text × Text)) (key : Text)
    → lookup (insert_tag k v entries) key ≡ insert_label k v (lookup entries) key
unfolding lookup insert_tag insert_label
lookup-insert_tag k v [] key = refl
lookup-insert_tag k v ((k', v') ∷ entries) key = elim (Bool-cases (eq_text k' k)) [
  | inl same ↦ rw same (
      rw⁻¹ ((eq_text_iff k' k).0 same) (elim (Bool-cases (eq_text key k')) [
        | inl asked ↦ rw asked refl
        | inr another ↦ rw another refl
      ]))
  | inr differs ↦ rw differs (elim (Bool-cases (eq_text key k')) [
    | inl asked ↦ rw ((eq_text_iff key k').0 asked) (rw (differs, (eq_text_iff k' k').1 refl) refl)
    | inr another ↦ rw another (lookup-insert_tag k v entries key)
  ])
]

-- No key has two entries.
unfoldable pub HasDistinctKeys : List (Text × Text) → Type 0
HasDistinctKeys [] = Unit
HasDistinctKeys ((k, v) ∷ entries) = (lookup entries k ≡ none) × HasDistinctKeys entries

insert_tag-HasDistinctKeys :
    (k v : Text) (entries : List (Text × Text))
    → HasDistinctKeys entries
    → HasDistinctKeys (insert_tag k v entries)
unfolding HasDistinctKeys insert_tag lookup insert_label
insert_tag-HasDistinctKeys k v [] h = (refl, tt)
insert_tag-HasDistinctKeys k v ((k', v') ∷ entries) (fresh, h) = elim (Bool-cases (eq_text k' k)) [
  | inl same ↦ rw same (fresh, h)
  | inr differs ↦ rw differs (
    lookup-insert_tag k v entries k' ∙ rw differs fresh,
    insert_tag-HasDistinctKeys k v entries h,
  )
]

insert_all-HasDistinctKeys :
    (pairs entries : List (Text × Text))
    → HasDistinctKeys entries
    → HasDistinctKeys (insert_all pairs entries)
unfolding insert_all
insert_all-HasDistinctKeys [] entries h = h
insert_all-HasDistinctKeys ((k, v) ∷ pairs) entries h =
    insert_all-HasDistinctKeys pairs (insert_tag k v entries)
      (insert_tag-HasDistinctKeys k v entries h)

last_value-lookup :
    (entries : List (Text × Text)) (key : Text)
    → HasDistinctKeys entries
    → last_value key entries ≡ lookup entries key
unfolding last_value lookup HasDistinctKeys
last_value-lookup [] key h = refl
last_value-lookup ((k, v) ∷ entries) key (fresh, h) =
    sym (or_else-none _)
    ∙ sym (last_value-cons k v entries key none)
    ∙ ap (λ (o : Option Text). or_else o (if eq_text key k then some v else none))
        (last_value-lookup entries key h)
    ∙ asked (eq_text key k) refl
  where
    asked :
        (b : Bool)
        → eq_text key k ≡ b
        → or_else (lookup entries key) (if b then some v else none)
          ≡ (if b then some v else lookup entries key)
    asked true same =
        let missing : lookup entries key ≡ none = rw ((eq_text_iff key k).0 same) fresh in
        rw missing refl
    asked false other = or_else-none (lookup entries key)

lookup-insert_all :
    (pairs entries : List (Text × Text)) (key : Text)
    → lookup (insert_all pairs entries) key ≡ or_else (last_value key pairs) (lookup entries key)
unfolding insert_all last_value insert_label
lookup-insert_all [] entries key = refl
lookup-insert_all ((k, v) ∷ pairs) entries key =
    lookup-insert_all pairs (insert_tag k v entries) key
    ∙ ap (or_else (last_value key pairs)) (lookup-insert_tag k v entries key)
    ∙ last_value-cons k v pairs key (lookup entries key)

-- The labels that the program sets itself.
unfoldable pub own_labels : Text → Text → Labels
own_labels log_level version =
    insert_label (codes "version") version (insert_label (codes "log_level") log_level no_labels)

-- When the labels of the command line parse, the entries of the monitor have each key once and stand
-- for the map in which the labels of the command line, collected, extend the log level and the
-- version.
pub labels-extend :
    (log_level version : Text) (cli : Cli) (pairs : List (Text × Text))
    → parse_labels (unwrap_or_empty cli.labels) ≡ ok pairs
    → Returns (labels log_level version cli) (λ entries.
      HasDistinctKeys entries
      × ((key : Text)
          → lookup entries key ≡ extend (own_labels log_level version) (collect pairs) key))
unfolding labels own_labels HasDistinctKeys lookup
labels-extend log_level version cli pairs parsed = rw parsed (
  insert_all-HasDistinctKeys given own
      (insert_tag-HasDistinctKeys _ _ inner (insert_tag-HasDistinctKeys _ _ [] tt)),
  λ key.
      lookup-insert_all given own key
      ∙ ap (λ o. or_else o (lookup own key)) (given_last key)
      ∙ ap (or_else (last_value key pairs)) (own_lookup key)
      ∙ sym (extend-collect (own_labels log_level version) pairs key),
)
  where
    inner : List (Text × Text)
    inner = insert_tag (codes "log_level") log_level []

    own : List (Text × Text)
    own = insert_tag (codes "version") version inner

    given : List (Text × Text)
    given = insert_all pairs []

    given_last : (key : Text) → last_value key given ≡ last_value key pairs
    given_last key =
        last_value-lookup given key (insert_all-HasDistinctKeys pairs [] tt)
        ∙ lookup-insert_all pairs [] key
        ∙ or_else-none (last_value key pairs)

    own_lookup : (key : Text) → lookup own key ≡ own_labels log_level version key
    own_lookup key = lookup-insert_tag (codes "version") version inner key ∙ (λ i.
        insert_label (codes "version") version
          (λ other. lookup-insert_tag (codes "log_level") log_level [] other i) key)
