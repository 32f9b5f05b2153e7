-- ===== src/Validation/Tags.antt =====
-- The loop of `ValidateNameEvent` over the tags, in terms of the values of each key.
use dnn_node.Base.{
  ◌≡◌, refl, Bool, true, false, ◌&&◌, ◌||◌, List, [], ◌∷◌, ◌++◌, append_assoc, append-nil, arith,
  if◌then◌else◌,
}
use dnn_node.Base.Bytes.{Bytes, codes, bytes_eq}
use dnn_node.Nostr.{has_dnn_tag}
use dnn_node.Validation.{NameTags, set_o, set_n, set_d, set_dnn, scan_name_tags}

-- The values of the tags with a key, in order.
abbrev pub values : Bytes → List (List Bytes) → List Bytes
values k [] = []
values k ([] ∷ tags) = values k tags
values k ((key ∷ []) ∷ tags) = values k tags
values k ((key ∷ value ∷ rest) ∷ tags) =
    if bytes_eq key k then value ∷ values k tags else values k tags

-- The value of the last tag with a key, or `d` without one.
abbrev pub last_value : Bytes → List (List Bytes) → Bytes → Bytes
last_value k [] d = d
last_value k ([] ∷ tags) d = last_value k tags d
last_value k ((key ∷ []) ∷ tags) d = last_value k tags d
last_value k ((key ∷ value ∷ rest) ∷ tags) d =
    last_value k tags (if bytes_eq key k then value else d)

others_round :
    (b : Bool) (xs ys : List Bytes) (value : Bytes)
    → (if b then xs ++ (value ∷ []) else xs) ++ ys ≡ xs ++ (if b then value ∷ ys else ys)
others_round true xs ys value = append_assoc xs (value ∷ []) ys
others_round false xs ys value = refl

or_round : (a b c : Bool) → ((if b then true else a) || c) ≡ (a || (b || c))
or_round a b c = ground arith

-- One tag, field by field.
set_fields :
    (key value : Bytes) (t : NameTags)
    → set_o key value (set_n key value (set_d key value (set_dnn key value t))) ≡ record {
      has_dnn_tag =
          if bytes_eq key (codes "t") && bytes_eq value (codes "DNN") then true else t.has_dnn_tag;
      d_tag = if bytes_eq key (codes "d") then value else t.d_tag;
      primary_name = if bytes_eq key (codes "n") then value else t.primary_name;
      other_names =
          if bytes_eq key (codes "o") then t.other_names ++ (value ∷ []) else t.other_names;
    }
set_fields key value t = ground arith

-- The loop over the tags: the DNN mark, the last `d` and `n`, and every `o`.
pub scan_name_tags_lem :
    (tags : List (List Bytes)) (t : NameTags)
    → scan_name_tags tags t ≡ record {
      has_dnn_tag = t.has_dnn_tag || has_dnn_tag tags;
      d_tag = last_value (codes "d") tags t.d_tag;
      primary_name = last_value (codes "n") tags t.primary_name;
      other_names = t.other_names ++ values (codes "o") tags;
    }
unfolding scan_name_tags
scan_name_tags_lem [] t = ground (arith, append-nil t.other_names)
scan_name_tags_lem ([] ∷ tags) t = scan_name_tags_lem tags t
scan_name_tags_lem ((key ∷ []) ∷ tags) t = scan_name_tags_lem tags t
scan_name_tags_lem ((key ∷ value ∷ rest) ∷ tags) t =
    let dnn = bytes_eq key (codes "t") && bytes_eq value (codes "DNN") in
    let other = bytes_eq key (codes "o") in
    rw (
      set_fields key value t,
      scan_name_tags_lem tags _,
      or_round t.has_dnn_tag dnn (has_dnn_tag tags),
      others_round other t.other_names (values (codes "o") tags) value,
    )
