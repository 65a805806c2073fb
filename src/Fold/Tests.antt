-- ===== src/Fold/Tests.antt =====
-- The fold at a concrete body, over a small type of JSON values.
use llama_chip.Base.{
  Distinct, List, Option, Text, [], codes, map, none, ok, refl, some, ◌↔◌, ◌∷◌, ◌≡◌, ◌⊎◌,
}
use llama_chip.Fold.Defs.{
  Codec, Field, FoldState, Scan, at_end, fold_system_turns, not_object, parse_ordered, scanned,
}
use llama_chip.Fold.Bytes.{marshal}
use llama_chip.Fold.Body.{
  OnlyMessages, Untouched, field_keys, fold_system_turns-lem, parse_ordered_iff,
}

mutual
  -- A string, a list, or an object.
  pub data Json : Type 0 where
    word : Text → Json
    items object : Jsons → Json

  -- The members, with the keys that an object has.
  pub data Jsons : Type 0 where
    nothing : Jsons
    member : Text → Json → Jsons → Jsons

abbrev values_in : Jsons → List Json
values_in nothing = []
values_in (member k v js) = v ∷ values_in js

abbrev of_values : List Json → Jsons
of_values [] = nothing
of_values (v ∷ vs) = member [] v (of_values vs)

abbrev fields_in : Jsons → List (Field Json)
fields_in nothing = []
fields_in (member k v js) = record { key = k; val = v } ∷ fields_in js

abbrev pub of_fields : List (Field Json) → Jsons
of_fields [] = nothing
of_fields (f ∷ fs) = member f.key f.val (of_fields fs)

abbrev scan_of : Json → Scan Json
scan_of (object js) = scanned (fields_in js) at_end
scan_of _ = not_object

abbrev list_in : Json → Option (List Json)
list_in (items js) = some (values_in js)
list_in _ = none

abbrev text_in : Json → Option Text
text_in (word t) = some t
text_in _ = none

abbrev pub tree : Codec Json
tree = record {
  scan = scan_of;
  as_list = list_in;
  as_text = text_in;
  write_list = λ vs. items (of_values vs);
  write_object = λ fs. object (of_fields fs);
  text_block = λ t. object (member (codes "text") (word t) nothing);
  user_role = word (codes "user");
}

abbrev turn : Text → Text → List (Field Json)
turn role content =
    record { key = codes "role"; val = word role }
    ∷ record { key = codes "content"; val = word content }
    ∷ []

-- user, system, assistant.
abbrev talk : List (List (Field Json))
talk =
    turn (codes "user") (codes "a")
    ∷ turn (codes "system") (codes "b")
    ∷ turn (codes "assistant") (codes "c")
    ∷ []

abbrev block : Text → Json
block t = object (member (codes "text") (word t) nothing)

abbrev joined : List (Field Json)
joined =
    record { key = codes "role"; val = word (codes "user") }
    ∷ record {
      key = codes "content";
      val = items (of_values (block (codes "a") ∷ block (codes "b") ∷ []));
    }
    ∷ []

abbrev after_talk : FoldState tree
after_talk = record {
  out = joined ∷ turn (codes "assistant") (codes "c") ∷ [];
  pending = [];
  folded = 1;
}

abbrev body : Json
body = object (
    member (codes "model") (word (codes "qwen")) (
      member (codes "messages") (items (of_values (map (λ m. object (of_fields m)) talk))) nothing))

fold_system_turns-lem_example :
    Untouched tree body (fold_system_turns tree body)
    ⊎ OnlyMessages tree body (fold_system_turns tree body)
fold_system_turns-lem_example = fold_system_turns-lem tree body

parse_ordered_iff_example : (parse_ordered tree (object (of_fields joined)) ≡ ok joined) ↔ (
    (tree.scan (object (of_fields joined)) ≡ scanned joined at_end) × Distinct (field_keys joined))
parse_ordered_iff_example = parse_ordered_iff tree (object (of_fields joined)) joined

two_fields :
    marshal
      (λ k. k)
      (record { key = codes "a"; val = codes "1" }
        ∷ record { key = codes "b"; val = codes "2" }
        ∷ [])
    ≡ codes "{a:1,b:2}"
unfolding marshal
two_fields = refl
