-- ===== src/Router/Tests.antt =====
-- The router at concrete inputs: a node whose rig serves nothing, with a roster of two others.
use llama_chip.Base.{
  Distinct, List, Option, Some, Text, [], codes, equal_fold, false, has_prefix, lookup, lower, ltb,
  none, refl, same, some, trim_right, trim_space, true, ℕ, ◌*◌, ◌-◌, ◌/◌, ◌==◌, ◌∷◌, ◌≡◌, ◌≢◌,
}
use llama_chip.Backends.{atoi, digits_value, negsuc, pos}
use llama_chip.Gguf.{Params}
use llama_chip.Gpu.{Gpu, gpu_row, gpu_rows}
use llama_chip.Router.Context.{Asked, Floats, Guess}
use llama_chip.Rig.{Rig, Url, resolve}
use llama_chip.Rig.Tests.{pair}
use llama_chip.Fed.{Fed, apply_roster, enabled, is_self, outbound_token, resolve_remote}
use llama_chip.Fed.Tests.{crowd, node_of, plan}
use llama_chip.Fold.{Field, Turn, at_end, field_keys, get, parse_ordered, scanned}
use llama_chip.Fold.Tests.{Json, object, of_fields, tree, word}
use llama_chip.Router.Defs.{
  Host, Request, Target, choose, loopback, model_text, proxy_by_model, sent_header, server_at,
}
use llama_chip.Router.Choice.{Sent, choose-roster, proxy_by_model-forward}
use llama_chip.Router.Remote.{RemoteCall}

abbrev pub plain_url : Text → Url
plain_url t = record { text = t; scheme = codes "http"; host = t; port = 80 }

abbrev pub host : Host
host = record {
  parse_url = λ t. some (plain_url t);
  getenv = λ t. [];
  split_host = λ t. some t;
  is_loopback_ip = λ t. same t (codes "::1");
}

abbrev idle : Rig
idle = record pair { instances = []; by_name = [] }

abbrev linked_node : Fed
linked_node = apply_roster 3 (node_of []) crowd (codes "me")

abbrev to_node_b : Target
to_node_b = record {
  destination = some (server_at (plain_url (codes "http://b")));
  bearer = codes "shared";
}

choose-roster_example :
    Some (Sent host (some linked_node) (codes "me") (codes "qwen") to_node_b) crowd
unfolding choose resolve resolve_remote lookup enabled apply_roster trim_space trim_right equal_fold
    outbound_token is_self same lower
choose-roster_example =
    choose-roster host idle 3 (node_of []) crowd (codes "me") [] (codes "qwen") to_node_b refl refl
      refl

abbrev ask : Request
ask = record {
  path = codes "/v1/chat/completions";
  node = [];
  authorization = codes "Bearer x";
  remote_addr = codes "10.0.0.9";
}

abbrev asked : List (Field Json)
asked = record { key = codes "model"; val = word (codes "gemma") } ∷ []

proxy_by_model-forward_example :
    (doc : Turn tree) × (t : Target) × (tree.scan (object (of_fields asked)) ≡ scanned doc at_end)
    × Distinct (field_keys doc)
    × (model_text tree (get (codes "model") doc) ≢ [])
    × (choose host pair none ask.node (model_text tree (get (codes "model") doc)) ≡ some t)
    × (t.destination ≡ some (loopback 9100))
    × (codes "Bearer x" ≡ sent_header t.bearer ask.authorization)
    × (has_prefix (codes "/v1/messages") ask.path ≡ false
        → object (of_fields asked) ≡ object (of_fields asked))
unfolding proxy_by_model choose parse_ordered resolve lookup get same lower has_prefix enabled
proxy_by_model-forward_example =
    proxy_by_model-forward tree host pair none ask (object (of_fields asked)) (loopback 9100)
      (codes "Bearer x") (object (of_fields asked)) refl

abbrev manager : Option Fed
manager = some (record linked_node { cfg = plan })

abbrev load_on_b : RemoteCall
load_on_b = record { target = codes "http://b/api/load"; is_post = true; bearer = codes "shared" }

-- Whole numbers in place of floats, where a decimal is 1.
abbrev pub whole : Floats ℕ
whole = record {
  of_int = λ x. elim x [ pos n ↦ n | negsuc n ↦ 0 ];
  to_int = λ n. pos n;
  decimal = λ t. 1;
  minus = λ x y. x - y;
  times = λ x y. x * y;
  over = λ x y. x / y;
  below = λ x y. ltb x y;
  is_zero = λ x. x == 0;
}

abbrev rows : List (List Text)
rows =
    (codes "0" ∷ codes "RTX 4090" ∷ codes "1000" ∷ codes "24000" ∷ codes "3" ∷ codes "40" ∷ [])
    ∷ (codes "broken" ∷ [])
    ∷ []

abbrev first_card : Gpu
first_card = record {
  index = pos 0;
  name = codes "RTX 4090";
  mem_used = pos 1000;
  mem_total = pos 24000;
  util = pos 3;
  temp_c = pos 40;
}

one_card : gpu_rows rows ≡ first_card ∷ []
unfolding gpu_rows gpu_row atoi digits_value trim_space
one_card = refl

abbrev question : Asked
question = record { model = codes "gemma"; gpus = codes "0"; kv = [] }

abbrev dims : Params
dims = record { arch = []; layers = 1; kv_heads = 1; head_dim = 1048576; train_ctx = 8192 }

abbrev capped : Guess
capped = record { max_ctx = pos 8192; free = pos 23000; train_ctx = 8192 }
