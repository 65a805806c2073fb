-- ===== src/Trial/Tests.antt =====
-- The trial at concrete inputs: two fixtures, of which the server answers the first.
use llama_chip.Base.{
  Text, [], codes, has_prefix, insert, lookup, ltb, none, refl, same, some, trim_prefix, ℕ, ◌/◌,
  ◌∷◌, ◌≡◌,
}
use llama_chip.Backends.{atoi, digits_value, pos}
use llama_chip.Trial.Defs.{Fixture, cut, decode_c, request_of}
use llama_chip.Trial.Protocol.{
  Clock, fields, finish, parse_stats, put_stats, run_fixtures, words_from,
}
use llama_chip.Trial.Stream.{Response, lines_of, outcome, outcomes, run_fixtures-outcomes}

abbrev fixture : Text → Fixture
fixture id = record {
  id = id;
  stage = codes "plan";
  n_blocks = pos 0;
  system = [];
  user = codes "why";
  ref_model = [];
  ref_output = [];
  ref_output_file = [];
}

abbrev clock : Clock ℕ
clock = record {
  zero_of = 0;
  parse_float = λ t. some 2000;
  positive = λ n. ltb 0 n;
  thousandth = λ n. n / 1000;
  per_second = λ n s. s;
}

abbrev first_response : Response
first_response = record {
  body =
      codes "C 1 a" ∷ codes "F 1 2 3 x" ∷ codes "C 1 a b" ∷ codes "STATS predicted_n=12  t=3" ∷ [];
  ending = codes "DONE";
}

first_request : (request_of (fixture [])).n_blocks ≡ pos 8
unfolding request_of
first_request = refl

first_outcome : (outcome clock (λ t. none) (fixture []) first_response).answer ≡ codes "a b"
unfolding decode_c cut finish same has_prefix
first_outcome = refl

first_count : (outcome clock (λ t. none) (fixture []) first_response).pred_n ≡ pos 12
unfolding decode_c cut finish parse_stats fields words_from trim_prefix put_stats insert lookup same
    atoi digits_value has_prefix
first_count = refl

run_fixtures-outcomes_example :
    run_fixtures clock
      (λ t. none)
      (λ i q. none)
      0
      (fixture (codes "a") ∷ fixture (codes "b") ∷ [])
      (lines_of (first_response ∷ []))
    ≡ outcomes clock
        (λ t. none)
        (fixture (codes "a") ∷ fixture (codes "b") ∷ [])
        (first_response ∷ [])
unfolding same has_prefix
run_fixtures-outcomes_example =
    run_fixtures-outcomes clock (λ t. none) (λ i q. none) (λ i q. refl) 0
      (fixture (codes "a") ∷ fixture (codes "b") ∷ []) (first_response ∷ [])
      (((refl, (refl, (refl, (refl, tt)))), refl), tt)
