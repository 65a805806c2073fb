-- ===== src/Trial/Protocol.antt =====
-- experiments/dgtrial/main.go: runFixture, parseStats, finish and the loop of main.
use llama_chip.Base.{
  Bool, List, Option, Text, [], codes, false, has_prefix, if◌then◌else◌, insert, is_space, lookup,
  none, same, some, trim_prefix, true, ℕ, ◌+◌, ◌∷◌,
}
use llama_chip.Backends.{atoi, pos, ℤ}
use llama_chip.Trial.Defs.{Fixture, TrialRequest, cut, decode_c, request_of}

-- strings.Fields: the pieces between runs of white space.
abbrev pub add_char : ℕ → Bool × List Text → Bool × List Text
add_char c (true, w ∷ ws) = (true, (c ∷ w) ∷ ws)
add_char c (true, []) = (true, (c ∷ []) ∷ [])
add_char c (false, ws) = (true, (c ∷ []) ∷ ws)

abbrev pub add_space : Bool × List Text → Bool × List Text
add_space (inside, ws) = (false, ws)

-- The words of a text, and whether the first of them begins at its start.
unfoldable pub words_from : Text → Bool × List Text
words_from [] = (false, [])
words_from (c ∷ s) = if is_space c then add_space (words_from s) else add_char c (words_from s)

unfoldable pub fields : Text → List Text
unfolding words_from
fields s = (words_from s).1

abbrev put_stat : Option (Text × Text) → List (Text × Text) → List (Text × Text)
put_stat none m = m
put_stat (some (k, v)) m = insert k v m

unfoldable pub put_stats : List Text → List (Text × Text) → List (Text × Text)
unfolding cut insert
put_stats [] m = m
put_stats (f ∷ fs) m = put_stats fs (put_stat (cut b'=' f) m)

unfoldable pub parse_stats : Text → List (Text × Text) → List (Text × Text)
unfolding put_stats fields trim_prefix
parse_stats line m = put_stats (fields (trim_prefix (codes "STATS ") line)) m

-- float64: ParseFloat, whether a number is above 0, its thousandth, and a number by seconds.
pub record Clock (F : Type 0) : Type 0 where
  pub zero_of : F
  pub parse_float : Text → Option F
  pub positive : F → Bool
  pub thousandth : F → F
  pub per_second : ℤ → F → F

pub record Outcome (F : Type 0) : Type 0 where
  pub fx : Fixture
  pub answer : Text
  pub stats : List (Text × Text)
  pub tok_s : F
  pub decode_s : F
  pub pred_n : ℤ
  pub err_msg : Text

module _ {F : Type 0} (clock : Clock F) (json : Text → Option Text) where
  abbrev pub blank : Fixture → Text → Outcome F
  blank fx e = record {
    fx = fx;
    answer = [];
    stats = [];
    tok_s = clock.zero_of;
    decode_s = clock.zero_of;
    pred_n = pos 0;
    err_msg = e;
  }

  abbrev timed : ℤ → Option F → Outcome F → Outcome F
  timed n none r = record r { pred_n = n }
  timed n (some ms) r =
      if clock.positive ms
      then record r {
        pred_n = n;
        decode_s = clock.thousandth ms;
        tok_s = clock.per_second n (clock.thousandth ms);
      }
      else record r { pred_n = n }

  abbrev stat : Text → Outcome F → Text
  stat k r = elim (lookup k r.stats) [ none ↦ [] | some v ↦ v ]

  unfoldable pub finish : Outcome F → Outcome F
  unfolding atoi lookup
  finish r =
      timed (atoi (stat (codes "predicted_n") r)).0 (clock.parse_float (stat (codes "decode_ms") r))
        r

  -- The loop of runFixture: the result, and the lines that are left for the next fixture.
  unfoldable pub read_answer : List Text → Outcome F → Outcome F × List Text
  unfolding has_prefix decode_c parse_stats finish same
  read_answer [] r = (record r { err_msg = codes "stream ended before DONE" }, [])
  read_answer (line ∷ rest) r =
      let on_c = read_answer rest (record r { answer = decode_c json line }) in
      let on_stats = read_answer rest (record r { stats = parse_stats line r.stats }) in
      let on_other = read_answer rest r in
      if has_prefix (codes "C ") line
      then on_c
      else (if has_prefix (codes "STATS ") line
          then on_stats
          else (if same line (codes "DONE")
              then (finish r, rest)
              else (if has_prefix (codes "ERR") line
                  then (record r { err_msg = line }, rest)
                  else on_other)))

  -- runFixture: the number of the fixture, and the error of the writing of its request, if any.
  unfoldable pub run_fixture :
      (ℕ → TrialRequest → Option Text) → ℕ → Fixture → List Text → Outcome F × List Text
  unfolding read_answer request_of
  run_fixture writes i fx lines = elim (writes i (request_of fx)) [
    | some e ↦ (blank fx e, lines)
    | none ↦ read_answer lines (blank fx [])
  ]

  -- The loop of main over the fixtures.
  unfoldable pub run_fixtures :
      (ℕ → TrialRequest → Option Text) → ℕ → List Fixture → List Text → List (Outcome F)
  unfolding run_fixture
  run_fixtures writes i [] lines = []
  run_fixtures writes i (fx ∷ fxs) lines =
      let (r, rest) = run_fixture writes i fx lines in r ∷ run_fixtures writes (i + 1) fxs rest
