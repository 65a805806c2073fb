-- ===== src/Trial/Stream.antt =====
-- The answers that the trial reads stay in step with its fixtures.
use llama_chip.Base.{
  All, Bool, Bool-cases, List, Option, Text, [], ap, arith, codes, false, has_prefix, if◌then◌else◌,
  inl, inr, none, refl, same, same_iff, select, sym, true, ℕ, ◌++◌, ◌+◌, ◌==◌, ◌||◌, ◌∙◌, ◌∷◌, ◌≡◌,
}
use llama_chip.Trial.Defs.{Fixture, TrialRequest, decode_c, request_of}
use llama_chip.Trial.Protocol.{
  Clock, Outcome, blank, finish, parse_stats, read_answer, run_fixture, run_fixtures,
}

abbrev is_answer : Text → Bool
is_answer = has_prefix (codes "C ")

abbrev is_stats : Text → Bool
is_stats = has_prefix (codes "STATS ")

abbrev is_end : Text → Bool
is_end line = same line (codes "DONE") || has_prefix (codes "ERR") line

-- What the server prints for a request: lines of any kind, and then DONE or an error.
pub record Response : Type 0 where
  pub body : List Text
  pub ending : Text

abbrev pub IsResponse : Response → Type 0
IsResponse p = All (λ l. is_end l ≡ false) p.body × (is_end p.ending ≡ true)

abbrev pub lines_of : List Response → List Text
lines_of [] = []
lines_of (p ∷ ps) = p.body ++ (p.ending ∷ lines_of ps)

abbrev last_or : Text → List Text → Text
last_or d [] = d
last_or d (l ∷ ls) = last_or l ls

module _ (c d : ℕ) (ps qs : Text) where
  -- Two prefixes that begin differently.
  has_prefix-apart :
      (l : Text) → (c == d) ≡ false → has_prefix (c ∷ ps) l ≡ true → has_prefix (d ∷ qs) l ≡ false
  unfolding has_prefix
  has_prefix-apart [] ne h = refl
  has_prefix-apart (x ∷ l) ne h = elim (Bool-cases (c == x)) [
    | inl hit ↦ let miss : (d == x) ≡ false = ground arith in rw miss refl
    | inr miss ↦ let bad = rw miss at h in cc
  ]

answer-stats : (l : Text) → is_answer l ≡ true → is_stats l ≡ false
answer-stats l h = has_prefix-apart b'C' b'S' (codes " ") (codes "TATS ") l refl h

-- A line that ends a response has no other mark.
end-mark :
    (c : ℕ) (ps l : Text)
    → (c == b'D') ≡ false
    → (c == b'E') ≡ false
    → is_end l ≡ true
    → has_prefix (c ∷ ps) l ≡ false
unfolding has_prefix
end-mark c ps l not_d not_e h = elim (Bool-cases (has_prefix (c ∷ ps) l)) [
  | inr miss ↦ miss
  | inl marked ↦ elim (Bool-cases (same l (codes "DONE"))) [
    | inl done ↦ let this = (same_iff _ _).0 done in let bad = rw (this, not_d) at marked in cc
    | inr other ↦
        let no_err = has_prefix-apart c b'E' ps (codes "RR") l not_e marked in
        let bad = rw (other, no_err) at h in cc
  ]
]

module _ {F : Type 0} (clock : Clock F) (json : Text → Option Text) where
  abbrev with_body : List Text → Outcome F → Outcome F
  with_body [] r = r
  with_body (l ∷ ls) r =
      if is_answer l
      then with_body ls (record r { answer = decode_c json l })
      else (if is_stats l
          then with_body ls (record r { stats = parse_stats l r.stats })
          else with_body ls r)

  abbrev ended : Text → Outcome F → Outcome F
  ended line r =
      if same line (codes "DONE") then finish clock json r else record r { err_msg = line }

  read_answer-response :
      (body : List Text) (ending : Text) (rest : List Text) (r : Outcome F)
      → All (λ l. is_end l ≡ false) body
      → is_end ending ≡ true
      → read_answer clock json (body ++ (ending ∷ rest)) r ≡ (ended ending (with_body body r), rest)
  unfolding read_answer
  read_answer-response [] ending rest r plain e =
      let no_answer = end-mark b'C' (codes " ") ending refl refl e in
      let no_stats = end-mark b'S' (codes "TATS ") ending refl refl e in
      elim (Bool-cases (same ending (codes "DONE"))) [
        | inl done ↦ rw (no_answer, no_stats, done, read_answer) refl
        | inr other ↦
            let failed : has_prefix (codes "ERR") ending ≡ true = rw other at e in
            rw (no_answer, no_stats, other, failed, read_answer) refl
      ]
  read_answer-response (l ∷ body) ending rest r (n, plain) e = elim (Bool-cases (is_answer l)) [
    | inl marked ↦ rw (marked, read_answer) (read_answer-response body ending rest _ plain e)
    | inr unmarked ↦ elim (Bool-cases (is_stats l)) [
      | inl stats ↦
          rw (unmarked, stats, read_answer) (read_answer-response body ending rest _ plain e)
      | inr other ↦
          let not_done : same l (codes "DONE") ≡ false = ground arith in
          let not_err : has_prefix (codes "ERR") l ≡ false = ground arith in
          rw (unmarked, other, not_done, not_err, read_answer)
            (read_answer-response body ending rest r plain e)
    ]
  ]

  -- The last answer of a response, decoded, and all its statistics.
  abbrev all_stats : List Text → List (Text × Text) → List (Text × Text)
  all_stats [] m = m
  all_stats (l ∷ ls) m = all_stats ls (parse_stats l m)

  abbrev last_decoded : Text → List Text → Text
  last_decoded d [] = d
  last_decoded d (l ∷ ls) = decode_c json (last_or l ls)

  -- What a fixture gets from its response alone.
  abbrev pub outcome : Fixture → Response → Outcome F
  outcome fx p = ended p.ending (record (blank clock json fx []) {
    answer = last_decoded [] (select is_answer p.body);
    stats = all_stats (select is_stats p.body) [];
  })

  -- And what it gets where the server has ended.
  abbrev pub unanswered : Fixture → Outcome F
  unanswered fx = blank clock json fx (codes "stream ended before DONE")

  abbrev pub outcomes : List Fixture → List Response → List (Outcome F)
  outcomes [] ps = []
  outcomes (fx ∷ fxs) [] = unanswered fx ∷ outcomes fxs []
  outcomes (fx ∷ fxs) (p ∷ ps) = outcome fx p ∷ outcomes fxs ps

  last_decoded-cons :
      (a l : Text) (ls : List Text) → last_decoded a (l ∷ ls) ≡ last_decoded (decode_c json l) ls
  last_decoded-cons a l [] = refl
  last_decoded-cons a l (x ∷ ls) = refl

  with_body-parts :
      (ls : List Text) (r : Outcome F)
      → with_body ls r ≡ record r {
        answer = last_decoded r.answer (select is_answer ls);
        stats = all_stats (select is_stats ls) r.stats;
      }
  with_body-parts [] r = refl
  with_body-parts (l ∷ ls) r = elim (Bool-cases (is_answer l)) [
    | inl marked ↦
        let other = answer-stats l marked in
        rw (marked, other)
          (with_body-parts ls (record r { answer = decode_c json l })
            ∙ ap (λ a. record r { answer = a; stats = all_stats (select is_stats ls) r.stats })
                (sym (last_decoded-cons r.answer l (select is_answer ls))))
    | inr unmarked ↦ elim (Bool-cases (is_stats l)) [
      | inl stats ↦
          rw (unmarked, stats) (with_body-parts ls (record r { stats = parse_stats l r.stats }))
      | inr other ↦ rw (unmarked, other) (with_body-parts ls r)
    ]
  ]

  module _ (writes : ℕ → TrialRequest → Option Text)
      (writable : (i : ℕ) (q : TrialRequest) → writes i q ≡ none) where
    run_fixture-lines :
        (i : ℕ) (fx : Fixture) (lines : List Text)
        → run_fixture clock json writes i fx lines
          ≡ read_answer clock json lines (blank clock json fx [])
    unfolding run_fixture
    run_fixture-lines i fx lines = rw (writable i (request_of fx), run_fixture) refl

    run_fixture-response :
        (i : ℕ) (fx : Fixture) (p : Response) (rest : List Text)
        → IsResponse p
        → run_fixture clock json writes i fx (p.body ++ (p.ending ∷ rest)) ≡ (outcome fx p, rest)
    run_fixture-response i fx p rest (plain, e) =
        run_fixture-lines i fx (p.body ++ (p.ending ∷ rest))
        ∙ read_answer-response p.body p.ending rest (blank clock json fx []) plain e
        ∙ ap (λ r. (ended p.ending r, rest)) (with_body-parts p.body (blank clock json fx []))

    -- Where every request can be written and the server answers each with lines that end in one DONE
    -- or one error: every fixture gets the outcome of its own response, whatever the responses of
    -- the others are; its answer is its last one, and its statistics are all of its own. Fixtures
    -- that are left when the server ends are marked with an error, so there is a result for each.
    pub run_fixtures-outcomes :
        (i : ℕ) (fxs : List Fixture) (ps : List Response)
        → All IsResponse ps
        → run_fixtures clock json writes i fxs (lines_of ps) ≡ outcomes fxs ps
    unfolding run_fixtures read_answer
    run_fixtures-outcomes i [] ps h = refl
    run_fixtures-outcomes i (fx ∷ fxs) [] h =
        rw (run_fixture-lines i fx [], run_fixtures)
          (ap (λ xs. unanswered fx ∷ xs) (run_fixtures-outcomes (i + 1) fxs [] tt))
    run_fixtures-outcomes i (fx ∷ fxs) (p ∷ ps) (g, h) =
        rw (run_fixture-response i fx p (lines_of ps) g, run_fixtures)
          (ap (λ xs. outcome fx p ∷ xs) (run_fixtures-outcomes (i + 1) fxs ps h))
