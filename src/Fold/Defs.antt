-- ===== src/Fold/Defs.antt =====
-- internal/router/anthropic.go: objects with their order, and the fold of system turns.
--
-- The JSON package is a parameter, the record Codec over a type of raw values: what its decoder
-- reads of an object, what Unmarshal makes of a list and of a string, and the raw values that the
-- code writes. Its error texts are left out.
use llama_chip.Base.{
  Bool, List, Option, Result, Text, [], any, codes, err, if◌then◌else◌, is_empty, map, none, not,
  ok, same, some, ℕ, ◌&&◌, ◌++◌, ◌+◌, ◌>>=◌, ◌∷◌,
}

pub record Field (Raw : Type 0) : Type 0 where
  pub key : Text
  pub val : Raw

-- How the decoder leaves an object: at the end of the input, before more data, or in an error.
pub data Ending : Type 0 where
  at_end trailing broken : Ending

-- What the decoder reads: no token, a value of another kind, or the fields of an object.
pub data Scan (Raw : Type 0) : Type 0 where
  unreadable not_object : Scan Raw
  scanned : List (Field Raw) → Ending → Scan Raw

pub record Codec (Raw : Type 0) : Type 0 where
  pub scan : Raw → Scan Raw
  pub as_list : Raw → Option (List Raw)
  pub as_text : Raw → Option Text
  pub write_list : List Raw → Raw
  pub write_object : List (Field Raw) → Raw
  pub text_block : Text → Raw
  pub user_role : Raw

pub data FoldError : Type 0 where
  no_token no_object bad_object bad_content bad_messages trailing_data : FoldError
  duplicate_key : Text → FoldError

module _ {Raw : Type 0} where
  abbrev pub finish : List (Field Raw) → Ending → Result FoldError (List (Field Raw))
  finish out at_end = ok out
  finish out trailing = err trailing_data
  finish out broken = err bad_object

  -- The loop of parseOrdered over the fields, with the keys seen so far.
  unfoldable pub read_fields :
      List Text → List (Field Raw) → List (Field Raw) → Ending → Result FoldError (List (Field Raw))
  unfolding same
  read_fields seen out [] e = finish out e
  read_fields seen out (f ∷ fs) e =
      if any (λ k. same k f.key) seen
      then err (duplicate_key f.key)
      else read_fields (f.key ∷ seen) (out ++ f ∷ []) fs e

  unfoldable pub read_scan : Scan Raw → Result FoldError (List (Field Raw))
  unfolding read_fields
  read_scan unreadable = err no_token
  read_scan not_object = err no_object
  read_scan (scanned fs e) = read_fields [] [] fs e

  unfoldable pub get : Text → List (Field Raw) → Option Raw
  unfolding same
  get k [] = none
  get k (f ∷ fs) = if same f.key k then some f.val else get k fs

  -- The key keeps its place; a new one goes to the end.
  unfoldable pub set : Text → Raw → List (Field Raw) → List (Field Raw)
  unfolding same
  set k v [] = record { key = k; val = v } ∷ []
  set k v (f ∷ fs) = if same f.key k then record f { val = v } ∷ fs else f ∷ set k v fs

abbrev pub text_or_nil : Option Text → Text
text_or_nil none = []
text_or_nil (some t) = t

abbrev pub is_system : Text → Bool
is_system role = same role (codes "system")

abbrev pub is_user : Text → Bool
is_user role = same role (codes "user")

module _ {Raw : Type 0} (codec : Codec Raw) where
  abbrev pub Turn : Type 0
  Turn = List (Field Raw)

  unfoldable pub parse_ordered : Raw → Result FoldError Turn
  unfolding read_scan
  parse_ordered raw = read_scan (codec.scan raw)

  abbrev pub role_text : Option Raw → Text
  role_text none = []
  role_text (some raw) = text_or_nil (codec.as_text raw)

  unfoldable pub role_of : Turn → Text
  unfolding get
  role_of m = role_text (get (codes "role") m)

  -- A list of blocks as it is, a string as one block.
  abbrev pub listed : Option (List Raw) → Option Text → Result FoldError (List Raw)
  listed (some blocks) _ = ok blocks
  listed none (some s) = ok (codec.text_block s ∷ [])
  listed none none = err bad_content

  abbrev pub content_blocks : Option Raw → Result FoldError (List Raw)
  content_blocks none = ok []
  content_blocks (some raw) = listed (codec.as_list raw) (codec.as_text raw)

  unfoldable pub blocks_of : Turn → Result FoldError (List Raw)
  unfolding get
  blocks_of m = content_blocks (get (codes "content") m)

  abbrev pub put_content : List Raw → Turn → Turn
  put_content blocks m = set (codes "content") (codec.write_list blocks) m

  -- The last user turn of `out` takes the blocks at its end; none if there is no user turn.
  unfoldable pub append_to_last_user : List Raw → List Turn → Option (Result FoldError (List Turn))
  unfolding role_of blocks_of
  append_to_last_user blks [] = none
  append_to_last_user blks (m ∷ ms) = elim (append_to_last_user blks ms) [
    | some (ok ms') ↦ some (ok (m ∷ ms'))
    | some (err e) ↦ some (err e)
    | none ↦
        if is_user (role_of m)
        then some (do cur ← blocks_of m; ok (put_content (cur ++ blks) m ∷ ms))
        else none
  ]

  -- The state of the loop: the turns kept, the blocks that wait for a user turn, the count.
  pub record FoldState : Type 0 where
    pub out : List Turn
    pub pending : List Raw
    pub folded : ℕ

  unfoldable pub fold_system : FoldState → Turn → Result FoldError FoldState
  unfolding append_to_last_user
  fold_system s m = do
    blks ← blocks_of m
    elim (append_to_last_user blks s.out) [
      | some (ok out) ↦ ok (record s { out = out; folded = s.folded + 1 })
      | some (err e) ↦ err e
      | none ↦ ok (record s { pending = s.pending ++ blks; folded = s.folded + 1 })
    ]

  unfoldable pub fold_other : FoldState → Turn → Result FoldError FoldState
  unfolding blocks_of
  fold_other s m =
      if not (is_empty s.pending) && is_user (role_of m)
      then (do
        cur ← blocks_of m
        ok (record s { out = s.out ++ put_content (s.pending ++ cur) m ∷ []; pending = [] }))
      else ok (record s { out = s.out ++ m ∷ [] })

  unfoldable pub fold_turn : FoldState → Turn → Result FoldError FoldState
  unfolding fold_system fold_other
  fold_turn s m = if is_system (role_of m) then fold_system s m else fold_other s m

  unfoldable pub fold_turns : FoldState → List Turn → Result FoldError FoldState
  unfolding fold_turn
  fold_turns s [] = ok s
  fold_turns s (m ∷ ms) = do s' ← fold_turn s m; fold_turns s' ms

  -- The user turn that takes what is left at the end.
  abbrev pub own_turn : List Raw → Turn
  own_turn blocks =
      record { key = codes "role"; val = codec.user_role }
      ∷ record { key = codes "content"; val = codec.write_list blocks }
      ∷ []

  abbrev pub closed : FoldState → List Turn
  closed s = if is_empty s.pending then s.out else s.out ++ own_turn s.pending ∷ []

  abbrev pub fold_start : FoldState
  fold_start = record { out = []; pending = []; folded = 0 }

  unfoldable pub parse_all : List Raw → Result FoldError (List Turn)
  unfolding parse_ordered
  parse_all [] = ok []
  parse_all (r ∷ rs) = do m ← parse_ordered r; ms ← parse_all rs; ok (m ∷ ms)

  -- The body and the number of folded turns, where `none` stands for the body as it came.
  pub record Folded : Type 0 where
    pub body : Raw
    pub count : ℕ
    pub failed : Option FoldError

  abbrev pub unchanged : Raw → Option FoldError → Folded
  unchanged body e = record { body = body; count = 0; failed = e }

  unfoldable pub rewrite_messages : Raw → Turn → List Turn → Folded
  unfolding fold_turns set role_of
  rewrite_messages body doc msgs =
      if any (λ m. is_system (role_of m)) msgs
      then elim (fold_turns fold_start msgs) [
        | err e ↦ unchanged body (some e)
        | ok s ↦ record {
          body =
              codec.write_object
                (set (codes "messages") (codec.write_list (map codec.write_object (closed s))) doc);
          count = s.folded;
          failed = none;
        }
      ]
      else unchanged body none

  unfoldable pub fold_messages : Raw → Turn → Raw → Folded
  unfolding rewrite_messages parse_all
  fold_messages body doc raw = elim (codec.as_list raw) [
    | none ↦ unchanged body (some bad_messages)
    | some rs ↦ elim (parse_all rs) [
      | err e ↦ unchanged body (some e)
      | ok msgs ↦ rewrite_messages body doc msgs
    ]
  ]

  unfoldable pub fold_system_turns : Raw → Folded
  unfolding fold_messages parse_ordered get
  fold_system_turns body = elim (parse_ordered body) [
    | err e ↦ unchanged body (some e)
    | ok doc ↦ elim (get (codes "messages") doc) [
      | none ↦ unchanged body none
      | some raw ↦ fold_messages body doc raw
    ]
  ]
