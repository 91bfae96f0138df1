-- ===== src/Schema/Chat/Tools.antt =====
-- The tool calls of a chat that schema.py accepts, and their results.
use selfhost_models.Prelude.{
  ◌≡◌, ◌∙◌, refl, sym, subst, ap, String, Bool, true, false, ◌&&◌, ◌||◌, not, Option, none, some,
  List, [], ◌∷◌, ◌++◌, map, arith, ltb, eqb, Bool-cases, Option-cases, inl, inr, is_some, ◌==◌,
  eq_iff,
}
use mathlib.Core.List.Permᴰ
use mathlib.Core.List.{Permᴰ}
use mathlib.Core.Nat.{suc-ne-zero}
use selfhost_models.Sql.{exists, delete}
use selfhost_models.Sql.Laws.{All}
use selfhost_models.Schema.Chat.{
  parts_like, is_image, is_video, nothing_pending, Message, ToolCall, Chat, valid_role,
  has_duplicates, after_calls, after_message, after_result, after_messages, options_require_stream,
  items, non_empty,
}

delete_none :
    (x : String) (xs : List String) → exists (λ y. y == x) xs ≡ false → delete (λ y. y == x) xs ≡ xs
unfolding exists delete
delete_none x [] h = refl
delete_none x (y ∷ ys) h = elim (Bool-cases (y == x)) [
  | inl e ↦ absurd (ground arith)
  | inr e ↦ rw e (ap (λ zs. y ∷ zs) (delete_none x ys (ground arith)))
]

-- What stands once comes out to the front.
delete-Perm :
    (x : String) (xs : List String)
    → has_duplicates xs ≡ false
    → exists (λ y. y == x) xs ≡ true
    → Permᴰ (x ∷ delete (λ y. y == x) xs) xs
unfolding exists delete has_duplicates
delete-Perm x [] d h = absurd (ground arith)
delete-Perm x (y ∷ ys) d h = elim (Bool-cases (y == x)) [
  | inl e ↦
      let p : y ≡ x = (eq_iff y x).0 e in
      let q = delete_none x ys (subst (λ z. exists (λ w. w == z) ys ≡ false) p (ground arith)) in
      rw (e, q) (Permᴰ.cons (sym p) (Permᴰ.refl ys))
  | inr e ↦ rw e (
      Permᴰ.trans (Permᴰ.swap refl refl)
        (Permᴰ.cons refl (delete-Perm x ys (ground arith) (ground arith))))
]

exists-delete :
    (x z : String) (xs : List String)
    → exists (λ y. y == z) xs ≡ false
    → exists (λ y. y == z) (delete (λ y. y == x) xs) ≡ false
unfolding exists delete
exists-delete x z [] h = refl
exists-delete x z (y ∷ ys) h = ground (arith, exists-delete x z ys)

distinct-delete :
    (x : String) (xs : List String)
    → has_duplicates xs ≡ false
    → has_duplicates (delete (λ y. y == x) xs) ≡ false
unfolding delete has_duplicates
distinct-delete x [] d = refl
distinct-delete x (y ∷ ys) d = ground (arith, distinct-delete x ys, exists-delete x y ys)

-- a message that answers a call
abbrev pub is_result : Message → Bool
is_result m = elim m.tool_call_id [ none ↦ false | some id ↦ not (id == "") ]

-- The id of the call that a message answers.
abbrev pub answer_id : Message → String
answer_id m = elim m.tool_call_id [ none ↦ "" | some id ↦ id ]

abbrev pub ids_of : Message → List String
ids_of m = map (λ (c : ToolCall). c.id) (items m.tool_calls)

-- A chat in turns: a message that is no result, then one result for each call that it makes, in
-- some order, and so on to the end. The ids of a message's calls differ.
pub data IsAnswered : List Message → Type 0 where
  over : IsAnswered []
  turn :
      (m : Message) (answers rest : List Message)
      → is_result m ≡ false
      → has_duplicates (ids_of m) ≡ false
      → All (λ r. is_result r ≡ true) answers
      → Permᴰ (map answer_id answers) (ids_of m)
      → IsAnswered rest
      → IsAnswered (m ∷ (answers ++ rest))

append_nil : {A : Type 0} (xs : List A) → xs ++ [] ≡ xs
append_nil [] = refl
append_nil (x ∷ xs) = ap (λ ys. x ∷ ys) (append_nil xs)

some_id : {A : Type 0} {x y : A} → some x ≡ some y → x ≡ y
some_id e = cc

not_some : {A : Type 0} {x : A} → none ≡ some x → ⊥
not_some e = cc

named : (id : String) → not (id == "") ≡ true → (id == "") ≡ false
named id h = ground arith

unnamed : (id : String) → not (id == "") ≡ false → (id == "") ≡ true
unnamed id h = ground arith

no_calls : {A : Type 0} (o : Option (List A)) → non_empty o ≡ false → items o ≡ []
no_calls none h = refl
no_calls (some []) h = refl
no_calls (some (x ∷ xs)) h = absurd (ground arith)

-- What the calls of a message add, when nothing waits.
calls_lem :
    (m : Message) (next : List String)
    → after_calls m (some []) ≡ some next
    → (next ≡ ids_of m) × (has_duplicates (ids_of m) ≡ false)
unfolding after_calls has_duplicates
calls_lem m next h = elim (Bool-cases (non_empty m.tool_calls)) [
  | inr e ↦
      let q : [] ≡ next = some_id (rw e at h) in
      let n : items m.tool_calls ≡ [] = no_calls m.tool_calls e in rw n (sym q, refl)
  | inl e ↦ elim (Bool-cases (has_duplicates (ids_of m))) [
    | inl d ↦ absurd (not_some (rw (e, d) at h))
    | inr d ↦
        let q : ids_of m ++ [] ≡ next = some_id (rw (e, d) at h) in
        (sym q ∙ append_nil (ids_of m), d)
  ]
]

-- A result, which makes no calls itself, takes its call out of what waits.
result_lem :
    (m : Message) (pending next : List String)
    → is_result m ≡ true
    → non_empty m.tool_calls ≡ false
    → has_duplicates pending ≡ false
    → after_message pending m ≡ some next
    → (has_duplicates next ≡ false) × Permᴰ (answer_id m ∷ next) pending
unfolding after_message after_calls after_result
result_lem m pending next r c d h = elim (Option-cases m.tool_call_id) [
  | inl e ↦ absurd (ground (arith, rw e at r))
  | inr (id, e) ↦ elim (Bool-cases (exists (λ y. y == id) pending)) [
    | inr k ↦ absurd (not_some (rw (e, named id (rw e at r), k) at h))
    | inl k ↦
        let q : delete (λ y. y == id) pending ≡ next =
          some_id (rw (e, named id (rw e at r), k, c) at h) in
        (
          subst (λ n. has_duplicates n ≡ false) q (distinct-delete id pending d),
          subst (λ n. Permᴰ (answer_id m ∷ n) pending) q (rw e (delete-Perm id pending d k)),
        )
  ]
]

result_no_calls :
    (m : Message) → valid_role m ≡ true → is_result m ≡ true → non_empty m.tool_calls ≡ false
unfolding valid_role
result_no_calls m v r = elim (Option-cases m.tool_call_id) [
  | inl e ↦ absurd (ground (arith, rw e at r))
  | inr (id, e) ↦ ground (arith, rw e at v)
]

-- A message that is no result comes only when nothing waits.
other_waits :
    (m : Message) (pending next : List String)
    → is_result m ≡ false
    → after_message pending m ≡ some next
    → (pending ≡ []) × (after_calls m (some []) ≡ some next)
unfolding after_message after_result after_calls
other_waits m [] next r h = elim (Option-cases m.tool_call_id) [
  | inl e ↦ (refl, rw e at h)
  | inr (id, e) ↦ (refl, rw (e, unnamed id (rw e at r)) at h)
]
other_waits m (x ∷ xs) next r h = elim (Option-cases m.tool_call_id) [
  | inl e ↦ absurd (not_some (rw e at h))
  | inr (id, e) ↦ absurd (not_some (rw (e, unnamed id (rw e at r)) at h))
]

-- From `pending` on, the messages are its results and then a chat in turns.
messages-IsAnswered :
    (ms : List Message) (pending : List String)
    → All (λ m. valid_role m ≡ true) ms
    → has_duplicates pending ≡ false
    → after_messages pending ms ≡ some []
    → (answers : List Message) × (rest : List Message) × (ms ≡ answers ++ rest)
      × All (λ r. is_result r ≡ true) answers
      × Permᴰ (map answer_id answers) pending
      × IsAnswered rest
unfolding after_messages
messages-IsAnswered [] pending v d h =
    ([], [], refl, tt, subst (Permᴰ []) (sym (some_id h)) Permᴰ.nil, over)
messages-IsAnswered (m ∷ ms) pending v d h = elim (Option-cases (after_message pending m)) [
  | inl e ↦ absurd (not_some (rw (e, after_messages) at h))
  | inr (next, e) ↦
      let g : after_messages next ms ≡ some [] = rw (e, after_messages) at h in
      elim (Bool-cases (is_result m)) [
        | inl r ↦
            let (distinct, taken) = result_lem m pending next r (result_no_calls m v.0 r) d e in
            let (answers, rest, q, a, p, t) = messages-IsAnswered ms next v.1 distinct g in
            (
              m ∷ answers,
              rest,
              ap (λ xs. m ∷ xs) q,
              (r, a),
              Permᴰ.trans (Permᴰ.cons refl p) taken,
              t,
            )
        | inr r ↦
            let (nothing, k) = other_waits m pending next r e in
            let (n, distinct) = calls_lem m next k in
            let (answers, rest, q, a, p, t) =
              messages-IsAnswered ms next v.1
                (subst (λ x. has_duplicates x ≡ false) (sym n) distinct) g in
            (
              [],
              m ∷ ms,
              refl,
              tt,
              subst (Permᴰ []) (sym nothing) Permᴰ.nil,
              subst (λ xs. IsAnswered (m ∷ xs)) (sym q)
                  (turn m answers rest r distinct a (subst (Permᴰ (map answer_id answers)) n p) t),
            )
      ]
]

no_answers :
    (answers rest ms : List Message)
    → ms ≡ answers ++ rest
    → Permᴰ (map answer_id answers) []
    → IsAnswered rest
    → IsAnswered ms
no_answers [] rest ms e p t = subst IsAnswered (sym e) t
no_answers (a ∷ answers) rest ms e p t = absurd (suc-ne-zero _ (Permᴰ.length-eq p))

all_done : (o : Option (List String)) → nothing_pending o ≡ true → o ≡ some []
all_done none h = absurd (ground arith)
all_done (some []) h = refl
all_done (some (x ∷ xs)) h = absurd (ground arith)

last_check : (a b c d e : Bool) → (a && (b && (c && (d && e)))) ≡ true → e ≡ true
last_check a b c d e h = ground arith

-- A chat that both validators accept, where every message has a valid role, goes in turns: a
-- message that makes calls is followed at once by their results, one for each call, in some order,
-- before any other message, and a result stands nowhere else. A message's calls have different ids.
pub chat-IsAnswered :
    (c : Chat)
    → All (λ m. valid_role m ≡ true) c.messages
    → options_require_stream c ≡ true
    → IsAnswered c.messages
unfolding options_require_stream has_duplicates
chat-IsAnswered c v h =
    let images = parts_like is_image c.messages in
    let videos = parts_like is_video c.messages in
    let done =
      last_check (not (is_some c.stream_options && not c.stream))
        (not (is_some c.tool_choice && not (non_empty c.tools))) (not (ltb 1 images))
        (not (ltb 1 videos || not (eqb videos 0) && not (eqb images 0)))
        (nothing_pending (after_messages [] c.messages)) h in
    let (answers, rest, q, a, p, t) = messages-IsAnswered c.messages [] v refl (all_done _ done) in
    no_answers answers rest c.messages q p t
