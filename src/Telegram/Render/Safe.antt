-- ===== src/Telegram/Render/Safe.antt =====
-- The rendered text is well-formed HTML, whatever the model wrote.
use blue_lagoon.Base.{
  ℕ, zero, suc, ◌≤◌, ◌<◌, ◌≡◌, ◌≢◌, refl, ap, subst, inl, inr, Option, none, some, [], ◌∷◌, ◌++◌,
  Text, codes, ◌==◌, length, starts_with, Bool-cases, append_nil, arith,
}
use blue_lagoon.Telegram.Render.{
  escaped_telegram_html_char, escape_telegram_html, drop, split_at_mark, enclosed, bold_mark,
  code_mark, piece_for, before, next_piece, render_loop, render_inline_markdownish_html,
  render_telegram_html_message,
}

-- A character that HTML gives no meaning to.
abbrev pub IsPlain : ℕ → Type 0
IsPlain c = (c ≢ b'&') × (c ≢ b'<') × (c ≢ b'>') × (c ≢ b'"')

-- A text without tags, in which every special character is an entity.
pub data IsEscaped : Text → Type 0 where
  nothing : IsEscaped []
  plain : {c : ℕ} {text : Text} → IsPlain c → IsEscaped text → IsEscaped (c ∷ text)
  amp : {text : Text} → IsEscaped text → IsEscaped (codes "&amp;" ++ text)
  lt : {text : Text} → IsEscaped text → IsEscaped (codes "&lt;" ++ text)
  gt : {text : Text} → IsEscaped text → IsEscaped (codes "&gt;" ++ text)
  quot : {text : Text} → IsEscaped text → IsEscaped (codes "&quot;" ++ text)

-- Escaped texts, some of them inside `<b>` or `<code>`, never nested and always closed.
pub data IsTelegramHtml : Text → Type 0 where
  nothing : IsTelegramHtml []
  text : {s rest : Text} → IsEscaped s → IsTelegramHtml rest → IsTelegramHtml (s ++ rest)
  bold :
      {s rest : Text}
      → IsEscaped s
      → IsTelegramHtml rest
      → IsTelegramHtml ((codes "<b>" ++ s ++ codes "</b>") ++ rest)
  code :
      {s rest : Text}
      → IsEscaped s
      → IsTelegramHtml rest
      → IsTelegramHtml ((codes "<code>" ++ s ++ codes "</code>") ++ rest)

escape-IsEscaped-onto :
    (c : ℕ) (s : Text) → IsEscaped s → IsEscaped (escaped_telegram_html_char c ++ s)
unfolding escaped_telegram_html_char
escape-IsEscaped-onto c s e = elim (Bool-cases (c == b'&')) [
  | inl h ↦ rw h (amp e)
  | inr h ↦ rw h (elim (Bool-cases (c == b'<')) [
    | inl k ↦ rw k (lt e)
    | inr k ↦ rw k (elim (Bool-cases (c == b'>')) [
      | inl l ↦ rw l (gt e)
      | inr l ↦ rw l (elim (Bool-cases (c == b'"')) [
        | inl m ↦ rw m (quot e)
        | inr m ↦
            rw m
              (plain (λ x. ground arith, λ x. ground arith, λ x. ground arith, λ x. ground arith) e)
      ])
    ])
  ])
]

escape-IsEscaped : (s : Text) → IsEscaped (escape_telegram_html s)
unfolding escape_telegram_html
escape-IsEscaped [] = nothing
escape-IsEscaped (c ∷ s) = escape-IsEscaped-onto c (escape_telegram_html s) (escape-IsEscaped s)

piece_for-IsTelegramHtml :
    (bold_ code_ : Option (Text × Text)) (c : ℕ) (rest more : Text)
    → IsTelegramHtml more
    → IsTelegramHtml ((piece_for bold_ code_ c rest).0 ++ more)
piece_for-IsTelegramHtml (some (inner, after)) code_ c rest more h = bold (escape-IsEscaped inner) h
piece_for-IsTelegramHtml none (some (inner, after)) c rest more h = code (escape-IsEscaped inner) h
piece_for-IsTelegramHtml none none c rest more h =
    text
      (subst IsEscaped (append_nil (escaped_telegram_html_char c))
        (escape-IsEscaped-onto c [] nothing))
      h

render_loop-IsTelegramHtml : (fuel : ℕ) (s : Text) → IsTelegramHtml (render_loop fuel s)
unfolding render_loop next_piece
render_loop-IsTelegramHtml zero s = nothing
render_loop-IsTelegramHtml (suc fuel) [] = nothing
render_loop-IsTelegramHtml (suc fuel) (c ∷ s) =
    let piece = next_piece c s in
    piece_for-IsTelegramHtml (enclosed bold_mark (c ∷ s)) (enclosed code_mark (c ∷ s)) c s
      (render_loop fuel piece.1) (render_loop-IsTelegramHtml fuel piece.1)

length-drop : (n : ℕ) (s : Text) → length (drop n s) ≤ length s
length-drop zero s = omega arith
length-drop (suc n) [] = omega arith
length-drop (suc n) (c ∷ s) = let rest = length-drop n s in omega arith

-- What follows a mark is no longer than the text that the mark was looked for in.
abbrev NoLonger : Text → Option (Text × Text) → Type 0
NoLonger s none = Unit {0}
NoLonger s (some (inner, after)) = length after ≤ length s

later-NoLonger :
    (c : ℕ) (s : Text) (found : Option (Text × Text))
    → NoLonger s found
    → NoLonger (c ∷ s) (before c found)
later-NoLonger c s none h = tt
later-NoLonger c s (some (inner, after)) h = omega arith

NoLonger-still :
    (s t : Text) (found : Option (Text × Text))
    → length s ≤ length t
    → NoLonger s found
    → NoLonger t found
NoLonger-still s t none h k = tt
NoLonger-still s t (some (inner, after)) h k = omega arith

length-split_at_mark : (mark s : Text) → NoLonger s (split_at_mark mark s)
unfolding split_at_mark
length-split_at_mark mark [] = tt
length-split_at_mark mark (c ∷ s) =
    let shorter = length-drop (length mark) (c ∷ s) in
    elim (Bool-cases (starts_with (c ∷ s) mark)) [
      | inl h ↦ rw h shorter
      | inr h ↦ rw h (later-NoLonger c s (split_at_mark mark s) (length-split_at_mark mark s))
    ]

length-enclosed :
    (first : ℕ) (mark : Text) (c : ℕ) (s : Text) → NoLonger s (enclosed (first ∷ mark) (c ∷ s))
length-enclosed first mark c s =
    let shorter = length-drop (length mark) s in
    elim (Bool-cases (starts_with (c ∷ s) (first ∷ mark))) [
      | inl h ↦ rw h (
          NoLonger-still (drop (length mark) s) s
            (split_at_mark (first ∷ mark) (drop (length mark) s)) shorter
            (length-split_at_mark (first ∷ mark) (drop (length mark) s)))
      | inr h ↦ rw h tt
    ]

length-piece_for :
    (bold_ code_ : Option (Text × Text)) (c : ℕ) (s : Text)
    → NoLonger s bold_
    → NoLonger s code_
    → length (piece_for bold_ code_ c s).1 ≤ length s
length-piece_for (some (inner, after)) code_ c s h k = h
length-piece_for none (some (inner, after)) c s h k = k
length-piece_for none none c s h k = omega arith

-- A round of the loop takes a character at least.
length-next_piece : (c : ℕ) (s : Text) → length (next_piece c s).1 ≤ length s
unfolding next_piece
length-next_piece c s =
    length-piece_for (enclosed bold_mark (c ∷ s)) (enclosed code_mark (c ∷ s)) c s
      (length-enclosed b'*' (codes "*") c s) (length-enclosed b'`' [] c s)

fuel_enough : (f g : ℕ) (s : Text) → length s < f → length s < g → render_loop f s ≡ render_loop g s
unfolding render_loop
fuel_enough zero g s h k = absurd (omega arith)
fuel_enough (suc f) zero s h k = absurd (omega arith)
fuel_enough (suc f) (suc g) [] h k = refl
fuel_enough (suc f) (suc g) (c ∷ s) h k =
    let shorter = length-next_piece c s in
    ap (λ more. (next_piece c s).0 ++ more)
      (fuel_enough f g (next_piece c s).1 (omega arith) (omega arith))

-- The fuel never runs out: the rendering of a text is its next piece followed by the rendering of
-- all that is left.
pub render_continues :
    (c : ℕ) (s : Text)
    → render_telegram_html_message (c ∷ s)
      ≡ (next_piece c s).0 ++ render_telegram_html_message (next_piece c s).1
unfolding render_telegram_html_message render_inline_markdownish_html render_loop
render_continues c s =
    let shorter = length-next_piece c s in
    ap (λ more. (next_piece c s).0 ++ more)
      (fuel_enough (suc (length s)) (suc (length (next_piece c s).1)) (next_piece c s).1
        (omega arith) (omega arith))

-- Whatever the text, its rendering is well-formed Telegram HTML: every special character of the
-- text is an entity, and the only tags are `<b>` and `<code>`, each closed before the next opens.
pub render-IsTelegramHtml : (s : Text) → IsTelegramHtml (render_telegram_html_message s)
unfolding render_telegram_html_message render_inline_markdownish_html
render-IsTelegramHtml s = render_loop-IsTelegramHtml (suc (length s)) s
