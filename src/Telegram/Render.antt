-- ===== src/Telegram/Render.antt =====
-- The rendering of a model's text as Telegram HTML, of crates/harness/src/telegram.rs. The cursor
-- into the text is the rest of the text; each round takes a character at least, so the length of
-- the text, plus one, is fuel enough.
pub mod Safe
use blue_lagoon.Base.{
  ℕ, zero, suc, Bool, true, false, Option, none, some, List, [], ◌∷◌, ◌++◌, Text, codes, ◌==◌,
  if◌then◌else◌, length, starts_with,
}

-- `push_escaped_telegram_html_char`: what is pushed for the character.
unfoldable pub escaped_telegram_html_char : ℕ → Text
escaped_telegram_html_char c =
    if c == b'&'
    then codes "&amp;"
    else if c == b'<'
    then codes "&lt;"
    else if c == b'>'
    then codes "&gt;"
    else if c == b'"'
    then codes "&quot;"
    else c ∷ []

unfoldable pub escape_telegram_html : Text → Text
unfolding escaped_telegram_html_char
escape_telegram_html [] = []
escape_telegram_html (c ∷ text) = escaped_telegram_html_char c ++ escape_telegram_html text

-- `&s[n..]`
abbrev pub drop : ℕ → Text → Text
drop zero s = s
drop (suc n) [] = []
drop (suc n) (c ∷ s) = drop n s

abbrev before : ℕ → Option (Text × Text) → Option (Text × Text)
before c none = none
before c (some (inner, after)) = some (c ∷ inner, after)

-- `s.find(mark)`, as what stands before the mark and what stands after it.
unfoldable pub split_at_mark : (mark : Text) → Text → Option (Text × Text)
unfolding starts_with
split_at_mark mark [] = none
split_at_mark mark (c ∷ s) =
    let later = before c (split_at_mark mark s) in
    if starts_with (c ∷ s) mark then some ([], drop (length mark) (c ∷ s)) else later

-- The text after `mark`, if it starts with it and has it again: what the two marks enclose, and
-- what follows.
abbrev pub enclosed : (mark : Text) → Text → Option (Text × Text)
enclosed mark s = if starts_with s mark then split_at_mark mark (drop (length mark) s) else none

abbrev pub bold_mark : Text
bold_mark = codes "**"

abbrev pub code_mark : Text
code_mark = codes "`"

-- The piece for what two marks enclose, in bold or as code, and else for the character.
abbrev pub piece_for : (bold code : Option (Text × Text)) (c : ℕ) (text : Text) → Text × Text
piece_for (some (inner, after)) code c text =
    (codes "<b>" ++ escape_telegram_html inner ++ codes "</b>", after)
piece_for none (some (inner, after)) c text =
    (codes "<code>" ++ escape_telegram_html inner ++ codes "</code>", after)
piece_for none none c text = (escaped_telegram_html_char c, text)

-- One piece of the text and what is left after it.
unfoldable pub next_piece : (c : ℕ) (text : Text) → Text × Text
unfolding split_at_mark starts_with escape_telegram_html escaped_telegram_html_char
next_piece c text = piece_for (enclosed bold_mark (c ∷ text)) (enclosed code_mark (c ∷ text)) c text

unfoldable pub render_loop : (fuel : ℕ) → Text → Text
unfolding next_piece
render_loop zero text = []
render_loop (suc fuel) [] = []
render_loop (suc fuel) (c ∷ text) =
    let piece = next_piece c text in piece.0 ++ render_loop fuel piece.1

unfoldable pub render_inline_markdownish_html : Text → Text
unfolding render_loop
render_inline_markdownish_html text = render_loop (suc (length text)) text

unfoldable pub render_telegram_html_message : Text → Text
unfolding render_inline_markdownish_html
render_telegram_html_message text = render_inline_markdownish_html text
