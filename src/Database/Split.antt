-- ===== src/Database/Split.antt =====
-- database/src/query/misc.rs: `split_statements`. The text from `start` on is kept as `piece`, in
-- place of two indices. `trim` is that of ASCII text. Fuel is the length of the script, and `none` says
-- that a loop has used it up with text left.
pub mod Plain
pub mod Fuel
mod Tests
use mathlib.Core.Option
use simply_kaspa_indexer.Prelude.{
  ℕ, zero, suc, Bool, true, false, Option, none, some, ◌&&◌, ◌||◌, List, [], ◌∷◌, ◌++◌, Bytes,
  length, if◌then◌else◌, ◌==◌, leb, is_empty,
}
use simply_kaspa_indexer.Models.{bytes_eq}

-- The single quote.
abbrev pub quote : ℕ
quote = 39

-- `char::is_whitespace` below 128.
abbrev pub is_whitespace : ℕ → Bool
is_whitespace c = (leb 9 c && leb c 13) || c == b' '

unfoldable pub trim_start : Bytes → Bytes
trim_start [] = []
trim_start (c ∷ cs) = if is_whitespace c then trim_start cs else c ∷ cs

unfoldable pub trim_end : Bytes → Bytes
trim_end [] = []
trim_end (c ∷ cs) =
    let rest = trim_end cs in if is_whitespace c && is_empty rest then [] else c ∷ rest

abbrev pub trim : Bytes → Bytes
unfolding trim_start trim_end
trim s = trim_end (trim_start s)

-- A part that is passed over, and the text behind it.
abbrev pub Scanned : Type 0
Scanned = Bytes × Bytes

abbrev pub passing : Bytes → Scanned → Scanned
passing token (more, rest) = (token ++ more, rest)

-- Up to and with the next `$`.
unfoldable pub to_dollar : Bytes → Scanned
to_dollar [] = ([], [])
to_dollar (c ∷ cs) =
    let next = to_dollar cs in if c == b'$' then (c ∷ [], cs) else passing (c ∷ []) next

-- The `loop` that looks for the closing tag.
unfoldable pub to_tag : ℕ → Bytes → Bytes → Option Scanned
unfolding to_dollar
to_tag fuel tag [] = some ([], [])
to_tag zero tag (c ∷ cs) = none
to_tag (suc fuel) tag (c ∷ cs) =
    let (more, rest) = to_dollar cs in
    let after_tag = to_tag fuel tag rest in
    let after_byte = to_tag fuel tag cs in
    if c == b'$'
    then (if bytes_eq (c ∷ more) tag
        then some (c ∷ more, rest)
        else Option.map (passing (c ∷ more)) after_tag)
    else Option.map (passing (c ∷ [])) after_byte

-- The rest of a string in single quotes.
unfoldable pub to_quote : Bytes → Scanned
to_quote [] = ([], [])
to_quote (c ∷ []) = (c ∷ [], [])
to_quote (c ∷ d ∷ cs) =
    let escaped = to_quote cs in
    let next = to_quote (d ∷ cs) in
    if c == quote
    then (if d == quote then passing (c ∷ d ∷ []) escaped else (c ∷ [], d ∷ cs))
    else passing (c ∷ []) next

-- The rest of a line comment, without the end of the line.
unfoldable pub to_newline : Bytes → Scanned
to_newline [] = ([], [])
to_newline (c ∷ cs) =
    let next = to_newline cs in if c == 10 then ([], c ∷ cs) else passing (c ∷ []) next

-- The rest of a block comment.
unfoldable pub to_comment_end : Bytes → Scanned
to_comment_end [] = ([], [])
to_comment_end (c ∷ []) = ([], c ∷ [])
to_comment_end (c ∷ d ∷ cs) =
    let next = to_comment_end (d ∷ cs) in
    if c == b'*' && d == b'/' then (c ∷ d ∷ [], cs) else passing (c ∷ []) next

abbrev pub starts_with : ℕ → Bytes → Bool
starts_with d [] = false
starts_with d (c ∷ cs) = c == d

abbrev pub tail : Bytes → Bytes
tail [] = []
tail (c ∷ cs) = cs

-- One round of the loop at a byte other than `;`.
unfoldable pub scan : ℕ → Bytes → Option Scanned
unfolding to_tag to_dollar to_quote to_newline to_comment_end
scan c cs =
    if c == b'$'
    then (let (more, rest) = to_dollar cs in
        Option.map (passing (c ∷ more)) (to_tag (length rest) (c ∷ more) rest))
    else if c == quote
    then some (passing (c ∷ []) (to_quote cs))
    else if c == b'-' && starts_with b'-' cs
    then some (passing (c ∷ []) (to_newline cs))
    else if c == b'/' && starts_with b'*' cs
    then some (passing (c ∷ b'*' ∷ []) (to_comment_end (tail cs)))
    else some (c ∷ [], cs)

abbrev pub push : Bytes → List Bytes → List Bytes
push stmt statements = if is_empty (trim stmt) then statements else trim stmt ∷ statements

-- What follows a round: `next` is the rest of the loop.
abbrev pub go_on :
    (Bytes → Bytes → Option (List Bytes)) → Bytes → Option Scanned → Option (List Bytes)
go_on next piece none = none
go_on next piece (some (token, rest)) = next (piece ++ token) rest

unfoldable pub split_from : ℕ → Bytes → Bytes → Option (List Bytes)
unfolding scan
split_from fuel piece [] = some (push piece [])
split_from zero piece (c ∷ cs) = none
split_from (suc fuel) piece (c ∷ cs) =
    let statements = split_from fuel [] cs in
    let further = go_on (split_from fuel) piece (scan c cs) in
    if c == b';' then Option.map (push piece) statements else further

unfoldable pub split_statements : Bytes → Option (List Bytes)
unfolding split_from
split_statements sql = split_from (length sql) [] sql
