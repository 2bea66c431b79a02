-- ===== src/Sudoers/Commands.antt =====
-- The command lists of src/sudoers.rs, read back by the rules of sudoers: a backslash takes the next
-- character as it is, a bare comma ends a command, the other characters that have a meaning cannot
-- stand bare in a command, and a newline ends the rule.
use mathlib.Core.List.{append-nil}
use census.Prelude.{
  inr, ◌∙◌, ◌||◌, inl, ap, none, map, if◌then◌else◌, arith, [], Bool-cases, ◌==◌, ◌∷◌, some, refl,
  false, any, ◌≢◌, ◌≡◌, codes, List, Bool, All, ◌++◌, ℕ, Text, Option, sym,
}
use census.Sudoers.{join_texts, is_special, escape_sudoers_command}

abbrev pub newline : ℕ
newline = b'\n'

-- No command holds one of these without a backslash.
unfoldable pub is_reserved : ℕ → Bool
is_reserved c = any (λ r. c == r) (newline ∷ codes ":=()!#")

-- The character belongs to the first command.
unfoldable pub push_char : ℕ → Option (List Text) → Option (List Text)
push_char c none = none
push_char c (some []) = some ((c ∷ []) ∷ [])
push_char c (some (w ∷ ws)) = some ((c ∷ w) ∷ ws)

abbrev pub push_end : Option (List Text) → Option (List Text)
push_end none = none
push_end (some ws) = some ([] ∷ ws)

-- A reader of command lists, which fails on what is none; the blank after a comma is dropped.
unfoldable pub read_commands : Text → Option (List Text)
unfolding push_char is_reserved
read_commands [] = some ([] ∷ [])
read_commands (c ∷ []) =
    if c == b','
    then some ([] ∷ [] ∷ [])
    else if (c == b'\\') || is_reserved c
    then none
    else some ((c ∷ []) ∷ [])
read_commands (c ∷ d ∷ s) =
    let rest = read_commands s in
    let next = read_commands (d ∷ s) in
    if c == b'\\'
    then (if d == newline then none else push_char d rest)
    else if c == b','
    then push_end (if d == b' ' then rest else next)
    else if is_reserved c
    then none
    else push_char c next

unfoldable prepend : Text → Option (List Text) → Option (List Text)
prepend [] r = r
prepend (c ∷ w) r = push_char c (prepend w r)

prepend-some : (w v : Text) (r : List Text) → prepend w (some (v ∷ r)) ≡ some ((w ++ v) ∷ r)
unfolding prepend push_char
prepend-some [] v r = refl
prepend-some (c ∷ w) v r = rw (prepend-some w v r) refl

prepend-end : (w : Text) (r : List Text) → prepend w (some ([] ∷ r)) ≡ some (w ∷ r)
prepend-end w r = prepend-some w [] r ∙ ap (λ x. some (x ∷ r)) (append-nil w)

read-plain :
    (c : ℕ) (s : Text)
    → is_special c ≡ false
    → c ≢ newline
    → read_commands (c ∷ s) ≡ push_char c (read_commands s)
unfolding read_commands is_special is_reserved push_char
read-plain c [] h n = ground (arith, h)
read-plain c (d ∷ s) h n = ground (arith, h)

read-backslash :
    (c : ℕ) (s : Text) → c ≢ newline → read_commands (b'\\' ∷ c ∷ s) ≡ push_char c (read_commands s)
unfolding read_commands
read-backslash c s n = ground arith

-- The text is one line.
abbrev pub OneLine : Text → Type 0
OneLine w = All (λ c. c ≢ newline) w

read-escaped :
    (w s : Text)
    → OneLine w
    → read_commands (escape_sudoers_command w ++ s) ≡ prepend w (read_commands s)
unfolding escape_sudoers_command prepend
read-escaped [] s a = refl
read-escaped (c ∷ w) s a = elim (Bool-cases (is_special c)) [
  | inl e ↦ rw e (
      read-backslash c (escape_sudoers_command w ++ s) a.0
      ∙ ap (push_char c) (read-escaped w s a.1))
  | inr e ↦
      rw e (
        read-plain c (escape_sudoers_command w ++ s) e a.0
        ∙ ap (push_char c) (read-escaped w s a.1))
]

read-separator : (s : Text) → read_commands (codes ", " ++ s) ≡ push_end (read_commands s)
unfolding read_commands
read-separator s = refl

-- Commands of one line each, escaped and joined by a comma and a blank, are read back as they were:
-- a reader that ends a command at a bare comma, takes a character after a backslash as it is, and
-- fails on a newline or a bare colon, equals sign, parenthesis, exclamation mark or hash, never
-- fails on them, and finds neither another command nor an altered one.
pub read-rendered :
    (cmd : Text) (cmds : List Text)
    → All OneLine (cmd ∷ cmds)
    → read_commands (join_texts (codes ", ") (map escape_sudoers_command (cmd ∷ cmds)))
      ≡ some (cmd ∷ cmds)
unfolding join_texts read_commands
read-rendered cmd [] a =
    ap read_commands (sym (append-nil (escape_sudoers_command cmd)))
    ∙ (read-escaped cmd [] a.0 ∙ prepend-end cmd [])
read-rendered cmd (v ∷ cmds) a =
    read-escaped cmd _ a.0
    ∙ (ap (prepend cmd) (
          read-separator (join_texts (codes ", ") (map escape_sudoers_command (v ∷ cmds)))
          ∙ ap push_end (read-rendered v cmds a.1))
        ∙ prepend-end cmd (v ∷ cmds))
