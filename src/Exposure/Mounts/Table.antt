-- ===== src/Exposure/Mounts/Table.antt =====
-- The table that src/exposure/mounts.rs builds from what the kernel prints.
use census.Prelude.Map
use census.Prelude.{
  false, inr, inl, Bool-cases, ◌&&◌, str_eq, some, if◌then◌else◌, ◌==◌, refl, not, arith, ◌∙◌, true,
  none, map, ap, all, [], ◌∷◌, ◌≡◌, Option, Bool, All, ◌++◌, Text, List, codes,
}
use census.Exposure.Mounts.Printed.{
  parse_mountinfo_line-print, words_of-fields, words_of, IsEntry, spaced, print_mount, MountEntry,
}
use census.Exposure.Mounts.{
  is_skip_fstype, record_mount, record_lines, from_mountinfo, cons_first, MountTable, skip_fstype,
  lines,
}
use census.Exposure.Mounts.Escapes.{escape_path, is_field}

-- The printed lines, each ended by a newline.
unfoldable pub print_mounts : List MountEntry → Text
print_mounts [] = []
print_mounts (e ∷ es) = print_mount e ++ (b'\n' ∷ print_mounts es)

-- A line end after the text is a newline alone.
unfoldable pub ends_plain : Text → Bool
ends_plain [] = true
ends_plain (c ∷ []) = not (c == b'\r')
ends_plain (c ∷ d ∷ s) = ends_plain (d ∷ s)

abbrev no_newline : Text → Bool
no_newline w = all (λ c. not (c == b'\n')) w

lines-line :
    (w s : Text)
    → no_newline w ≡ true
    → ends_plain w ≡ true
    → lines (w ++ (b'\n' ∷ s)) ≡ w ∷ lines s
unfolding lines cons_first ends_plain
lines-line [] [] h e = refl
lines-line [] (c ∷ s) h e = refl
lines-line (c ∷ []) s h e = ground (arith, lines-line [] s refl refl)
lines-line (c ∷ d ∷ w) s h e = ground (arith, lines-line (d ∷ w) s)

ends_plain-after : (w v : Text) → ends_plain (w ++ (b' ' ∷ v)) ≡ ends_plain v
unfolding ends_plain
ends_plain-after [] [] = refl
ends_plain-after [] (c ∷ v) = refl
ends_plain-after (c ∷ []) v = ends_plain-after [] v
ends_plain-after (c ∷ d ∷ w) v = ends_plain-after (d ∷ w) v

unfoldable last_word : Text → List Text → Text
last_word w [] = w
last_word w (v ∷ ws) = last_word v ws

ends_plain-spaced :
    (w : Text) (ws : List Text) → ends_plain (spaced w ws) ≡ ends_plain (last_word w ws)
unfolding spaced last_word
ends_plain-spaced w [] = refl
ends_plain-spaced w (v ∷ ws) = ends_plain-after w (spaced v ws) ∙ ends_plain-spaced v ws

last_word-append : (w v : Text) (ws us : List Text) → last_word w (ws ++ (v ∷ us)) ≡ last_word v us
unfolding last_word
last_word-append w v [] us = refl
last_word-append w v (u ∷ ws) us = last_word-append u v ws us

no_newline-append :
    (w v : Text) → no_newline w ≡ true → no_newline v ≡ true → no_newline (w ++ v) ≡ true
no_newline-append [] v h k = k
no_newline-append (c ∷ w) v h k = ground (arith, no_newline-append w v, k)

is_field-no_newline : (w : Text) → is_field w ≡ true → no_newline w ≡ true
is_field-no_newline [] h = refl
is_field-no_newline (c ∷ w) h = ground (arith, is_field-no_newline w)

no_newline-spaced :
    (w : Text) (ws : List Text)
    → is_field w ≡ true
    → All (λ v. is_field v ≡ true) ws
    → no_newline (spaced w ws) ≡ true
unfolding spaced
no_newline-spaced w [] h a = is_field-no_newline w h
no_newline-spaced w (v ∷ ws) h a =
    no_newline-append w (b' ' ∷ spaced v ws) (is_field-no_newline w h)
      (no_newline-spaced v ws a.0 a.1)

abbrev pub first_some : Option Text → Option Text → Option Text
first_some (some a) d = some a
first_some none d = d

first_some_assoc :
    (o p q : Option Text) → first_some o (first_some p q) ≡ first_some (first_some o p) q
first_some_assoc (some a) p q = refl
first_some_assoc none p q = refl

-- The type of the last skipped entry with this mount point.
unfoldable pub skipped_at : Text → List MountEntry → Option Text
skipped_at path [] = none
skipped_at path (e ∷ es) =
    first_some (skipped_at path es)
      (if str_eq e.mount_point path && is_skip_fstype e.fstype then some e.fstype else none)

-- The lines are as the kernel prints them, and end in a newline alone.
abbrev pub IsPrinted : MountEntry → Type 0
IsPrinted e = IsEntry e × (ends_plain e.super_options ≡ true)

print_mount-ends : (e : MountEntry) → IsPrinted e → ends_plain (print_mount e) ≡ true
unfolding print_mount last_word
print_mount-ends e h =
    ends_plain-spaced e.mount_id (words_of e)
    ∙ (ap ends_plain (
          last_word-append (escape_path e.mount_point) (codes "-") e.fields
            (e.fstype ∷ e.source ∷ e.super_options ∷ []))
        ∙ h.1)

lines-print :
    (es : List MountEntry) → All IsPrinted es → lines (print_mounts es) ≡ map print_mount es
unfolding print_mounts lines print_mount
lines-print [] a = refl
lines-print (e ∷ es) a =
    lines-line (print_mount e) (print_mounts es)
      (no_newline-spaced e.mount_id (words_of e) a.0.0.first (words_of-fields e a.0.0))
      (print_mount-ends e a.0)
    ∙ ap (λ r. print_mount e ∷ r) (lines-print es a.1)

if-first :
    (b : Bool) (a : Text) (d : Option Text)
    → (if b then some a else d) ≡ first_some (if b && true then some a else none) d
if-first true a d = refl
if-first false a d = refl

if-none :
    (b : Bool) (a : Text) (d : Option Text) → d ≡ first_some (if b && false then some a else none) d
if-none true a d = refl
if-none false a d = refl

record_mount-skipped :
    (path : Text) (e : MountEntry) (skip : MountTable)
    → Map.get path (record_mount (some (e.mount_point, e.fstype)) skip)
      ≡ first_some
          (if str_eq e.mount_point path && is_skip_fstype e.fstype then some e.fstype else none)
          (Map.get path skip)
record_mount-skipped path e skip = elim (Bool-cases (is_skip_fstype e.fstype)) [
  | inl h ↦ rw h (
      Map.get-insert e.mount_point path e.fstype skip
      ∙ if-first (str_eq e.mount_point path) e.fstype (Map.get path skip))
  | inr h ↦ rw h (if-none (str_eq e.mount_point path) e.fstype (Map.get path skip))
]

record_lines-skipped :
    (path : Text) (es : List MountEntry) (skip : MountTable)
    → All IsPrinted es
    → Map.get path (record_lines (map print_mount es) skip)
      ≡ first_some (skipped_at path es) (Map.get path skip)
unfolding skipped_at
record_lines-skipped path [] skip a = refl
record_lines-skipped path (e ∷ es) skip a =
    ap (λ r. Map.get path (record_lines (map print_mount es) (record_mount r skip)))
      (parse_mountinfo_line-print e a.0.0)
    ∙ (record_lines-skipped path es (record_mount (some (e.mount_point, e.fstype)) skip) a.1
        ∙ (ap (first_some (skipped_at path es)) (record_mount-skipped path e skip)
            ∙ first_some_assoc (skipped_at path es) _ (Map.get path skip)))

first_some-none : (o : Option Text) → first_some o none ≡ o
first_some-none none = refl
first_some-none (some a) = refl

-- From lines as the kernel prints them, with escaped mount points, fields without spaces and
-- newlines, no lone dash before the separator and no carriage return at the end, the table gives a
-- path the type of the last skipped entry with that mount point, and nothing if there is none.
pub skip_fstype-print :
    (path : Text) (es : List MountEntry)
    → All IsPrinted es
    → skip_fstype path (from_mountinfo (print_mounts es)) ≡ skipped_at path es
unfolding skip_fstype from_mountinfo Map.get
skip_fstype-print path es a =
    ap (λ ls. Map.get path (record_lines ls [])) (lines-print es a)
    ∙ (record_lines-skipped path es [] a ∙ first_some-none (skipped_at path es))
