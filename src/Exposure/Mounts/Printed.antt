-- ===== src/Exposure/Mounts/Printed.antt =====
-- Lines as the kernel prints them, read by src/exposure/mounts.rs.
use census.Prelude.{
  str_eq_iff, All-imp, refl, false, All-append, ◌∙◌, str_eq, arith, ap, true, some, [], ◌≡◌, ◌∷◌,
  ◌++◌, Text, List, All, codes,
}
use census.Exposure.Mounts.{cons_first, split_spaces, parse_mountinfo_line, fstype_in}
use census.Exposure.Mounts.Escapes.{unescape-escape, escape_path-is_field, escape_path, is_field}

pub record MountEntry : Type 0 where
  pub mount_id : Text
  pub parent_id : Text
  pub major_minor : Text
  pub root : Text
  pub mount_point : Text
  pub fields : List Text
  pub fstype : Text
  pub source : Text
  pub super_options : Text

-- The words with one space between each two.
unfoldable pub spaced : Text → List Text → Text
spaced w [] = w
spaced w (v ∷ ws) = w ++ (b' ' ∷ spaced v ws)

-- The options and the tags are before the separator.
abbrev pub tail_of : MountEntry → List Text
tail_of e = e.fields ++ (codes "-" ∷ e.fstype ∷ e.source ∷ e.super_options ∷ [])

abbrev pub words_of : MountEntry → List Text
words_of e = e.parent_id ∷ e.major_minor ∷ e.root ∷ escape_path e.mount_point ∷ tail_of e

unfoldable pub print_mount : MountEntry → Text
unfolding spaced
print_mount e = spaced e.mount_id (words_of e)

-- The fields have neither spaces nor newlines, and none before the separator is like it.
pub record IsEntry (e : MountEntry) : Type 0 where
  pub first : is_field e.mount_id ≡ true
  pub heads : All (λ w. is_field w ≡ true) (e.parent_id ∷ e.major_minor ∷ e.root ∷ [])
  pub fields : All (λ w. (is_field w ≡ true) × (str_eq w (codes "-") ≡ false)) e.fields
  pub lasts : All (λ w. is_field w ≡ true) (e.fstype ∷ e.source ∷ e.super_options ∷ [])

split-word : (w s : Text) → is_field w ≡ true → split_spaces (w ++ (b' ' ∷ s)) ≡ w ∷ split_spaces s
unfolding split_spaces cons_first
split-word [] s h = refl
split-word (c ∷ w) s h = ground (arith, split-word w s)

split-last : (w : Text) → is_field w ≡ true → split_spaces w ≡ w ∷ []
unfolding split_spaces cons_first
split-last [] h = refl
split-last (c ∷ w) h = ground (arith, split-last w)

split-spaced :
    (w : Text) (ws : List Text)
    → is_field w ≡ true
    → All (λ v. is_field v ≡ true) ws
    → split_spaces (spaced w ws) ≡ w ∷ ws
unfolding spaced
split-spaced w [] h a = split-last w h
split-spaced w (v ∷ ws) h a =
    split-word w (spaced v ws) h ∙ ap (λ r. w ∷ r) (split-spaced v ws a.0 a.1)

fstype_in-tail :
    (fs : List Text) (t : Text) (us : List Text)
    → All (λ w. (is_field w ≡ true) × (str_eq w (codes "-") ≡ false)) fs
    → fstype_in (fs ++ (codes "-" ∷ t ∷ us)) ≡ some t
unfolding fstype_in
fstype_in-tail [] t us a = rw ((str_eq_iff (codes "-") (codes "-")).1 refl) refl
fstype_in-tail (f ∷ []) t us a = rw a.0.1 (fstype_in-tail [] t us tt)
fstype_in-tail (f ∷ g ∷ fs) t us a = rw a.0.1 (fstype_in-tail (g ∷ fs) t us a.1)

pub words_of-fields : (e : MountEntry) → IsEntry e → All (λ w. is_field w ≡ true) (words_of e)
words_of-fields e h =
    let plain : Text → Type 0 = λ w. is_field w ≡ true in
    let before = All-imp _ plain e.fields (λ w i p. p.0) h.fields in
    let tail =
      All-append plain e.fields (codes "-" ∷ e.fstype ∷ e.source ∷ e.super_options ∷ []) before
        (refl, h.lasts) in
    (h.heads.0, (h.heads.1.0, (h.heads.1.1.0, (escape_path-is_field e.mount_point, tail))))

pub parse_mountinfo_line-print :
    (e : MountEntry)
    → IsEntry e
    → parse_mountinfo_line (print_mount e) ≡ some (e.mount_point, e.fstype)
unfolding parse_mountinfo_line print_mount
parse_mountinfo_line-print e h =
    rw (split-spaced e.mount_id (words_of e) h.first (words_of-fields e h)) (
      rw (fstype_in-tail e.fields e.fstype (e.source ∷ e.super_options ∷ []) h.fields)
        (ap (λ p. some (p, e.fstype)) (unescape-escape e.mount_point)))
