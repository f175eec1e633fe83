-- ===== src/Config/RoundTrip.antt =====
-- `loadConf` of src/config.cpp on a file that is written in the form of the shipped configuration.
use kvproxy.Base.{
  ◌<◌, ◌≡◌, ◌≢◌, refl, ◌∙◌, ap, Bool, true, false, ◌&&◌, not, some, List, [], ◌∷◌, ◌++◌, length,
  if◌then◌else◌, arith, lt→ltb,
}
use kvproxy.Base.Order.{text_ord}
use kvproxy.Base.Map.{insert, at, same_key}
use kvproxy.Base.Text.{Text, codes}
use kvproxy.Config.{value, zeros, Loaded, is_empty, keep_line, load_line, load_lines}
use kvproxy.Config.Reads.{
  AllChars, in_section, at_line, section_line, entry_line, IsKey, IsEntry, read-section_line,
  read-entry_line,
}

-- What a section's line and an entry's line do to what is loaded.
abbrev pub enter : Text → Loaded → Loaded
enter name s = record s { cur_sec = name }

abbrev pub add_entry : Text × Text → Loaded → Loaded
add_entry (k, v) s = record s {
  conf = insert s.cur_sec (insert k v (at s.cur_sec [] s.conf)) s.conf;
  ext_name =
      if not (same_key s.cur_sec (codes "kvproxy")) && same_key k (codes "extension")
      then s.cur_sec
      else s.ext_name;
}

and_false : (b : Bool) → (b && false) ≡ false
and_false b = ground arith

load_line-section_line :
    (name : Text) (s : Loaded)
    → AllChars in_section name
    → load_line (section_line name) s ≡ enter name s
unfolding load_line keep_line
load_line-section_line name s a =
    ap (λ l. keep_line l s) (read-section_line name (zeros _) s.cur_sec a)
    ∙ ap (λ b. record s { cur_sec = name; ext_name = if b then name else s.ext_name })
        (and_false (not (same_key name (codes "kvproxy"))))

keep-entry :
    (k v : Text) (s : Loaded)
    → is_empty k ≡ false
    → is_empty v ≡ false
    → keep_line (at_line value true s.cur_sec k v) s ≡ add_entry (k, v) s
unfolding keep_line
keep-entry k v s e f = rw (e, f)

not_empty : (v : Text) → v ≢ [] → is_empty v ≡ false
not_empty [] n = absurd (n refl)
not_empty (c ∷ v) n = refl

IsKey-full : (k : Text) → IsKey k → is_empty k ≡ false
IsKey-full [] a = absurd a
IsKey-full (c ∷ k) a = refl

load_line-entry_line :
    (k v : Text) (s : Loaded)
    → IsEntry (k, v)
    → load_line (entry_line (k, v)) s ≡ add_entry (k, v) s
unfolding load_line
load_line-entry_line k v s (a, b, n) =
    ap (λ l. keep_line l s) (read-entry_line k v (zeros _) s.cur_sec a b)
    ∙ keep-entry k v s (IsKey-full k a) (not_empty v n)

-- A configuration, and the lines of the file that holds it.
abbrev pub Sections : Type 0
Sections = List (Text × List (Text × Text))

abbrev pub entry_lines : List (Text × Text) → List Text
entry_lines [] = []
entry_lines (e ∷ entries) = entry_line e ∷ entry_lines entries

abbrev pub print : Sections → List Text
print [] = []
print ((name, entries) ∷ sections) = section_line name ∷ (entry_lines entries ++ print sections)

-- Each line fits, and each name, key and value can be written.
abbrev pub AllEntries : List (Text × Text) → Type 0
AllEntries [] = Unit
AllEntries (e ∷ entries) = IsEntry e × (length (entry_line e) < 200) × AllEntries entries

abbrev pub IsPrintable : Sections → Type 0
IsPrintable [] = Unit
IsPrintable ((name, entries) ∷ sections) =
    AllChars in_section name
    × (length (section_line name) < 200)
    × AllEntries entries
    × IsPrintable sections

-- The entries put into the configuration one after the other, each under its section and key.
abbrev pub put_entries : List (Text × Text) → Loaded → Loaded
put_entries [] s = s
put_entries (e ∷ entries) s = put_entries entries (add_entry e s)

abbrev pub put_all : Sections → Loaded → Loaded
put_all [] s = s
put_all ((name, entries) ∷ sections) s = put_all sections (put_entries entries (enter name s))

fits :
    (line : Text) (file : List Text) (s : Loaded)
    → length line < 200
    → load_lines (line ∷ file) s ≡ load_lines file (load_line line s)
unfolding load_lines
fits line file s short = rw (lt→ltb (length line) 200 short)

load_lines-entries :
    (entries : List (Text × Text)) (file : List Text) (s : Loaded)
    → AllEntries entries
    → load_lines (entry_lines entries ++ file) s ≡ load_lines file (put_entries entries s)
load_lines-entries [] file s a = refl
load_lines-entries ((k, v) ∷ entries) file s (a, short, all) =
    fits (entry_line (k, v)) (entry_lines entries ++ file) s short
    ∙ ap (load_lines (entry_lines entries ++ file)) (load_line-entry_line k v s a)
    ∙ load_lines-entries entries file (add_entry (k, v) s) all

-- A file of sections, each a line with its name in brackets and a line with a quoted value for
-- each key, is loaded to the end, whatever was loaded before: each value is put under its section
-- and key, a later one over an earlier one, and the extension is the last section but "kvproxy"
-- that has the key "extension". Each line must be shorter than 200 characters, a name must have no
-- ']', a key no '=', no blank (also no byte from 128 on, which is negative as a `char`) and no ';' or '[' for its first character, and a value must not be
-- empty and have no quote.
pub load_lines-print :
    (sections : Sections) (s : Loaded)
    → IsPrintable sections
    → load_lines (print sections) s ≡ some (put_all sections s)
unfolding load_lines
load_lines-print [] s a = refl
load_lines-print ((name, entries) ∷ sections) s (a, short, all, more) =
    fits (section_line name) (entry_lines entries ++ print sections) s short
    ∙ ap (load_lines (entry_lines entries ++ print sections)) (load_line-section_line name s a)
    ∙ load_lines-entries entries (print sections) (enter name s) all
    ∙ load_lines-print sections (put_entries entries (enter name s)) more
