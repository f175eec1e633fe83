-- ===== src/Config/Reads.antt =====
-- What the loop over a line of `loadConf` in src/config.cpp reads of a section's name, and of a key and
-- its quoted value.
use mathlib.Core.List.{append-nil, append_assoc}
use kvproxy.Base.{
  ℕ, ◌≡◌, ◌≢◌, refl, sym, ◌∙◌, ap, Bool, true, false, ◌&&◌, not, [], ◌∷◌, ◌++◌, ◌==◌, arith,
}
use kvproxy.Base.Order.{text_ord}
use kvproxy.Base.Text.{Text}
use kvproxy.Config.{
  Process, init, section, key, value, Line, next, stop, is_low, read_init, read_section, read_key,
  read_value, read_char, read_chars,
}

-- The characters of a section's name, of a key behind its first, of a key's first, and of a quoted
-- value.
abbrev pub AllChars : (ℕ → Bool) → Text → Type 0
AllChars p [] = Unit
AllChars p (c ∷ t) = (p c ≡ true) × AllChars p t

abbrev pub in_section : ℕ → Bool
in_section c = not (c == b']')

abbrev pub in_key : ℕ → Bool
in_key c = not (c == b'=') && not (is_low c)

abbrev pub starts_key : ℕ → Bool
starts_key c = not (c == b';') && (not (is_low c) && not (c == b'['))

abbrev pub in_value : ℕ → Bool
in_value c = not (c == b'"')

abbrev pub at_line : Process → Bool → Text → Text → Text → Line
at_line p q s k v = record { process = p; val_quote = q; cur_sec = s; cur_key = k; cur_val = v }

go_on :
    (c : ℕ) (line : Text) (l l' : Line)
    → read_char l.process c l ≡ next l'
    → read_chars (c ∷ line) l ≡ read_chars line l'
unfolding read_chars
go_on c line l l' e = rw (read_chars, e)

leave :
    (c : ℕ) (line : Text) (l l' : Line)
    → read_char l.process c l ≡ stop l'
    → read_chars (c ∷ line) l ≡ l'
unfolding read_chars
leave c line l l' e = rw (read_chars, e)

section_char :
    (c : ℕ) (s : Text)
    → in_section c ≡ true
    → read_char section c (at_line section false s [] [])
      ≡ next (at_line section false (s ++ c ∷ []) [] [])
unfolding read_char read_section
section_char c s a = ground arith

key_char :
    (c : ℕ) (s k : Text)
    → in_key c ≡ true
    → read_char key c (at_line key false s k []) ≡ next (at_line key false s (k ++ c ∷ []) [])
unfolding read_char read_key
key_char c s k a = ground arith

value_char :
    (c : ℕ) (s k v : Text)
    → in_value c ≡ true
    → read_char value c (at_line value true s k v) ≡ next (at_line value true s k (v ++ c ∷ []))
unfolding read_char read_value
value_char c s k v a = ground arith

-- The name of a section, to its bracket.
read_section-all :
    (t rest s : Text)
    → AllChars in_section t
    → read_chars (t ++ b']' ∷ rest) (at_line section false s [] [])
      ≡ at_line section false (s ++ t) [] []
unfolding read_char read_section
read_section-all [] rest s a =
    leave b']' rest _ _ refl ∙ ap (λ n. at_line section false n [] []) (sym (append-nil s))
read_section-all (c ∷ t) rest s a =
    go_on c (t ++ b']' ∷ rest) _ _ (section_char c s a.0)
    ∙ read_section-all t rest (s ++ c ∷ []) a.1
    ∙ ap (λ n. at_line section false n [] []) (append_assoc s (c ∷ []) t)

-- A key, up to what follows it.
read_key-all :
    (t rest s k : Text)
    → AllChars in_key t
    → read_chars (t ++ rest) (at_line key false s k [])
      ≡ read_chars rest (at_line key false s (k ++ t) [])
read_key-all [] rest s k a =
    ap (λ n. read_chars rest (at_line key false s n [])) (sym (append-nil k))
read_key-all (c ∷ t) rest s k a =
    go_on c (t ++ rest) _ _ (key_char c s k a.0)
    ∙ read_key-all t rest s (k ++ c ∷ []) a.1
    ∙ ap (λ n. read_chars rest (at_line key false s n [])) (append_assoc k (c ∷ []) t)

-- A quoted value, to its closing quote.
read_value-all :
    (t rest s k v : Text)
    → AllChars in_value t
    → read_chars (t ++ b'"' ∷ rest) (at_line value true s k v) ≡ at_line value true s k (v ++ t)
unfolding read_char read_value
read_value-all [] rest s k v a =
    leave b'"' rest _ _ refl ∙ ap (at_line value true s k) (sym (append-nil v))
read_value-all (c ∷ t) rest s k v a =
    go_on c (t ++ b'"' ∷ rest) _ _ (value_char c s k v a.0)
    ∙ read_value-all t rest s k (v ++ c ∷ []) a.1
    ∙ ap (at_line value true s k) (append_assoc v (c ∷ []) t)

-- A line of a section's name, and a line of a key and its value.
abbrev pub section_line : Text → Text
section_line name = b'[' ∷ (name ++ b']' ∷ [])

abbrev pub entry_line : Text × Text → Text
entry_line (k, v) = k ++ b'=' ∷ b'"' ∷ (v ++ b'"' ∷ [])

-- A key and a value that can be written in such a line.
abbrev pub IsKey : Text → Type 0
IsKey [] = ⊥
IsKey (c ∷ t) = (starts_key c ≡ true) × AllChars in_key t

abbrev pub IsEntry : Text × Text → Type 0
IsEntry (k, v) = IsKey k × AllChars in_value v × (v ≢ [])

init_section :
    (s : Text)
    → read_char init b'[' (at_line init false s [] []) ≡ next (at_line section false [] [] [])
unfolding read_char read_init
init_section s = refl

init_key :
    (c : ℕ) (s : Text)
    → starts_key c ≡ true
    → read_char init c (at_line init false s [] []) ≡ next (at_line key false s (c ∷ []) [])
unfolding read_char read_init
init_key c s a = ground arith

key_end :
    (s k : Text) → read_char key b'=' (at_line key false s k []) ≡ next (at_line value false s k [])
unfolding read_char read_key
key_end s k = refl

quote :
    (s k : Text)
    → read_char value b'"' (at_line value false s k []) ≡ next (at_line value true s k [])
unfolding read_char read_value
quote s k = refl

pub read-section_line :
    (name tail s : Text)
    → AllChars in_section name
    → read_chars (section_line name ++ tail) (at_line init false s [] [])
      ≡ at_line section false name [] []
read-section_line name tail s a =
    go_on b'[' ((name ++ b']' ∷ []) ++ tail) _ _ (init_section s)
    ∙ ap (λ t. read_chars t (at_line section false [] [] [])) (append_assoc name (b']' ∷ []) tail)
    ∙ read_section-all name tail [] a

pub read-entry_line :
    (k v tail s : Text)
    → IsKey k
    → AllChars in_value v
    → read_chars (entry_line (k, v) ++ tail) (at_line init false s [] []) ≡ at_line value true s k v
read-entry_line [] v tail s a b = absurd a
read-entry_line (c ∷ k) v tail s (a, all) b =
    go_on c ((k ++ b'=' ∷ b'"' ∷ (v ++ b'"' ∷ [])) ++ tail) _ _ (init_key c s a)
    ∙ ap (λ t. read_chars t (at_line key false s (c ∷ []) []))
        (append_assoc k (b'=' ∷ b'"' ∷ (v ++ b'"' ∷ [])) tail)
    ∙ read_key-all k (b'=' ∷ b'"' ∷ ((v ++ b'"' ∷ []) ++ tail)) s (c ∷ []) all
    ∙ go_on b'=' (b'"' ∷ ((v ++ b'"' ∷ []) ++ tail)) _ _ (key_end s (c ∷ k))
    ∙ go_on b'"' ((v ++ b'"' ∷ []) ++ tail) _ _ (quote s (c ∷ k))
    ∙ ap (λ t. read_chars t (at_line value true s (c ∷ k) [])) (append_assoc v (b'"' ∷ []) tail)
    ∙ read_value-all v tail s (c ∷ k) [] b
