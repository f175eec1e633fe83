-- ===== src/Config/Tests.antt =====
-- The configuration file of src/config.cpp at a small example.
use kvproxy.Base.{◌≡◌, refl, some, [], ◌∷◌, arith}
use kvproxy.Base.Order.{text_ord}
use kvproxy.Base.Text.{codes}
use kvproxy.Config.{Loaded, load_lines, load_conf, lines_of, load_line, read_chars, keep_line}
use kvproxy.Config.RoundTrip.{Sections, IsPrintable, print, put_all, load_lines-print}

abbrev nothing : Loaded
nothing = record { conf = []; ext_name = []; cur_sec = [] }

abbrev sections : Sections
sections =
    (codes "kvproxy", (codes "port", codes "55550") ∷ [])
    ∷ (codes "mc", (codes "extension", codes "memcached") ∷ (codes "hosts", codes "group1") ∷ [])
    ∷ []

sections-IsPrintable : IsPrintable sections
sections-IsPrintable = ground arith

load_lines-print_example : load_lines (print sections) nothing ≡ some (put_all sections nothing)
load_lines-print_example = load_lines-print sections nothing sections-IsPrintable

-- Blanks around a key, a comment, and a value without quotes.
load_run :
    load_conf (codes "; a comment\n[mc]\n proto = text ;\n") nothing
    ≡ some (record nothing {
      conf = (codes "mc", (codes "proto", codes "text;") ∷ []) ∷ [];
      cur_sec = codes "mc";
    })
unfolding load_conf lines_of load_lines load_line read_chars keep_line
load_run = refl
