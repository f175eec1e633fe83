-- ===== src/Loader/Loaded.antt =====
-- Which functions the proxy calls after `loadExt` of src/kvproxy.cpp.
use kvproxy.Base.{
  ℕ, ◌≡◌, ◌≢◌, refl, sym, subst, ap, ◌∙◌, inl, inr, ◌⊎◌, Bool, true, false, not, ◌&&◌, none, some,
  [], ◌++◌, arith, ◌==◌, Bool-cases, Option-cases,
}
use kvproxy.Base.Order.{text_ord}
use kvproxy.Base.Map.{same_key_refl}
use kvproxy.Base.Text.{Text, codes}
use kvproxy.Config.{Conf, get_conf_str}
use kvproxy.Loader.{
  Dl, Symbols, Extension, Pointers, set_ext_path, is_empty, keep_sym, load_syms, full_path, load,
  find_sym, ext_ver, find_all, load_ext,
}

-- The library has the function, and the pointer is its address.
abbrev pub IsSymbol : Dl → ℕ → Text → ℕ → Type 0
IsSymbol dl handle name p = (p ≢ 0) × (p ≡ dl.dlsym handle name)

-- All functions of the extension are the library's.
pub record IsLoaded (dl : Dl) (handle : ℕ) (ext_name : Text) (p : Pointers) : Type 0 where
  pub version : IsSymbol dl handle (ext_name ++ codes "_ext_version") p.ptr_ext_version
  pub parse_req : IsSymbol dl handle (ext_name ++ codes "_parse_req") p.ptr_parse_req
  pub create_req : IsSymbol dl handle (ext_name ++ codes "_create_req") p.ptr_create_req
  pub create_req_async :
      IsSymbol dl handle (ext_name ++ codes "_create_req_async") p.ptr_create_req_async
  pub parse_resp : IsSymbol dl handle (ext_name ++ codes "_parse_resp") p.ptr_parse_resp
  pub create_resp : IsSymbol dl handle (ext_name ++ codes "_create_resp") p.ptr_create_resp

-- The library has all functions of the extension.
pub record HasSymbols (dl : Dl) (handle : ℕ) (ext_name : Text) : Type 0 where
  pub version : dl.dlsym handle (ext_name ++ codes "_ext_version") ≢ 0
  pub parse_req : dl.dlsym handle (ext_name ++ codes "_parse_req") ≢ 0
  pub create_req : dl.dlsym handle (ext_name ++ codes "_create_req") ≢ 0
  pub create_req_async : dl.dlsym handle (ext_name ++ codes "_create_req_async") ≢ 0
  pub parse_resp : dl.dlsym handle (ext_name ++ codes "_parse_resp") ≢ 0
  pub create_resp : dl.dlsym handle (ext_name ++ codes "_create_resp") ≢ 0

-- A path is given, and a library is there with all functions.
pub record IsLoadable (dl : Dl) (path ext_name filename : Text) : Type 0 where
  pub has_path : path ≢ []
  pub has_library : dl.dlopen (full_path path filename) ≢ 0
  pub has_symbols : HasSymbols dl (dl.dlopen (full_path path filename)) ext_name

-- No extension was loaded before.
abbrev pub no_extension : Extension
no_extension = record {
  parse_req = [];
  create_req = [];
  create_req_async = [];
  parse_resp = [];
  create_resp = [];
  ext_version = [];
  ext_path = [];
}

find_sym-keep_sym : (name : Text) (s : ℕ) → find_sym name (keep_sym name s []) ≡ s
unfolding find_sym
find_sym-keep_sym name s = ground (arith, same_key_refl name)

find_sym-nil : (name : Text) → find_sym name [] ≡ 0
unfolding find_sym
find_sym-nil name = refl

-- All six functions are there.
record HasAll (name : Text) (e : Extension) : Type 0 where
  version : find_sym name e.ext_version ≢ 0
  parse_req : find_sym name e.parse_req ≢ 0
  create_req : find_sym name e.create_req ≢ 0
  create_req_async : find_sym name e.create_req_async ≢ 0
  parse_resp : find_sym name e.parse_resp ≢ 0
  create_resp : find_sym name e.create_resp ≢ 0

-- The pointers are what the maps hold.
record Points (call : ℕ → ℕ) (name : Text) (e : Extension) (p : Pointers) : Type 0 where
  version : p.ptr_ext_version ≡ find_sym name e.ext_version
  parse_req : p.ptr_parse_req ≡ find_sym name e.parse_req
  create_req : p.ptr_create_req ≡ find_sym name e.create_req
  create_req_async : p.ptr_create_req_async ≡ find_sym name e.create_req_async
  parse_resp : p.ptr_parse_resp ≡ find_sym name e.parse_resp
  create_resp : p.ptr_create_resp ≡ find_sym name e.create_resp
  differs : p.version_differs ≡ not (call p.ptr_ext_version == ext_ver)

find_all-Points :
    (call : ℕ → ℕ) (name sync_str : Text) (e : Extension) (p : Pointers)
    → find_all call name sync_str e ≡ some p
    → HasAll name e × Points call name e p
unfolding find_all
find_all-Points call name sync_str e p f = ground arith

find_all-HasAll :
    (call : ℕ → ℕ) (name sync_str : Text) (e : Extension)
    → HasAll name e
    → find_all call name sync_str e ≢ none
unfolding find_all
find_all-HasAll call name sync_str e h = ground arith

kept-IsSymbol :
    (name : Text) (s : ℕ) (m : Symbols) (p : ℕ)
    → m ≡ keep_sym name s []
    → find_sym name m ≢ 0
    → p ≡ find_sym name m
    → (p ≢ 0) × (p ≡ s)
kept-IsSymbol name s m p e n q =
    (λ z. n (sym q ∙ z), q ∙ ap (find_sym name) e ∙ find_sym-keep_sym name s)

kept : (name : Text) (s : ℕ) → s ≢ 0 → find_sym name (keep_sym name s []) ≢ 0
kept name s n z = n (sym (find_sym-keep_sym name s) ∙ z)

seen : (p s : ℕ) → (p ≢ 0) × (p ≡ s) → s ≢ 0
seen p s (n, e) z = n (e ∙ z)

load_ext-find_all :
    (dl : Dl) (call : ℕ → ℕ) (path name filename : Text) (conf conf' : Conf) (ext : Extension)
    (p : Pointers)
    → load_ext dl call path name filename conf ext ≡ some (p, conf')
    → find_all call name
        (get_conf_str name (codes "sync_str") conf).0
        (load dl name filename (set_ext_path path ext)).1
      ≡ some p
unfolding load_ext
load_ext-find_all dl call path name filename conf conf' ext p e = ground arith

load_ext-none :
    (dl : Dl) (call : ℕ → ℕ) (path name filename : Text) (conf : Conf) (ext : Extension)
    → load_ext dl call path name filename conf ext ≡ none
    → find_all call name
        (get_conf_str name (codes "sync_str") conf).0
        (load dl name filename (set_ext_path path ext)).1
      ≡ none
unfolding load_ext
load_ext-none dl call path name filename conf ext e = ground arith

module _ (dl : Dl) (call : ℕ → ℕ) (path name filename : Text) where
  abbrev handle : ℕ
  handle = dl.dlopen (full_path path filename)

  -- The library could be opened.
  abbrev opened : Bool
  opened = not (is_empty path) && not (handle == 0)

  abbrev filled : Extension
  filled = (load dl name filename (set_ext_path path no_extension)).1

  filled-opened : opened ≡ true → filled ≡ load_syms dl handle name (set_ext_path path no_extension)
  unfolding load
  filled-opened o = ground arith

  filled-closed : opened ≡ false → filled ≡ set_ext_path path no_extension
  unfolding load
  filled-closed o = ground arith

  Points-IsLoaded :
      (e : Extension) (p : Pointers)
      → e ≡ load_syms dl handle name (set_ext_path path no_extension)
      → HasAll name e
      → Points call name e p
      → IsLoaded dl handle name p
  unfolding load_syms
  Points-IsLoaded e p is h q = record {
    version = kept-IsSymbol _ _ _ _ (ap (λ x. x.ext_version) is) h.version q.version;
    parse_req = kept-IsSymbol _ _ _ _ (ap (λ x. x.parse_req) is) h.parse_req q.parse_req;
    create_req = kept-IsSymbol _ _ _ _ (ap (λ x. x.create_req) is) h.create_req q.create_req;
    create_req_async =
        kept-IsSymbol _ _ _ _ (ap (λ x. x.create_req_async) is) h.create_req_async
          q.create_req_async;
    parse_resp = kept-IsSymbol _ _ _ _ (ap (λ x. x.parse_resp) is) h.parse_resp q.parse_resp;
    create_resp = kept-IsSymbol _ _ _ _ (ap (λ x. x.create_resp) is) h.create_resp q.create_resp;
  }

  HasAll-load_syms :
      HasSymbols dl handle name
      → HasAll name (load_syms dl handle name (set_ext_path path no_extension))
  unfolding load_syms
  HasAll-load_syms s = record {
    version = kept _ _ s.version;
    parse_req = kept _ _ s.parse_req;
    create_req = kept _ _ s.create_req;
    create_req_async = kept _ _ s.create_req_async;
    parse_resp = kept _ _ s.parse_resp;
    create_resp = kept _ _ s.create_resp;
  }

  IsLoaded-HasSymbols : (p : Pointers) → IsLoaded dl handle name p → HasSymbols dl handle name
  IsLoaded-HasSymbols p l = record {
    version = seen _ _ l.version;
    parse_req = seen _ _ l.parse_req;
    create_req = seen _ _ l.create_req;
    create_req_async = seen _ _ l.create_req_async;
    parse_resp = seen _ _ l.parse_resp;
    create_resp = seen _ _ l.create_resp;
  }

  not-HasAll-closed : HasAll name (set_ext_path path no_extension) → ⊥
  not-HasAll-closed h = h.version (find_sym-nil name)

  opened-IsLoadable : IsLoadable dl path name filename → opened ≡ true
  opened-IsLoadable l = ground (arith, l.has_path, l.has_library)

  IsLoadable-opened : opened ≡ true → HasSymbols dl handle name → IsLoadable dl path name filename
  IsLoadable-opened o s = record {
    has_path = ground arith;
    has_library = ground arith;
    has_symbols = s;
  }

  found :
      (conf conf' : Conf) (p : Pointers)
      → load_ext dl call path name filename conf no_extension ≡ some (p, conf')
      → IsLoadable dl path name filename
        × IsLoaded dl handle name p
        × (p.version_differs ≡ not (call p.ptr_ext_version == ext_ver))
  found conf conf' p e =
      let (h, q) =
        find_all-Points call name _ filled p
          (load_ext-find_all dl call path name filename conf conf' no_extension p e) in
      elim (Bool-cases opened) [
        | inl o ↦
            let loaded = Points-IsLoaded filled p (filled-opened o) h q in
            (IsLoadable-opened o (IsLoaded-HasSymbols p loaded), loaded, q.differs)
        | inr c ↦ absurd (not-HasAll-closed (subst (HasAll name) (filled-closed c) h))
      ]

  lost :
      (conf : Conf)
      → load_ext dl call path name filename conf no_extension ≡ none
      → IsLoadable dl path name filename
      → ⊥
  lost conf e l =
      find_all-HasAll call name _ filled
        (subst (HasAll name) (sym (filled-opened (opened-IsLoadable l)))
          (HasAll-load_syms l.has_symbols))
        (load_ext-none dl call path name filename conf no_extension e)

-- In a program that has loaded no extension yet, `loadExt` returns exactly where a path is given and
-- the library under it is there with all six functions, named after the extension; otherwise the
-- program ends. Where it returns, each pointer is the address of its function in the library, and the
-- log is told exactly when the version that the library's function returns is not the proxy's.
pub load_ext-IsLoaded :
    (dl : Dl) (call : ℕ → ℕ) (path name filename : Text) (conf : Conf)
    → ((load_ext dl call path name filename conf no_extension ≡ none)
        × (IsLoadable dl path name filename → ⊥))
      ⊎ ((p : Pointers) × (conf' : Conf) × (load_ext dl call path name filename conf no_extension
            ≡ some (p, conf'))
          × IsLoadable dl path name filename
          × IsLoaded dl (dl.dlopen (full_path path filename)) name p
          × (p.version_differs ≡ not (call p.ptr_ext_version == ext_ver)))
load_ext-IsLoaded dl call path name filename conf =
    elim (Option-cases (load_ext dl call path name filename conf no_extension)) [
      | inl e ↦ inl (e, lost dl call path name filename conf e)
      | inr ((p, conf'), e) ↦
          let (l, loaded, differs) = found dl call path name filename conf conf' p e in
          inr (p, conf', e, l, loaded, differs)
    ]
