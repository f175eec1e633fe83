-- ===== src/Loader.antt =====
-- src/extension.cpp, and `loadExt` of src/kvproxy.cpp: the functions of a protocol extension, found by
-- name in a shared library. `dlopen` and `dlsym` are parameters; a pointer that is 0 is NULL.
pub mod Loaded
mod Tests
use kvproxy.Base.{
  ℕ, Bool, true, false, not, Option, none, some, List, [], ◌∷◌, ◌++◌, ◌==◌, if◌then◌else◌,
}
use kvproxy.Base.Order.{text_ord}
use kvproxy.Base.Map.{Map, insert, at}
use kvproxy.Base.Text.{Text, codes}
use kvproxy.Config.{Conf, get_conf_str}

pub record Dl : Type 0 where
  pub dlopen : Text → ℕ
  pub dlsym : ℕ → Text → ℕ

-- One of the maps of class Extension, from an extension's name to its function.
abbrev pub Symbols : Type 0
Symbols = Map Text ℕ

pub record Extension : Type 0 where
  pub parse_req : Symbols
  pub create_req : Symbols
  pub create_req_async : Symbols
  pub parse_resp : Symbols
  pub create_resp : Symbols
  pub ext_version : Symbols
  pub ext_path : Text

abbrev pub set_ext_path : Text → Extension → Extension
set_ext_path path ext = record ext { ext_path = path }

abbrev pub is_empty : Text → Bool
is_empty [] = true
is_empty (_ ∷ _) = false

-- The address of a function, kept under the extension's name if the library has it.
abbrev pub keep_sym : Text → ℕ → Symbols → Symbols
keep_sym ext_name sym m = if sym == 0 then m else insert ext_name sym m

-- The functions that a library has under the names of the extension.
unfoldable pub load_syms : Dl → ℕ → Text → Extension → Extension
load_syms dl handle ext_name ext =
    let sym = λ (name : Text). dl.dlsym handle (ext_name ++ name) in
    record ext {
      parse_req = keep_sym ext_name (sym (codes "_parse_req")) ext.parse_req;
      create_req = keep_sym ext_name (sym (codes "_create_req")) ext.create_req;
      create_req_async = keep_sym ext_name (sym (codes "_create_req_async")) ext.create_req_async;
      parse_resp = keep_sym ext_name (sym (codes "_parse_resp")) ext.parse_resp;
      create_resp = keep_sym ext_name (sym (codes "_create_resp")) ext.create_resp;
      ext_version = keep_sym ext_name (sym (codes "_ext_version")) ext.ext_version;
    }

-- ext_path + "/" + filename
abbrev pub full_path : Text → Text → Text
full_path ext_path filename = ext_path ++ b'/' ∷ filename

-- load
unfoldable pub load : Dl → Text → Text → Extension → Bool × Extension
unfolding load_syms
load dl ext_name filename ext =
    let handle = dl.dlopen (full_path ext.ext_path filename) in
    if is_empty ext.ext_path
    then (false, ext)
    else if handle == 0
    then (false, ext)
    else (true, load_syms dl handle ext_name ext)

-- findParseReq, findCreateReq, findCreateReqAsync, findParseResp, findCreateResp and findExtVersion,
-- on the map of each.
unfoldable pub find_sym : Text → Symbols → ℕ
find_sym ext_name m = at ext_name 0 m

-- What `loadExt` leaves in KvProxy.
pub record Pointers : Type 0 where
  pub ext : Extension
  pub sync_str : Text
  pub ptr_ext_version : ℕ
  pub ptr_parse_req : ℕ
  pub ptr_create_req : ℕ
  pub ptr_create_req_async : ℕ
  pub ptr_parse_resp : ℕ
  pub ptr_create_resp : ℕ
  -- Whether the log was told that the version is another one.
  pub version_differs : Bool

-- EXT_VER
abbrev pub ext_ver : ℕ
ext_ver = 20140911

infixl 5 ◌>>=◌
abbrev ◌>>=◌ : {A B : Type 0} → Option A → (A → Option B) → Option B
none >>= f = none
some a >>= f = f a

-- A function that is looked for; without it the program ends.
abbrev pub need : ℕ → Option ℕ
need sym = if sym == 0 then none else some sym

-- The functions that `loadExt` looks for, where `call` is what the function at an address returns.
unfoldable pub find_all : (ℕ → ℕ) → Text → Text → Extension → Option Pointers
unfolding find_sym
find_all call ext_name sync_str e = do
  version ← need (find_sym ext_name e.ext_version)
  parse_req ← need (find_sym ext_name e.parse_req)
  create_req ← need (find_sym ext_name e.create_req)
  create_req_async ← need (find_sym ext_name e.create_req_async)
  parse_resp ← need (find_sym ext_name e.parse_resp)
  create_resp ← need (find_sym ext_name e.create_resp)
  some (record {
    ext = e;
    sync_str = sync_str;
    ptr_ext_version = version;
    ptr_parse_req = parse_req;
    ptr_create_req = create_req;
    ptr_create_req_async = create_req_async;
    ptr_parse_resp = parse_resp;
    ptr_create_resp = create_resp;
    version_differs = not (call version == ext_ver);
  })

-- loadExt; `none` is exit(EXIT_FAILURE). What `load` returns is not looked at.
unfoldable pub load_ext :
    Dl → (ℕ → ℕ) → Text → Text → Text → Conf → Extension → Option (Pointers × Conf)
unfolding load get_conf_str find_all
load_ext dl call ext_path ext_name ext_filename conf ext =
    let e = (load dl ext_name ext_filename (set_ext_path ext_path ext)).1 in
    let (sync_str, conf') = get_conf_str ext_name (codes "sync_str") conf in
    find_all call ext_name sync_str e >>= λ p. some (p, conf')
