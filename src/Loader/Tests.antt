-- ===== src/Loader/Tests.antt =====
-- The theorem on the loader of src/extension.cpp at a concrete library.
use kvproxy.Base.{ℕ, ◌+◌, ◌≡◌, ◌⊎◌, not, none, some, [], length, ◌==◌}
use kvproxy.Base.Text.{codes}
use kvproxy.Config.{Conf}
use kvproxy.Loader.{Dl, Pointers, load_ext, ext_ver}
use kvproxy.Loader.Loaded.{IsLoadable, IsLoaded, no_extension, load_ext-IsLoaded}

-- One library, with a function at an address for every name.
abbrev library : Dl
library = record { dlopen = λ path. length path; dlsym = λ handle name. 1000 + length name }

abbrev version_of : ℕ → ℕ
version_of p = 20140911

load_ext-IsLoaded_example :
    ((load_ext library version_of
          (codes "/ext")
          (codes "memcached")
          (codes "memcached.so")
          []
          no_extension
        ≡ none)
      × (IsLoadable library (codes "/ext") (codes "memcached") (codes "memcached.so") → ⊥))
    ⊎ ((p : Pointers) × (conf' : Conf) × (load_ext library version_of
            (codes "/ext")
            (codes "memcached")
            (codes "memcached.so")
            []
            no_extension
          ≡ some (p, conf'))
        × IsLoadable library (codes "/ext") (codes "memcached") (codes "memcached.so")
        × IsLoaded library 17 (codes "memcached") p
        × (p.version_differs ≡ not (version_of p.ptr_ext_version == ext_ver)))
load_ext-IsLoaded_example =
    load_ext-IsLoaded library version_of (codes "/ext") (codes "memcached") (codes "memcached.so")
      []
