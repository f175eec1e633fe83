-- ===== src/Log/Tests.antt =====
-- The theorem on src/log.cpp at a concrete message, and runs of its code.
use kvproxy.Base.{◌≡◌, refl, ◌⊎◌, true, false, none, some, [], ◌∷◌, ◌++◌, length}
use kvproxy.Base.Word.{slt32}
use kvproxy.Base.Text.{Text, codes}
use kvproxy.Log.{Logger, Moment, new_logger, set_level, get_level, minus_one, printed, padded, logx}
use kvproxy.Log.Line.{IsLine, logx-IsLine}

abbrev noon : Moment
noon = record {
  tm_year = 114;
  tm_mon = 8;
  tm_mday = 11;
  tm_hour = 12;
  tm_min = 0;
  tm_sec = 5;
  millis = 42;
}

warn_run : get_level (codes "warn") ≡ 2
unfolding get_level
warn_run = refl

padded_run : padded 4 42 ≡ codes "0042"
unfolding padded
padded_run = refl

-- A message as long as the room loses its last byte to a 0.
printed_run : printed 4 (codes "abcd") ≡ codes "abc" ++ 0 ∷ []
unfolding printed
printed_run = refl

abbrev logger : Logger
logger = set_level 3 new_logger

logx-IsLine_example :
    ((slt32 3 2 ≡ true) × (logx [] true 2 noon (some (codes "ready")) logger ≡ (0, logger)))
    ⊎ ((slt32 3 2 ≡ false)
        × ((true ≡ false) ⊎ (some (codes "ready") ≡ none))
        × (logx [] true 2 noon (some (codes "ready")) logger ≡ (minus_one, logger)))
    ⊎ ((slt32 3 2 ≡ false)
        × (s : Text) × (text : Text) × (some (codes "ready") ≡ some s)
        × IsLine [] 2 noon s text
        × (logx [] true 2 noon (some (codes "ready")) logger
            ≡ (length text, record logger { log_file = logger.log_file ++ text })))
logx-IsLine_example = logx-IsLine [] true 2 noon (some (codes "ready")) logger
