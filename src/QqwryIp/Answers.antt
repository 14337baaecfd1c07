-- ===== src/QqwryIp/Answers.antt =====
-- What main of tools/qqwry-ip/main.cpp prints.
use code_slices.Base.{ℕ, ◌≢◌, Bool, true, Option, none, some, List, [], ◌∷◌, ◌++◌}
use code_slices.QqwryIp.{Text, Opt, Line, unexpected, Settings}

-- A result of getopt_long that lets main go on: `-d` or `--data-path`, with an argument or without;
-- `-v`; an option that it does not know, with a text; a code that main does not expect.
pub data Meaning : Type 0 where
  data_path : (path : Option Text) → Meaning
  verbose : Meaning
  unknown : (ip : Text) → Meaning
  other : (code : ℕ) → Meaning

abbrev pub opt_of : Meaning → Opt
opt_of (data_path path) = record { code = b'd'; optarg = path }
opt_of verbose = record { code = b'v'; optarg = none }
opt_of (unknown ip) = record { code = b'?'; optarg = some ip }
opt_of (other code) = record { code = code; optarg = none }

abbrev pub AreMeanings : List Meaning → Type 0
AreMeanings [] = Unit {0}
AreMeanings (other code ∷ ms) =
    (code ≢ b'h') × (code ≢ b'd') × (code ≢ b'v') × (code ≢ b'?') × AreMeanings ms
AreMeanings (data_path path ∷ ms) = AreMeanings ms
AreMeanings (verbose ∷ ms) = AreMeanings ms
AreMeanings (unknown ip ∷ ms) = AreMeanings ms

-- The last path that is given, or else `path`.
unfoldable pub path_from : Text → List Meaning → Text
path_from path [] = path
path_from path (data_path (some p) ∷ ms) = path_from p ms
path_from path (data_path none ∷ ms) = path_from path ms
path_from path (verbose ∷ ms) = path_from path ms
path_from path (unknown ip ∷ ms) = path_from path ms
path_from path (other code ∷ ms) = path_from path ms

unfoldable pub verbose_from : Bool → List Meaning → Bool
verbose_from on [] = on
verbose_from on (verbose ∷ ms) = verbose_from true ms
verbose_from on (data_path path ∷ ms) = verbose_from on ms
verbose_from on (unknown ip ∷ ms) = verbose_from on ms
verbose_from on (other code ∷ ms) = verbose_from on ms

-- The texts of unknown options, which main takes for addresses.
unfoldable pub unknowns : List Meaning → List Text
unknowns [] = []
unknowns (unknown ip ∷ ms) = ip ∷ unknowns ms
unknowns (data_path path ∷ ms) = unknowns ms
unknowns (verbose ∷ ms) = unknowns ms
unknowns (other code ∷ ms) = unknowns ms

unfoldable pub messages : List Meaning → List Line
messages [] = []
messages (other code ∷ ms) = unexpected code ∷ messages ms
messages (data_path path ∷ ms) = messages ms
messages (verbose ∷ ms) = messages ms
messages (unknown ip ∷ ms) = messages ms

-- The settings behind the options `ms`.
abbrev settings : Settings → List Meaning → Settings
settings s ms = record {
  verbose = verbose_from s.verbose ms;
  data_path = path_from s.data_path ms;
  ips = s.ips ++ unknowns ms;
}
