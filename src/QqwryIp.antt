-- ===== src/QqwryIp.antt =====
-- tools/qqwry-ip/main.cpp: the command line, and the lookup of each address. getopt_long is the
-- sequence of its results, EvaIPSeeker an interface. `none` is a std::string made from NULL, which
-- is undefined.
pub mod Answers
mod Tests
use code_slices.Base.{
  ℕ, Bool, true, false, Option, none, some, List, [], ◌∷◌, ◌++◌, ◌==◌, if◌then◌else◌, ◌>>=◌, codes,
}

abbrev pub Text : Type 0
Text = List ℕ

-- An EvaIPSeeker: its state, what the constructor makes of a path, and getIPLocation.
pub record IpSeeker : Type 1 where
  pub State : Type 0
  pub seeker : Text → State
  pub get_ip_location : Text → State → Text × State

-- A result of getopt_long in front of its -1: a character code, and `optarg`.
pub record Opt : Type 0 where
  pub code : ℕ
  pub optarg : Option Text

-- What is printed: the usage, the message for a code that no case names, and a line for an address,
-- with `ip` in front if `verbose` is set.
pub data Line : Type 0 where
  usage : Line
  unexpected : (code : ℕ) → Line
  location : (ip : Option Text) (local : Text) → Line

pub record Settings : Type 0 where
  pub verbose : Bool
  pub data_path : Text
  pub ips : List Text

abbrev pub defaults : Settings
defaults = record { verbose = false; data_path = codes "."; ips = [] }

-- What a case of the `switch` leads to.
pub data Turn : Type 0 where
  stop : List Line → Turn
  go_on : List Line → Settings → Turn

abbrev pub set_path : Option Text → Settings → Settings
set_path none s = s
set_path (some path) s = record s { data_path = path }

abbrev pub push_ip : Option Text → Settings → Option Turn
push_ip none s = none
push_ip (some ip) s = some (go_on [] (record s { ips = s.ips ++ ip ∷ [] }))

unfoldable pub switch : Opt → Settings → Option Turn
switch o s =
    if o.code == b'h'
    then some (stop (usage ∷ []))
    else (if o.code == b'd'
        then some (go_on [] (set_path o.optarg s))
        else (if o.code == b'v'
            then some (go_on [] (record s { verbose = true }))
            else (if o.code == b'?'
                then push_ip o.optarg s
                else some (go_on (unexpected o.code ∷ []) s))))

abbrev pub prepend :
    List Line → Option (List Line × Option Settings) → Option (List Line × Option Settings)
prepend lines none = none
prepend lines (some (more, end)) = some (lines ++ more, end)

abbrev pub onward :
    Turn → (Settings → Option (List Line × Option Settings)) → Option (List Line × Option Settings)
onward (stop lines) rest = some (lines, none)
onward (go_on lines s) rest = prepend lines (rest s)

-- The `while (1)`: what it prints, and the settings behind it, unless main has returned.
unfoldable pub opt_loop : List Opt → Settings → Option (List Line × Option Settings)
opt_loop [] s = some ([], some s)
opt_loop (o ∷ opts) s = do turn ← switch o s; onward turn (opt_loop opts)

module _ (eva : IpSeeker) where
  -- The `for` over `ips`.
  unfoldable pub look_up : Bool → List Text → eva.State → List Line
  look_up verbose [] state = []
  look_up verbose (ip ∷ ips) state =
      let (local, next) = eva.get_ip_location ip state in
      location (if verbose then some ip else none) local ∷ look_up verbose ips next

  -- `opts` and `rest` are what getopt_long makes of the arguments: its results, and `argv` from
  -- `optind` on.
  unfoldable pub qqwry_main : (opts : List Opt) (rest : List Text) → Option (List Line)
  qqwry_main opts rest = do
    (lines, end) ← opt_loop opts defaults
    some (elim end [
      | none ↦ lines
      | some s ↦ lines ++ look_up s.verbose (s.ips ++ rest) (eva.seeker s.data_path)
    ])
