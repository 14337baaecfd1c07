-- ===== src/QqwryIp/Tests.antt =====
-- Command lines of the Makefile of tools/qqwry-ip, with a lookup that answers the text itself, and
-- the theorem at an input.
use code_slices.Base.{◌≡◌, refl, none, some, List, [], ◌∷◌, ◌++◌, codes}
use code_slices.QqwryIp.{Text, IpSeeker, location, switch, opt_loop, look_up, qqwry_main}
use code_slices.QqwryIp.Answers.{Meaning, data_path, verbose, other, opt_of}

-- It knows its path, and answers with it in front.
abbrev echo : IpSeeker
echo = record {
  State = Text;
  seeker = λ path. path;
  get_ip_location = λ ip path. (path ++ b':' ∷ ip, path);
}

abbrev meanings : List Meaning
meanings = verbose ∷ data_path (some (codes "/a")) ∷ other 7 ∷ data_path none ∷ []

two_addresses :
    qqwry_main echo (opt_of (data_path (some (codes "/d"))) ∷ []) (codes "1" ∷ codes "2" ∷ [])
    ≡ some (location none (codes "/d:1") ∷ location none (codes "/d:2") ∷ [])
unfolding qqwry_main opt_loop switch look_up
two_addresses = refl

-- An option that getopt_long does not know, with no argument.
unknown_option : qqwry_main echo (record { code = b'?'; optarg = none } ∷ []) [] ≡ none
unfolding qqwry_main opt_loop switch
unknown_option = refl

-- `-d /d 1`: the optstring gives `-d` no argument, so that the path is looked up as an address.
short_path :
    qqwry_main echo (opt_of (data_path none) ∷ []) (codes "/d" ∷ codes "1" ∷ [])
    ≡ some (location none (codes ".:/d") ∷ location none (codes ".:1") ∷ [])
unfolding qqwry_main opt_loop switch look_up
short_path = refl
