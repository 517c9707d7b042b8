-- ===== src/Tests/Dotenv.antt =====
-- A line of an env file is set.
use job_squire.Base.{
  false, ◌≡◌, refl, Option, some, ◌∷◌, ◌++◌, Text, txt, is_space, strip, lstrip, rstrip, before,
  starts_with, ◌==◌, list_eq, nat_eq,
}
use job_squire.Cli.Dotenv.{
  is_break, onto_line, split_lines, behind_first, entry_of, lines_of, get_value, set_line,
}
use job_squire.Cli.Dotenv.Lines.{IsKey, NotAgain, Absent, set_line-get_value}

abbrev env_file : Option Text
env_file = some (txt "# ports" ++ 10 ∷ txt " PORT=80" ++ 10 ∷ txt "A=1")

port-IsKey : IsKey (txt "PORT")
unfolding is_space strip lstrip rstrip nat_eq
port-IsKey = record {
  first = b'P';
  later = txt "ORT";
  parts = refl;
  no_space = refl;
  no_comment = refl;
  plain = (refl, (refl, (refl, (refl, tt))));
  stripped = refl;
}

set_line-get_value_example :
    (get_value (set_line env_file (txt "PORT") (txt "81")) (txt "PORT") ≡ some (txt "81"))
    × ((k : Text)
        → (k == txt "PORT") ≡ false
        → get_value (set_line env_file (txt "PORT") (txt "81")) k ≡ get_value env_file k)
unfolding is_break is_space strip lstrip rstrip starts_with NotAgain Absent lines_of split_lines
    onto_line entry_of before behind_first nat_eq
set_line-get_value_example =
    set_line-get_value env_file (txt "PORT") (txt "81") port-IsKey
      (refl, (refl, (refl, (refl, (refl, (refl, (refl, tt))))))) refl refl ((λ v e. cc), tt)
