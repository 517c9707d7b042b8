-- ===== src/App/Vault/Words.antt =====
-- The words that app/privacy.py splits a text into, and its tables of words.
use job_squire.Base.{Bool, true, List, [], ◌∷◌, ◌++◌, Text, txt, is_space, if◌then◌else◌}

unfoldable pub ends_word : Text → Bool
ends_word [] = true
ends_word (c ∷ s) = is_space c

unfoldable pub onto_first : Text → List Text → List Text
onto_first s [] = s ∷ []
onto_first s (w ∷ ws) = (s ++ w) ∷ ws

-- `s.split()`
unfoldable pub words : Text → List Text
words [] = []
words (c ∷ s) =
    let rest = words s in
    if is_space c then rest else if ends_word s then (c ∷ []) ∷ rest else onto_first (c ∷ []) rest

unfoldable pub name_stopwords : List Text
name_stopwords =
    words (
      txt
        "admin user candidate test demo recruiter contact will grant amber june april may rose dawn")
    ++ words (
        txt
          "summer hunter mark bill frank jack art gene chase dean drew earl grace hope lane miles ray reed")
    ++ words (
        txt
          "rich wade young long little brown white green black gray stone wood field hill price sharp smart")
    ++ words (txt "strong swift west north south east page law day week case cook baker carter")

unfoldable pub context_name_exclude : List Text
context_name_exclude = words (txt "none unknown tbd n/a pending unsure")

unfoldable pub common_first_names : List Text
common_first_names =
    words (
      txt
        "james john robert michael william david richard joseph thomas charles christopher daniel matthew")
    ++ words (
        txt
          "anthony mark donald steven andrew paul joshua kenneth kevin brian george timothy ronald edward")
    ++ words (
        txt
          "jason jeffrey ryan jacob gary nicholas eric jonathan stephen larry justin scott brandon benjamin")
    ++ words (
        txt
          "samuel gregory alexander patrick frank raymond jack dennis jerry tyler aaron jose adam nathan")
    ++ words (
        txt
          "henry douglas zachary peter kyle walter ethan jeremy harold carl keith roger gerald christian")
    ++ words (
        txt
          "terry sean arthur austin noah lawrence jesse joe bryan billy jordan albert dylan bruce willie")
    ++ words (
        txt
          "gabriel alan juan logan wayne ralph roy eugene randy vincent russell elijah louis bobby philip")
    ++ words (
        txt
          "johnny mary patricia jennifer linda elizabeth barbara susan jessica sarah karen lisa nancy betty")
    ++ words (
        txt
          "sandra margaret ashley kimberly emily donna michelle dorothy carol amanda melissa deborah")
    ++ words (
        txt
          "stephanie rebecca sharon laura cynthia kathleen amy angela shirley anna brenda pamela emma")
    ++ words (
        txt
          "nicole helen samantha katherine christine debra rachel carolyn janet catherine maria heather")
    ++ words (
        txt
          "diane ruth julie olivia joyce virginia victoria kelly lauren christina joan evelyn judith megan")
    ++ words (
        txt
          "andrea cheryl hannah jacqueline martha gloria teresa ann sara madison frances kathryn janice")
    ++ words (
        txt
          "jean abigail alice julia judy sophia denise doris marilyn danielle isabella beverly theresa")
    ++ words (
        txt
          "diana natalie brittany charlotte marie kayla alexis lori taylor morgan casey riley jamie cameron")
    ++ words (txt "avery peyton quinn skyler dakota charlie rowan emerson finley hayden")
