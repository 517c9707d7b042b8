-- ===== src/App/Vault/Placeholder.antt =====
-- The placeholders of app/privacy.py: how one is made, and the expression `PLACEHOLDER_RE` that finds them again.
-- Letters and white space are those of ASCII; the digest of HMAC is a parameter.
use job_squire.Base.{
  ℕ, Bool, false, ◌&&◌, ◌||◌, Option, none, some, [], ◌∷◌, ◌++◌, Text, txt, nonempty, length, strip,
  lower, upper, is_space, lstrip, starts_with, drop, leb, ◌==◌, list_eq, nat_eq, if◌then◌else◌,
}

-- `hmac.new(...).hexdigest()[:_DIGEST_LEN]` under the secret key, of the bytes of a text.
abbrev pub Digest : Type 0
Digest = Text → Text

unfoldable pub make_placeholder : Digest → Text → Text → Text
make_placeholder digest kind value =
    txt "{{PII:"
    ++ upper kind
    ++ txt "_"
    ++ digest (upper kind ++ 0 ∷ lower (strip value))
    ++ txt "}}"

-- `[A-Z]` and `[0-9a-f]` with IGNORECASE
unfoldable pub is_letter : ℕ → Bool
is_letter c = (leb 65 c && leb c 90) || (leb 97 c && leb c 122)

unfoldable pub is_hex : ℕ → Bool
is_hex c = (leb 48 c && leb c 57) || (leb 65 c && leb c 70) || (leb 97 c && leb c 102)

-- The longest start of a text with characters of one class, and the rest.
unfoldable pub span : (ℕ → Bool) → Text → Text × Text
span f [] = ([], [])
span f (c ∷ s) = let rest = span f s in if f c then (c ∷ rest.0, rest.1) else ([], c ∷ s)

-- `\}{1,2}` after white space, with the text behind it.
unfoldable pub close : Text → Option Text
close s =
    if starts_with s (txt "}}")
    then some (drop 2 s)
    else if starts_with s (txt "}")
    then some (drop 1 s)
    else none

unfoldable pub close_digest : Text → Option Text → Option (Text × Text)
close_digest run none = none
close_digest run (some rest) = some (run, rest)

-- `([0-9a-f]{6,16})\s*\}{1,2}`
unfoldable pub match_digest : Text → Option (Text × Text)
match_digest s =
    let run = span is_hex s in
    if leb 6 (length run.0) && leb (length run.0) 16
    then close_digest run.0 (close (lstrip run.1))
    else none

unfoldable pub has_blank : Text → Bool
has_blank [] = false
has_blank (c ∷ s) = c == 32 || has_blank s

-- `\s*[_\- ]\s*`: a sign between white space, or white space with a blank in it.
unfoldable pub separator : Text → Option Text
separator s =
    let run = span is_space s in
    if starts_with run.1 (txt "_") || starts_with run.1 (txt "-")
    then some (lstrip (drop 1 run.1))
    else if has_blank run.0
    then some run.1
    else none

-- A match: the kind, the digest and the text behind it.
abbrev pub Match : Type 0
Match = Text × (Text × Text)

unfoldable pub with_kind : Text → Option (Text × Text) → Option Match
with_kind kind none = none
with_kind kind (some (digest, rest)) = some (kind, (digest, rest))

unfoldable pub match_separated : Text → Option Text → Option Match
match_separated kind none = none
match_separated kind (some s) = with_kind kind (match_digest s)

-- `([A-Z]+)` and what follows it.
unfoldable pub match_kind : Text → Option Match
match_kind s =
    let run = span is_letter s in
    if nonempty run.0 then match_separated run.0 (separator run.1) else none

-- Behind the braces: `\s*PII\s*:\s*`, the kind and the digest.
unfoldable pub match_tag : Text → Option Match
match_tag s =
    let tag = lstrip s in
    if starts_with (lower tag) (txt "pii")
    then (let colon = lstrip (drop 3 tag) in
        if starts_with colon (txt ":") then match_kind (lstrip (drop 1 colon)) else none)
    else none

-- `PLACEHOLDER_RE` at the start of a text. A second brace that is there belongs to the match, as `PII` is no brace.
unfoldable pub match_placeholder : Text → Option Match
match_placeholder s =
    if starts_with s (txt "{{")
    then match_tag (drop 2 s)
    else if starts_with s (txt "{")
    then match_tag (drop 1 s)
    else none
