-- ===== src/Tests/Vault.antt =====
-- Placeholders in texts, and what becomes of them.
use job_squire.Base.{
  ◌≡◌, refl, List, [], ◌∷◌, Text, txt, lower, upper, upper_char, lower_char, list_eq, nat_eq,
  pair_eq, arith,
}
use job_squire.Base.Dict.{lookup}
use job_squire.App.Vault.Placeholder.{Digest, make_placeholder, is_letter, is_hex}
use job_squire.App.Vault.Store.{Lookup, rehydrate}
use job_squire.App.Vault.Found.{IsDigest, digest_of}
use job_squire.App.Vault.RoundTrip.{
  Chunk, literal, secret, render, restore, Known, rehydrate-render,
}
use job_squire.App.Vault.Lost.{is_label_char, IsMixed, rehydrate-mixed}
use job_squire.App.Vault.Redact.{plain, found, Engine, Values}

abbrev digest : Digest
digest s = txt "00c0ffee"

digest-IsDigest : IsDigest digest
unfolding is_hex
digest-IsDigest = record {
  hex = λ s. (refl, (refl, (refl, (refl, (refl, (refl, (refl, (refl, tt))))))));
  long = λ s. ground arith;
  short = λ s. ground arith;
}

abbrev names : Lookup
names = ((txt "NAME", txt "00c0ffee"), txt "Ann Lee") ∷ []

abbrev chunks : List Chunk
chunks = literal (txt "Dear ") ∷ secret (txt "name") (txt "Ann Lee") ∷ literal (txt "!") ∷ []

chunks-Known : Known digest names chunks
unfolding Known digest_of is_letter upper upper_char lower lower_char lookup list_eq nat_eq pair_eq
chunks-Known = (
  (refl, (refl, (refl, (refl, (refl, tt))))),
  (((refl, (refl, (refl, (refl, tt)))), (refl, refl)), ((refl, tt), tt)),
)

rehydrate-render_example : rehydrate names (render digest chunks) ≡ (restore chunks, [])
rehydrate-render_example = rehydrate-render digest names digest-IsDigest chunks chunks-Known

uk_phone-IsMixed : IsMixed (txt "UK_PHONE") (txt "UK") 95 (txt "PHONE")
unfolding is_letter is_label_char nat_eq
uk_phone-IsMixed = record {
  parts = refl;
  label = (refl, (refl, (refl, (refl, (refl, (refl, (refl, (refl, tt))))))));
  letters = (refl, (refl, tt));
  begins = refl;
  other = refl;
}

rehydrate-mixed_example :
    rehydrate names (make_placeholder digest (txt "UK_PHONE") (txt "020 7946"))
    ≡ (make_placeholder digest (txt "UK_PHONE") (txt "020 7946"), [])
rehydrate-mixed_example =
    rehydrate-mixed digest names digest-IsDigest (txt "UK_PHONE") (txt "UK") (txt "PHONE")
      (txt "020 7946") 95 uk_phone-IsMixed

-- A known name is the only match in any text.
abbrev engine : Engine
engine = record {
  digest = digest;
  patterns = [];
  card_pattern = λ s. plain s ∷ [];
  context_pattern = λ s. plain s ∷ [];
  pair_pattern = λ s. plain s ∷ [];
  pattern_of = λ kind value s. plain (txt "To ") ∷ found value [] ∷ [];
  strip_spi = λ s. s;
}

abbrev known : Values
known = (txt "NAME", txt "Ann Lee") ∷ []

abbrev placeholder : Text
placeholder = make_placeholder digest (txt "NAME") (txt "Ann Lee")
